-- ===== src/App/Unwired.antt =====
-- What the containers of internal/app/fx.go cannot make.
use delayed_notifier.Prelude.Membership.{Member, here, there}
use delayed_notifier.Prelude.{◌≡◌, refl, Bool, true, false, ◌&&◌, ◌||◌, not, List, [], ◌∷◌, arith}
use delayed_notifier.App.Modules.{
  Component, lifecycle, notification_service, handlers, server, consumer, repository_port,
  queue_port, notifier_port, logger_value, Constructor, Module, api_module, worker_module,
  Available, brought, built, AllAvailable, none_needed, needed, Starts,
}

abbrev all {ℓ} : {A : Type ℓ} → (A → Bool) → List A → Bool
all p [] = true
all p (x ∷ xs) = p x && all p xs

-- What is made without an interface or a `zerolog.Logger` value.
abbrev concrete : Component → Bool
concrete notification_service = false
concrete handlers = false
concrete server = false
concrete consumer = false
concrete repository_port = false
concrete queue_port = false
concrete notifier_port = false
concrete logger_value = false
concrete _ = true

-- A constructor makes something concrete, or needs something that is not.
abbrev closed : Constructor → Bool
closed c = concrete c.gives || not (all concrete c.needs)

all-Member {ℓ} :
    {A : Type ℓ} (p : A → Bool) (x : A) (xs : List A) → Member x xs → all p xs ≡ true → p x ≡ true
all-Member p x [] m h = elim m [ ]
all-Member p x (y ∷ ys) here h = ground arith
all-Member p x (y ∷ ys) (there m) h = ground (arith, all-Member p x ys m)

gives_concrete :
    (c : Constructor) → closed c ≡ true → all concrete c.needs ≡ true → concrete c.gives ≡ true
gives_concrete c h needs = ground arith

module _ (m : Module) (h : all closed m.provides ≡ true) where
  mutual
    made_concrete : {t : Component} → Available m t → concrete t ≡ true
    made_concrete brought = refl
    made_concrete (built c given ready) =
        gives_concrete c (all-Member closed c m.provides given h) (all-concrete ready)

    all-concrete : {ts : List Component} → AllAvailable m ts → all concrete ts ≡ true
    all-concrete none_needed = refl
    all-concrete (needed a rest) = ground (arith, made_concrete a, all-concrete rest)

  first_concrete :
      {t : Component} {ts : List Component} → AllAvailable m (t ∷ ts) → concrete t ≡ true
  first_concrete (needed a rest) = made_concrete a

-- A container that makes a value only by a provided constructor whose parameters it can make, by
-- their exact types, can give neither the API nor the worker process what it is to invoke.
pub unwired : (¬ Starts api_module) × (¬ Starts worker_module)
unwired = (
  λ starts. cc (first_concrete api_module refl (starts (server ∷ lifecycle ∷ []) here)),
  λ starts. cc (first_concrete worker_module refl (starts (consumer ∷ lifecycle ∷ []) here)),
)
