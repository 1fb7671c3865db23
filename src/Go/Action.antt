-- ===== src/Go/Action.antt =====
-- A method call: it reads and changes the state of the services that the program talks to, and
-- returns `(value, error)`. What a call wrote before it failed stays written.
use delayed_notifier.Prelude.{◌≡◌, refl, ◌⊎◌, inl, inr}
use delayed_notifier.Go.Errors.{Error, Result, ok, err, map_err}

abbrev pub Action : Type 0 → Type 0 → Type 0
Action S A = S → Result A × S

module _ {S A : Type 0} where
  abbrev pub pure : A → Action S A
  pure a s = (ok a, s)

  abbrev pub fail : Error → Action S A
  fail e s = (err e, s)

  abbrev pub lift : Result A → Action S A
  lift r s = (r, s)

  -- Rewrites the error that a call returned.
  abbrev pub on_error : (Error → Error) → Action S A → Action S A
  on_error f m s = let (r, s') = m s in (map_err f r, s')

-- `a, err := m(); if err != nil { return err }`
infixl 5 ◌>>=◌ ◌>>◌
abbrev pub ◌>>=◌ : {S A B : Type 0} → Action S A → (A → Action S B) → Action S B
◌>>=◌ m f s = let (r, s') = m s in elim r [ ok a ↦ f a s' | err e ↦ (err e, s') ]

abbrev pub ◌>>◌ : {S A B : Type 0} → Action S A → Action S B → Action S B
m >> k = m >>= λ _. k

-- How a call ended.
pub call_cases :
    {A S : Type 0} (x : Result A × S)
    → ((e : Error) × (s : S) × (x ≡ (err e, s))) ⊎ ((a : A) × (s : S) × (x ≡ (ok a, s)))
call_cases (err e, s) = inl (e, s, refl)
call_cases (ok a, s) = inr (a, s, refl)
