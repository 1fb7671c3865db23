-- ===== src/App/Lifecycle.antt =====
-- `fx.Lifecycle` and `fx.Hook`, as far as the program uses them: what is to run when the process
-- starts, in the order of the hooks, and when it stops.
use delayed_notifier.Prelude.{List, [], ◌∷◌, ◌++◌, ⊤}
use delayed_notifier.Go.Action.{Action}
use delayed_notifier.Go.Errors.{ok}

pub record Hook (S : Type 0) : Type 0 where
  pub on_start : Action S ⊤
  pub on_stop : Action S ⊤

module _ {S : Type 0} where
  -- A call of a service, beside the lifecycle.
  abbrev pub on_services : {A : Type 0} → Action S A → Action (S × List (Hook S)) A
  on_services m (s, hooks) = let (r, s') = m s in (r, (s', hooks))

  -- `lc.Append(hook)`
  abbrev pub append : Hook S → Action (S × List (Hook S)) ⊤
  append hook (s, hooks) = (ok tt, (s, hooks ++ (hook ∷ [])))
