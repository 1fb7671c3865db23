-- ===== src/App/Hooks.antt =====
-- The hooks that the functions to invoke of internal/app/fx.go append, and the goroutines that these
-- start. cmd/api and cmd/worker hand one module each to uber/fx, which runs the hooks.
use delayed_notifier.Prelude.{Bool, false, not, List, ◌∷◌, ⊤}
use delayed_notifier.Go.Errors.{Error, Result, ok, err}
use delayed_notifier.Go.Action.{Action, pure}
use delayed_notifier.App.Lifecycle.{Hook, append}

-- What the goroutines run: the server, or the pool of workers in a context, which is that of the hook.
pub data Launched (Context : Type 0) : Type 0 where
  serving : Launched Context
  consuming : Context → Launched Context

-- A process: its services, and the goroutines that were started, the last one first.
pub record Process (Context S : Type 0) : Type 0 where
  pub services : S
  pub goroutines : List (Launched Context)

module _ {Context S : Type 0} where
  abbrev go : Launched Context → Action (Process Context S) ⊤
  go g p = (ok tt, record p { goroutines = g ∷ p.goroutines })

  abbrev on_process : Action S ⊤ → Action (Process Context S) ⊤
  on_process m p = let (r, s) = m p.services in (r, record p { services = s })

  -- `shutdown` is `server.Shutdown`, with the context of the hook.
  abbrev pub api_hook : Action S ⊤ → Hook (Process Context S)
  api_hook shutdown = record { on_start = go serving; on_stop = on_process shutdown }

  -- `ctx` is the context that the hook is started with.
  abbrev pub worker_hook : Context → Hook (Process Context S)
  worker_hook ctx = record { on_start = go (consuming ctx); on_stop = pure tt }

  abbrev pub invoke_api :
      Action S ⊤ → Action (Process Context S × List (Hook (Process Context S))) ⊤
  invoke_api shutdown = append (api_hook shutdown)

  abbrev pub invoke_worker :
      Context → Action (Process Context S × List (Hook (Process Context S))) ⊤
  invoke_worker ctx = append (worker_hook ctx)

-- Whether the goroutine of the server panics with what `ListenAndServe` returned; `is_closed` compares
-- with `http.ErrServerClosed`.
abbrev pub panics : (Error → Bool) → Result ⊤ → Bool
panics is_closed (err e) = not (is_closed e)
panics is_closed (ok _) = false
