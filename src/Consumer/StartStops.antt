-- ===== src/Consumer/StartStops.antt =====
-- How `Start` comes to its end once its context is done.
use delayed_notifier.Prelude.{ℕ, suc, ◌+◌, ◌-◌, ◌*◌, ◌≡◌, String, ⊤}
use delayed_notifier.Go.Errors.{Result}
use delayed_notifier.Domain.Ports.{NotificationRepository, NotificationQueue, Notifier}
use delayed_notifier.Domain.Json.{JsonCodec}
use delayed_notifier.Consumer.Worker.{Connection}
use delayed_notifier.Consumer.Pool.{Phase, spawning, finished}
use delayed_notifier.Consumer.Start.{Workers, WorkersStep, hears, elsewhere}
use delayed_notifier.Consumer.Receives.{length}
use delayed_notifier.Consumer.StartRuns.{AllReturned}
use delayed_notifier.Consumer.Ahead.{in_hand, all_ahead}

module _ {R Q N C : Type 0} (json : JsonCodec) (repo : NotificationRepository R)
    (queue : NotificationQueue Q) (notifier : Notifier N) (conn : Connection C)
    (parse_address : String → Result ⊤) (worker_count : ℕ) where
  abbrev Steps : Workers R Q N C → Workers R Q N C → Type 0
  Steps = WorkersStep json repo queue notifier conn parse_address worker_count

  -- A step of `Start` or of a worker that gets no delivery.
  abbrev pub Quiet :
      {s t : Workers R Q N C}
      → WorkersStep json repo queue notifier conn parse_address worker_count s t
      → Type 0
  Quiet (hears _ _) = ⊥
  Quiet (elsewhere _) = ⊥
  Quiet _ = ⊤

  -- So many steps of `Start` and its workers from one state to another, without a delivery.
  pub data Drains (s : Workers R Q N C) : ℕ → Workers R Q N C → Type 0 where
    here : Drains s 0 s
    next :
        {k : ℕ} {t u : Workers R Q N C}
        → Drains s k t
        → (st : WorkersStep json repo queue notifier conn parse_address worker_count t u) → Quiet st
        → Drains s (suc k) u

  abbrev phase_ahead : Phase → ℕ
  phase_ahead (spawning i) = 3 * (worker_count - i) + 2
  phase_ahead Phase.waiting = 1
  phase_ahead finished = 0

  abbrev left : Workers R Q N C → ℕ
  left s = phase_ahead s.phase + all_ahead s.workers

  -- With five steps for each worker that is started or is to be.
  abbrev phase_room : Phase → ℕ
  phase_room (spawning i) = 5 * (worker_count - i) + 2
  phase_room Phase.waiting = 1
  phase_room finished = 0

  abbrev room : Workers R Q N C → ℕ
  room s = phase_room s.phase + 5 * length s.workers

  abbrev accounted : Workers R Q N C → ℕ
  accounted s = in_hand s.workers + length s.world.settled

  -- Where `Start` has returned with all its workers, or a step without a delivery is left.
  pub data Stopped (t : Workers R Q N C) : Type 0 where
    over : t.phase ≡ finished → AllReturned worker_count t.workers → Stopped t
    more :
        (u : Workers R Q N C)
        → (st : WorkersStep json repo queue notifier conn parse_address worker_count t u) → Quiet st
        → Stopped t
