-- ===== src/Sends.antt =====
-- The calls of System with a notifier that keeps a log of what it was asked to send.
pub mod Message
pub mod Count
use delayed_notifier.Prelude.{ℕ, suc, ◌==◌, Bool, false, String, List, [], ◌∷◌, ⊤, if◌then◌else◌}
use delayed_notifier.Go.Errors.{Result, ok, err}
use delayed_notifier.Domain.Model.{Uuid, Notification}
use delayed_notifier.Domain.Ports.{NotificationRepository, NotificationQueue, Notifier}
use delayed_notifier.Domain.Json.{JsonCodec}
use delayed_notifier.Consumer.Handler.{Settlement, acked, nacked, World}
use delayed_notifier.System.{Call}

-- The notifications that were given to the notifier with its answers, the last one first.
abbrev pub Log : Type 0
Log = List (Notification × Result ⊤)

module _ {N : Type 0} where
  abbrev pub log_answer : Notification → Log → Result ⊤ × N → Result ⊤ × (Log × N)
  log_answer n log (r, s) = (r, ((n, r) ∷ log, s))

  -- The same notifier, with a log.
  abbrev pub logged : Notifier N → Notifier (Log × N)
  logged notifier = record { send = λ n x. log_answer n x.0 (notifier.send n x.1) }

abbrev pub count {ℓ} : {A : Type ℓ} → (A → Bool) → List A → ℕ
count p [] = 0
count p (x ∷ xs) = let rest = count p xs in if p x then suc rest else rest

-- A send of that notification, whatever its answer.
abbrev pub is_send : Uuid → Notification × Result ⊤ → Bool
is_send id (n, _) = n.id == id

-- A send of that notification that succeeded.
abbrev pub is_success : Uuid → Notification × Result ⊤ → Bool
is_success id (n, ok _) = n.id == id
is_success id (n, err _) = false

abbrev pub is_requeue : Settlement → Bool
is_requeue acked = false
is_requeue (nacked b) = b

module _ {R Q N : Type 0} where
  abbrev pub sends : Uuid → World R Q (Log × N) → ℕ
  sends id w = count (is_send id) w.notifier.0

  abbrev pub successes : Uuid → World R Q (Log × N) → ℕ
  successes id w = count (is_success id) w.notifier.0

  abbrev pub requeues : World R Q (Log × N) → ℕ
  requeues w = count is_requeue w.settled

module _ {R Q N : Type 0} (json : JsonCodec) (repo : NotificationRepository R)
    (queue : NotificationQueue Q) (notifier : Notifier N) (parse_address : String → Result ⊤) where
  -- Sequences of calls. What the broker and the notifier's services do by themselves leaves the log.
  pub data Watched (w : World R Q (Log × N)) : World R Q (Log × N) → Type 0 where
    here : Watched w w
    calls :
        {v u : World R Q (Log × N)}
        → Watched w v
        → Call json repo queue (logged notifier) parse_address v u
        → Watched w u
    outside :
        {v : World R Q (Log × N)}
        → Watched w v
        → (q : Q) (s : N) → Watched w (record v { queue = q; notifier = (v.notifier.0, s) })
