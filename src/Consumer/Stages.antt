-- ===== src/Consumer/Stages.antt =====
-- `handleMessage` of internal/consumer/consumer.go, cut at its calls of the store, the notifier and the
-- broker.
use delayed_notifier.Prelude.{
  ℕ, zero, suc, ◌≡◌, true, false, String, List, [], ◌∷◌, ⊤, str_eq, if◌then◌else◌,
}
use delayed_notifier.Go.Errors.{Result, ok, err}
use delayed_notifier.Go.Clock.{Time}
use delayed_notifier.Domain.Model.{Notification, status_scheduled}
use delayed_notifier.Domain.Ports.{NotificationRepository, NotificationQueue, Notifier}
use delayed_notifier.Domain.Json.{JsonCodec}
use delayed_notifier.Consumer.Handler.{
  Settlement, acked, nacked, World, settle, after_send, handle_message,
}

-- Where a worker stands.
pub data Stage : Type 0 where
  -- before its first call, in the `select` of its loop, after its return
  starting listening ended : Stage
  -- in `handleMessage` with the decoded message; once the notification is found scheduled
  looking sending : Notification → Stage
  -- once the notifier has answered
  answered : Notification → Result ⊤ → Stage
  -- with the answer that it is to give the broker
  settling : Settlement → Stage

-- The answer that a worker has come to.
abbrev pub last_answer : List Settlement → Settlement
last_answer [] = nacked true
last_answer (a ∷ _) = a

-- With a delivery, decoded or not.
abbrev pub received : Result Notification → Stage
received (err _) = settling (nacked false)
received (ok n) = looking n

-- With what the lookup found.
abbrev pub checked : Notification → Result Notification → Stage
checked n (err _) = settling acked
checked n (ok latest) = if str_eq latest.status status_scheduled then sending n else settling acked

module _ {R Q N : Type 0} (json : JsonCodec) (repo : NotificationRepository R)
    (queue : NotificationQueue Q) (notifier : Notifier N) where
  -- What a worker leaves once the notifier has answered.
  abbrev pub concluded : Time → Notification → Result ⊤ → World R Q N → World R Q N
  concluded now n x w = after_send json repo queue notifier now n w (x, w.notifier)

  -- The next call of a worker with a message, and where it stands after it.
  abbrev pub proceed : Time → Stage → World R Q N → Stage × World R Q N
  proceed now (looking n) w =
      let (x, r) = repo.get_by_id n.id w.repo in (checked n x, record w { repo = r })
  proceed now (sending n) w =
      let (x, t) = notifier.send n w.notifier in (answered n x, record w { notifier = t })
  proceed now (answered n x) w = (
    settling (last_answer (concluded now n x w).settled),
    record (concluded now n x w) { settled = w.settled },
  )
  proceed now (settling a) w = (listening, settle a w)
  proceed now g w = (g, w)

  -- So many calls of one worker, with no other in between.
  abbrev pub run_alone : ℕ → Time → Stage × World R Q N → Stage × World R Q N
  run_alone zero now x = x
  run_alone (suc k) now x = run_alone k now (proceed now x.0 x.1)

  module _ (now : Time) (body : String) (w : World R Q N) where
    abbrev handled : World R Q N
    handled = handle_message json repo queue notifier now body w

    abbrev Alone : Type 0
    Alone = run_alone 4 now (received (json.unmarshal body), w) ≡ (listening, handled)
