-- ===== src/Mail.antt =====
-- The calls of System with a queue that keeps the ids of the messages that the broker still holds: each
-- publication that succeeded adds one, each message that a worker acknowledged takes one away.
pub mod Held
pub mod Kept
use delayed_notifier.Prelude.{◌==◌, ◌≡◌, String, List, [], ◌∷◌, ⊤, if◌then◌else◌}
use delayed_notifier.Go.Errors.{Result, ok, err}
use delayed_notifier.Go.Clock.{Time}
use delayed_notifier.Domain.Model.{Uuid, Notification, Fresh}
use delayed_notifier.Domain.Ports.{NotificationRepository, NotificationQueue, Notifier}
use delayed_notifier.Domain.Json.{JsonCodec}
use delayed_notifier.Service.{
  CreateInput, create_notification, get_notification_by_id, cancel_notification,
}
use delayed_notifier.Consumer.Handler.{Settlement, acked, World, service, handle_message}
use delayed_notifier.Prelude.Membership.{Member}

module _ {Q : Type 0} where
  abbrev pub add_published : Uuid → List Uuid → Result ⊤ × Q → Result ⊤ × (List Uuid × Q)
  add_published id ids (ok u, q) = (ok u, (id ∷ ids, q))
  add_published id ids (err e, q) = (err e, (ids, q))

  -- The same queue, with the ids of the messages.
  abbrev pub holding : NotificationQueue Q → NotificationQueue (List Uuid × Q)
  holding queue = record {
    publish = λ now n x. add_published n.id x.0 (queue.publish now n x.1);
    publish_retry = λ n d x. add_published n.id x.0 (queue.publish_retry n d x.1);
  }

-- One message of that id less.
abbrev pub take_away : Uuid → List Uuid → List Uuid
take_away id [] = []
take_away id (x ∷ xs) = let rest = take_away id xs in if x == id then xs else x ∷ rest

module _ {R Q N : Type 0} where
  -- What the broker does once it has the worker's answer to a message of that id.
  abbrev pub answered :
      Uuid → List Settlement → World R (List Uuid × Q) N → World R (List Uuid × Q) N
  answered id (acked ∷ _) w = record w { queue = (take_away id w.queue.0, w.queue.1) }
  answered id _ w = w

module _ {R Q N : Type 0} (json : JsonCodec) (repo : NotificationRepository R)
    (queue : NotificationQueue Q) (notifier : Notifier N) (parse_address : String → Result ⊤) where
  -- A worker handles a message of that id.
  abbrev pub deliver : Time → String → Uuid → World R (List Uuid × Q) N → World R (List Uuid × Q) N
  deliver now body id w =
      let w' = handle_message json repo (holding queue) notifier now body w in
      answered id w'.settled w'

  -- One call. A worker gets a message that the broker holds, and its lookup succeeds.
  pub data Turn : World R (List Uuid × Q) N → World R (List Uuid × Q) N → Type 0 where
    creates :
        (w : World R (List Uuid × Q) N) (fresh : Fresh) (now : Time) (i : CreateInput)
        → Turn w (service (create_notification repo (holding queue) parse_address fresh now i) w).1
    reads :
        (w : World R (List Uuid × Q) N) (id : Uuid)
        → Turn w (service (get_notification_by_id repo (holding queue) id) w).1
    cancels :
        (w : World R (List Uuid × Q) N) (id : Uuid)
        → Turn w (service (cancel_notification repo (holding queue) id) w).1
    delivers :
        (w : World R (List Uuid × Q) N) (now : Time) (body : String) (n m : Notification) (s : R)
        → json.unmarshal body ≡ ok n
        → Member n.id w.queue.0
        → repo.get_by_id n.id w.repo ≡ (ok m, s)
        → Turn w (deliver now body n.id w)

  pub data Turns (w : World R (List Uuid × Q) N) : World R (List Uuid × Q) N → Type 0 where
    here : Turns w w
    next : {v u : World R (List Uuid × Q) N} → Turns w v → Turn v u → Turns w u
