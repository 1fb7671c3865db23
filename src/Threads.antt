-- ===== src/Threads.antt =====
-- The goroutines of the two processes (internal/service, internal/consumer), each where it stands between
-- two calls of the store, the queue and the notifier, in any order; a goroutine may be lost with its
-- process at any point.
pub mod Kept
pub mod Invariant
pub mod Callers
pub mod Workers
pub mod Concluded
pub mod Accounted
pub mod Copies
pub mod Single
use delayed_notifier.Prelude.{◌≡◌, ◌≢◌, true, false, String, List, ◌∷◌, ⊤}
use delayed_notifier.Go.Errors.{Error, Result, ok, err}
use delayed_notifier.Go.Clock.{Time}
use delayed_notifier.Domain.Model.{Uuid, Notification, Fresh, status_scheduled}
use delayed_notifier.Domain.Ports.{NotificationRepository, NotificationQueue, Notifier}
use delayed_notifier.Domain.Json.{JsonCodec}
use delayed_notifier.Service.{CreateInput, build_notification, cancel_if_scheduled}
use delayed_notifier.Consumer.Handler.{
  Settlement, acked, nacked, World, settle, service, after_send,
}
use delayed_notifier.Consumer.Stages.{last_answer}
use delayed_notifier.Mail.{holding}

-- Where a goroutine stands.
pub data Task : Type 0 where
  -- `CreateNotification`, once the notification is saved
  publishing : Notification → Task
  -- `CancelNotification`, once the notification is read
  cancelling : Uuid → Notification → Task
  -- `handleMessage` with the decoded message; once the notification is found scheduled; once the
  -- notifier has answered
  received sending : Notification → Task
  answered : Notification → Result ⊤ → Task
  -- `handleMessage`, once it has stored or published, with the answer that it is to give the broker
  settling : Notification → Settlement → Task

-- One element of a list, and the rest.
pub data Picks {ℓ} {A : Type ℓ} (a : A) : List A → List A → Type ℓ where
  this : {l : List A} → Picks a (a ∷ l) l
  other : {b : A} {l rest : List A} → Picks a l rest → Picks a (b ∷ l) (b ∷ rest)

-- The queue of the world keeps the ids of the messages that the broker may deliver.
pub record Site (R Q N : Type 0) : Type 0 where
  pub world : World R (List Uuid × Q) N
  pub tasks : List Task
  -- the ids whose message was refused by the queue, rejected as one that does not decode, given up
  -- after a lookup that failed, or lost by the broker
  pub lost : List Uuid

module _ {R Q N : Type 0} where
  abbrev pub ready : Site R Q N → List Uuid
  ready s = s.world.queue.0

  abbrev pub with_repo : R → World R (List Uuid × Q) N → World R (List Uuid × Q) N
  with_repo r w = record w { repo = r }

  -- The broker may deliver a message of that id, again or for the first time.
  abbrev pub redeliver : Uuid → World R (List Uuid × Q) N → World R (List Uuid × Q) N
  redeliver id w = record w { queue = (id ∷ w.queue.0, w.queue.1) }

  -- A message that was requeued is delivered again.
  abbrev pub returned :
      Uuid → List Settlement → World R (List Uuid × Q) N → World R (List Uuid × Q) N
  returned id (nacked true ∷ _) w = redeliver id w
  returned id _ w = w

  -- A goroutine is gone with its process: the broker gets the message of a worker back.
  abbrev pub crash : Task → List Task → Site R Q N → Site R Q N
  crash (publishing c) rest s = record s { tasks = rest; lost = c.id ∷ s.lost }
  crash (cancelling _ _) rest s = record s { tasks = rest }
  crash (received n) rest s = record s { world = redeliver n.id s.world; tasks = rest }
  crash (sending n) rest s = record s { world = redeliver n.id s.world; tasks = rest }
  crash (answered n _) rest s = record s { world = redeliver n.id s.world; tasks = rest }
  crash (settling n _) rest s = record s { world = redeliver n.id s.world; tasks = rest }

module _ {R Q N : Type 0} (json : JsonCodec) (repo : NotificationRepository R)
    (queue : NotificationQueue Q) (notifier : Notifier N) (parse_address : String → Result ⊤) where
  -- What a worker leaves once the notifier has answered.
  abbrev pub concluded :
      Time → Notification → Result ⊤ → World R (List Uuid × Q) N → World R (List Uuid × Q) N
  concluded now n x w = after_send json repo (holding queue) notifier now n w (x, w.notifier)

  pub data Move : Site R Q N → Site R Q N → Type 0 where
    -- `CreateNotification` saves, or fails to, and then publishes, or fails to.
    saves :
        (s : Site R Q N) (fresh : Fresh) (i : CreateInput) (n c : Notification) (r : R)
        → build_notification parse_address fresh i ≡ ok n
        → repo.save n s.world.repo ≡ (ok c, r)
        → Move s (record s { world = with_repo r s.world; tasks = publishing c ∷ s.tasks })
    save_fails :
        (s : Site R Q N) (fresh : Fresh) (i : CreateInput) (n : Notification) (e : Error) (r : R)
        → build_notification parse_address fresh i ≡ ok n
        → repo.save n s.world.repo ≡ (err e, r)
        → Move s (record s { world = with_repo r s.world })
    publishes :
        (s : Site R Q N) (c : Notification) (rest : List Task) (now : Time) (q : List Uuid × Q)
        → Picks (publishing c) s.tasks rest
        → (holding queue).publish now c s.world.queue ≡ (ok tt, q)
        → Move s (record s { world = record s.world { queue = q }; tasks = rest })
    publish_fails :
        (s : Site R Q N) (c : Notification) (rest : List Task) (now : Time) (e : Error)
        (q : List Uuid × Q)
        → Picks (publishing c) s.tasks rest
        → (holding queue).publish now c s.world.queue ≡ (err e, q)
        → Move s
            (record s { world = record s.world { queue = q }; tasks = rest; lost = c.id ∷ s.lost })
    -- A lookup of the API; `CancelNotification` goes on from what it has read.
    reads :
        (s : Site R Q N) (id : Uuid)
        → Move s (record s { world = with_repo (repo.get_by_id id s.world.repo).1 s.world })
    reads_to_cancel :
        (s : Site R Q N) (id : Uuid) (seen : Notification) (r : R)
        → repo.get_by_id id s.world.repo ≡ (ok seen, r)
        → Move s (record s { world = with_repo r s.world; tasks = cancelling id seen ∷ s.tasks })
    cancels :
        (s : Site R Q N) (id : Uuid) (seen : Notification) (rest : List Task)
        → Picks (cancelling id seen) s.tasks rest
        → Move s (record s {
          world = (service (cancel_if_scheduled repo (holding queue) id seen) s.world).1;
          tasks = rest;
        })
    -- A worker receives a message that does not decode, and rejects it for good.
    rejects :
        (s : Site R Q N) (body : String) (e : Error) (id : Uuid) (left : List Uuid)
        → json.unmarshal body ≡ err e
        → Picks id (ready s) left
        → Move s (record s {
          world = settle (nacked false) (record s.world { queue = (left, s.world.queue.1) });
          lost = id ∷ s.lost;
        })
    -- A worker receives a message, looks its notification up, sends it, stores or publishes what
    -- follows from the answer, and then settles the message.
    receives :
        (s : Site R Q N) (body : String) (n : Notification) (left : List Uuid)
        → json.unmarshal body ≡ ok n
        → Picks n.id (ready s) left
        → Move s (record s {
          world = record s.world { queue = (left, s.world.queue.1) };
          tasks = received n ∷ s.tasks;
        })
    finds :
        (s : Site R Q N) (n m : Notification) (rest : List Task) (r : R)
        → Picks (received n) s.tasks rest
        → repo.get_by_id n.id s.world.repo ≡ (ok m, r)
        → m.status ≡ status_scheduled
        → Move s (record s { world = with_repo r s.world; tasks = sending n ∷ rest })
    skips :
        (s : Site R Q N) (n m : Notification) (rest : List Task) (r : R)
        → Picks (received n) s.tasks rest
        → repo.get_by_id n.id s.world.repo ≡ (ok m, r)
        → m.status ≢ status_scheduled
        → Move s (record s { world = settle acked (with_repo r s.world); tasks = rest })
    gives_up :
        (s : Site R Q N) (n : Notification) (rest : List Task) (e : Error) (r : R)
        → Picks (received n) s.tasks rest
        → repo.get_by_id n.id s.world.repo ≡ (err e, r)
        → Move s (record s {
          world = settle acked (with_repo r s.world);
          tasks = rest;
          lost = n.id ∷ s.lost;
        })
    sends :
        (s : Site R Q N) (n : Notification) (rest : List Task) (x : Result ⊤) (t : N)
        → Picks (sending n) s.tasks rest
        → notifier.send n s.world.notifier ≡ (x, t)
        → Move s (record s { world = record s.world { notifier = t }; tasks = answered n x ∷ rest })
    concludes :
        (s : Site R Q N) (n : Notification) (x : Result ⊤) (rest : List Task) (now : Time)
        → Picks (answered n x) s.tasks rest
        → Move s (record s {
          world = record (concluded now n x s.world) { settled = s.world.settled };
          tasks = settling n (last_answer (concluded now n x s.world).settled) ∷ rest;
        })
    settles :
        (s : Site R Q N) (n : Notification) (a : Settlement) (rest : List Task)
        → Picks (settling n a) s.tasks rest
        → Move s (record s {
          world = returned n.id (a ∷ s.world.settled) (settle a s.world);
          tasks = rest;
        })
    -- A message is delivered again, as where its acknowledgement did not arrive.
    redelivers : (s : Site R Q N) (id : Uuid) → Move s (record s { world = redeliver id s.world })
    -- The broker loses a message, such as one that it had not confirmed.
    drops :
        (s : Site R Q N) (id : Uuid) (left : List Uuid)
        → Picks id (ready s) left
        → Move s (record s {
          world = record s.world { queue = (left, s.world.queue.1) };
          lost = id ∷ s.lost;
        })
    crashes :
        (s : Site R Q N) (t : Task) (rest : List Task)
        → Picks t s.tasks rest
        → Move s (crash t rest s)

  pub data Moves (s : Site R Q N) : Site R Q N → Type 0 where
    here : Moves s s
    next : {t u : Site R Q N} → Moves s t → Move t u → Moves s u
