-- ===== src/System.antt =====
-- The API process (internal/service, reached through internal/delivery/http) and the workers
-- (internal/consumer) over one store, one queue and one notifier, one call after another.
use delayed_notifier.Prelude.{◌≡◌, ◌≢◌, refl, String, ⊤, some, inl, inr, ◌∙◌}
use delayed_notifier.Go.Errors.{Result}
use delayed_notifier.Go.Clock.{Time}
use delayed_notifier.Domain.Model.{Uuid, Notification, Fresh, status_scheduled}
use delayed_notifier.Domain.Ports.{NotificationRepository, NotificationQueue, Notifier}
use delayed_notifier.Domain.Json.{JsonCodec}
use delayed_notifier.Domain.Contract.{Ensures-cases, LawfulRepository}
use delayed_notifier.Domain.Status.{Moves, AllMove, Moves-final}
use delayed_notifier.Service.{
  CreateInput, create_notification, get_notification_by_id, cancel_notification,
}
use delayed_notifier.Service.Cancel.{cancel_moves}
use delayed_notifier.Service.Created.{create_moves}
use delayed_notifier.Consumer.Handler.{World, service, handle_message}
use delayed_notifier.Consumer.Transitions.{handle_message_moves}

module _ {R Q N : Type 0} (json : JsonCodec) (repo : NotificationRepository R)
    (queue : NotificationQueue Q) (notifier : Notifier N) (parse_address : String → Result ⊤) where
  -- One call: of the API, or a message that a worker handles.
  pub data Call : World R Q N → World R Q N → Type 0 where
    creates :
        (w : World R Q N) (fresh : Fresh) (now : Time) (i : CreateInput)
        → Call w (service (create_notification repo queue parse_address fresh now i) w).1
    reads :
        (w : World R Q N) (id : Uuid) → Call w (service (get_notification_by_id repo queue id) w).1
    cancels :
        (w : World R Q N) (id : Uuid) → Call w (service (cancel_notification repo queue id) w).1
    handles :
        (w : World R Q N) (now : Time) (body : String)
        → Call w (handle_message json repo queue notifier now body w)

  -- A call, or what the broker and the notifier's services do by themselves.
  pub data Step : World R Q N → World R Q N → Type 0 where
    calls : {w w' : World R Q N} → Call w w' → Step w w'
    outside : (w : World R Q N) (q : Q) (n : N) → Step w (record w { queue = q; notifier = n })

  pub data Reach (w : World R Q N) : World R Q N → Type 0 where
    here : Reach w w
    next : {v u : World R Q N} → Reach w v → Step v u → Reach w u

  module _ (L : LawfulRepository repo) where
    read_moves :
        (s : R) (id : Uuid)
        → L.Valid s
        → L.Valid (repo.get_by_id id s).1 × AllMove (L.view s) (L.view (repo.get_by_id id s).1)
    read_moves s id valid = elim (Ensures-cases (repo.get_by_id id s) (L.get_law s id valid)) [
      | inl (n, s', e, (valid', read)) ↦ rw e (valid', λ j. Moves.stays (read.same j))
      | inr (x, s', e, (valid', refused)) ↦ rw e (valid', λ j. Moves.stays (refused.same j))
    ]

    -- Each call moves every stored notification along its life, or leaves it.
    pub Call-moves :
        {w w' : World R Q N}
        → Call w w'
        → L.Valid w.repo
        → L.Valid w'.repo × AllMove (L.view w.repo) (L.view w'.repo)
    unfolding get_notification_by_id
    Call-moves (creates w fresh now i) valid =
        create_moves repo queue L parse_address fresh now i (w.repo, w.queue) valid
    Call-moves (reads w id) valid = read_moves w.repo id valid
    Call-moves (cancels w id) valid = cancel_moves repo queue L id (w.repo, w.queue) valid
    Call-moves (handles w now body) valid =
        handle_message_moves json repo queue notifier L now body w valid

    pub Step-moves :
        {w w' : World R Q N}
        → Step w w'
        → L.Valid w.repo
        → L.Valid w'.repo × AllMove (L.view w.repo) (L.view w'.repo)
    Step-moves (calls c) valid = Call-moves c valid
    Step-moves (outside w q n) valid = (valid, λ j. Moves.stays refl)

    Reach-Valid : {w w' : World R Q N} → L.Valid w.repo → Reach w w' → L.Valid w'.repo
    Reach-Valid valid here = valid
    Reach-Valid valid (next r s) = (Step-moves s (Reach-Valid valid r)).0

    -- Over a repository that keeps its contract, a notification that is stored with another status
    -- than `scheduled` is the same after any later sequence of calls: creations, lookups,
    -- cancellations, messages handled by workers, and whatever the broker and the notifiers do by
    -- themselves.
    pub final_forever :
        {w w' : World R Q N} (id : Uuid) (n : Notification)
        → L.Valid w.repo
        → L.view w.repo id ≡ some n
        → n.status ≢ status_scheduled
        → Reach w w'
        → L.view w'.repo id ≡ some n
    final_forever id n valid was final here = was
    final_forever id n valid was final (next r s) =
        let before = final_forever id n valid was final r in
        let moves = (Step-moves s (Reach-Valid valid r)).1 in
        Moves-final n (moves id) before final ∙ before
