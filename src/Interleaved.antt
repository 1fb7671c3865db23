-- ===== src/Interleaved.antt =====
-- The API (internal/service) and the workers (internal/consumer) where their calls interleave: each
-- goes on, after a query, from what it read earlier, whatever others have stored since.
use native.Mathlib.Decide.{ℕ_discrete}
use mathlib.Core.Option.{some-injective}
use delayed_notifier.Prelude.{
  ◌≡◌, ◌≢◌, refl, String, ⊤, some, none, Option, inl, inr, ◌∙◌, sym, ap, subst, Bool-cases, str_eq,
}
use delayed_notifier.Prelude.Int.{pos, ◌+ℤ◌, leb_ℤ, to_int64}
use delayed_notifier.Go.Errors.{Result, ok, err}
use delayed_notifier.Go.Clock.{Time}
use delayed_notifier.Domain.Model.{Uuid, Notification, Fresh, status_scheduled}
use delayed_notifier.Domain.Ports.{NotificationRepository, NotificationQueue, Notifier}
use delayed_notifier.Domain.Json.{JsonCodec}
use delayed_notifier.Domain.Contract.{View, core, Ensures-cases, LawfulRepository}
use delayed_notifier.Domain.Status.{IsFinal, Moves, IsFinal-ne-scheduled}
use delayed_notifier.Service.{CreateInput, create_notification, cancel_if_scheduled}
use delayed_notifier.Service.Created.{create_moves}
use delayed_notifier.Consumer.Handler.{
  World, Settlement, service, settle, after_send, handle_send_error, update_then_settle,
  max_retries,
}
use delayed_notifier.Consumer.Ending.{repo-update, repo-publish}

-- What may happen to an entry: like `Moves`, but a final status may be overwritten by another.
pub data Drifts (o o' : Option Notification) : Type 0 where
  stays : o' ≡ o → Drifts o o'
  starts : (n : Notification) → o ≡ none → o' ≡ some n → Drifts o o'
  ends :
      (old new : Notification)
      → o ≡ some old
      → o' ≡ some new
      → IsFinal new.status
      → core new ≡ core old
      → Drifts o o'

abbrev pub AllDrift : View → View → Type 0
AllDrift v v' = (j : Uuid) → Drifts (v j) (v' j)

Drifts-Moves : {o o' : Option Notification} → Moves o o' → Drifts o o'
Drifts-Moves (Moves.stays e) = Drifts.stays e
Drifts-Moves (Moves.starts n a b _) = Drifts.starts n a b
Drifts-Moves (Moves.ends old new a b _ f k) = Drifts.ends old new a b f k

-- A notification that is final, with that content.
abbrev pub Finished : Option Notification → Notification → Type 0
Finished o n = (m : Notification) × (o ≡ some m) × (m.status ≢ status_scheduled) × (core m ≡ core n)

Drifts-Finished :
    {o o' : Option Notification} (n : Notification) → Drifts o o' → Finished o n → Finished o' n
Drifts-Finished n (Drifts.stays e) (m, was, final, same) = (m, e ∙ was, final, same)
Drifts-Finished n (Drifts.starts k absent _) (m, was, final, same) = cc
Drifts-Finished n (Drifts.ends old new had is done kept) (m, was, final, same) = (
  new,
  is,
  IsFinal-ne-scheduled done,
  kept ∙ ap core (some-injective old m (sym had ∙ was)) ∙ same,
)

module _ {S : Type 0} (repo : NotificationRepository S) (L : LawfulRepository repo) where
  update_drifts :
      (s : S) (n : Notification)
      → L.Valid s
      → IsFinal n.status
      → L.Valid (repo.update n s).1 × AllDrift (L.view s) (L.view (repo.update n s).1)
  update_drifts s n valid final = elim (Ensures-cases (repo.update n s) (L.update_law s n valid)) [
    | inr (e, s', bad, (valid', refused)) ↦ rw bad (valid', λ j. Drifts.stays (refused.same j))
    | inl (u, s', done, (valid', changed)) ↦ rw done (
      valid',
      λ j. elim (ℕ_discrete j n.id) [
        | no ne ↦ Drifts.stays (changed.others j ne)
        | yes here ↦ rw here (
            Drifts.ends changed.old changed.new changed.before changed.after
              (subst IsFinal (sym changed.related.status) final) changed.related.kept)
      ],
    )
  ]

  delete_drifts :
      (s : S) (id : Uuid)
      → L.Valid s
      → L.Valid (repo.delete id s).1 × AllDrift (L.view s) (L.view (repo.delete id s).1)
  delete_drifts s id valid = elim (Ensures-cases (repo.delete id s) (L.delete_law s id valid)) [
    | inr (e, s', bad, (valid', refused)) ↦ rw bad (valid', λ j. Drifts.stays (refused.same j))
    | inl (u, s', done, (valid', changed)) ↦ rw done (
      valid',
      λ j. elim (ℕ_discrete j id) [
        | no ne ↦ Drifts.stays (changed.others j ne)
        | yes here ↦ rw here (
            Drifts.ends changed.old changed.new changed.before changed.after
              (IsFinal.cancelled changed.related.status) changed.related.kept)
      ],
    )
  ]

module _ {R Q N : Type 0} (json : JsonCodec) (repo : NotificationRepository R)
    (queue : NotificationQueue Q) (notifier : Notifier N) (parse_address : String → Result ⊤) where
  -- The part of a call from one query of the store to the next. `reads` is the lookup of either side;
  -- `cancels` goes on from what was `seen` then; `works` from the notifier's answer to a message.
  pub data Part : World R Q N → World R Q N → Type 0 where
    creates :
        (w : World R Q N) (fresh : Fresh) (now : Time) (i : CreateInput)
        → Part w (service (create_notification repo queue parse_address fresh now i) w).1
    reads :
        (w : World R Q N) (id : Uuid) → Part w (record w { repo = (repo.get_by_id id w.repo).1 })
    cancels :
        (w : World R Q N) (id : Uuid) (seen : Notification)
        → Part w (service (cancel_if_scheduled repo queue id seen) w).1
    sends :
        (w : World R Q N) (n : Notification)
        → Part w (record w { notifier = (notifier.send n w.notifier).1 })
    works :
        (w : World R Q N) (now : Time) (n : Notification) (answer : Result ⊤)
        → Part w (after_send json repo queue notifier now n w (answer, w.notifier))
    settles : (w : World R Q N) (a : Settlement) → Part w (settle a w)
    outside : (w : World R Q N) (q : Q) (s : N) → Part w (record w { queue = q; notifier = s })

  pub data Interleaves (w : World R Q N) : World R Q N → Type 0 where
    here : Interleaves w w
    next : {v u : World R Q N} → Interleaves w v → Part v u → Interleaves w u

  module _ (L : LawfulRepository repo) where
    abbrev pub Fine : R → R → Type 0
    Fine s s' = L.Valid s' × AllDrift (L.view s) (L.view s')

    update_then_settle-Fine :
        (n : Notification) (w : World R Q N)
        → L.Valid w.repo
        → IsFinal n.status
        → Fine w.repo (update_then_settle json repo queue notifier n w).repo
    update_then_settle-Fine n w valid final =
        rw (repo-update json repo queue notifier n w) (update_drifts repo L w.repo n valid final)

    works-Fine :
        (w : World R Q N) (now : Time) (n : Notification) (answer : Result ⊤)
        → L.Valid w.repo
        → Fine w.repo (after_send json repo queue notifier now n w (answer, w.notifier)).repo
    unfolding handle_send_error
    works-Fine w now n (ok u) valid = update_then_settle-Fine _ w valid (IsFinal.sent refl)
    works-Fine w now n (err e) valid =
        elim (Bool-cases (leb_ℤ max_retries (to_int64 (n.attempts +ℤ pos 1)))) [
          | inl last ↦ rw last (update_then_settle-Fine _ w valid (IsFinal.failed refl))
          | inr more ↦
              rw more
                (rw (repo-publish json repo queue notifier _ w) (valid, λ j. Drifts.stays refl))
        ]

    cancels-Fine :
        (w : World R Q N) (id : Uuid) (seen : Notification)
        → L.Valid w.repo
        → Fine w.repo (service (cancel_if_scheduled repo queue id seen) w).1.repo
    cancels-Fine w id seen valid = elim (Bool-cases (str_eq seen.status status_scheduled)) [
      | inl scheduled ↦ rw scheduled (delete_drifts repo L w.repo id valid)
      | inr other ↦ rw other (valid, λ j. Drifts.stays refl)
    ]

    pub Part-Fine : {w w' : World R Q N} → Part w w' → L.Valid w.repo → Fine w.repo w'.repo
    Part-Fine (Part.creates w fresh now i) valid =
        let (v, moves) =
          create_moves repo queue L parse_address fresh now i (w.repo, w.queue) valid in
        (v, λ j. Drifts-Moves (moves j))
    Part-Fine (Part.reads w id) valid =
        elim (Ensures-cases (repo.get_by_id id w.repo) (L.get_law w.repo id valid)) [
          | inl (n, s', e, (valid', read)) ↦ rw e (valid', λ j. Drifts.stays (read.same j))
          | inr (x, s', e, (valid', refused)) ↦ rw e (valid', λ j. Drifts.stays (refused.same j))
        ]
    Part-Fine (Part.cancels w id seen) valid = cancels-Fine w id seen valid
    Part-Fine (Part.sends w n) valid = (valid, λ j. Drifts.stays refl)
    Part-Fine (Part.works w now n answer) valid = works-Fine w now n answer valid
    Part-Fine (Part.settles w a) valid = (valid, λ j. Drifts.stays refl)
    Part-Fine (Part.outside w q s) valid = (valid, λ j. Drifts.stays refl)

    Interleaves-Valid : {w w' : World R Q N} → L.Valid w.repo → Interleaves w w' → L.Valid w'.repo
    Interleaves-Valid valid Interleaves.here = valid
    Interleaves-Valid valid (Interleaves.next r s) = (Part-Fine s (Interleaves-Valid valid r)).0

    -- Over a repository that keeps its contract, however the API and the workers interleave between
    -- their queries, each going on from what it read earlier, a notification that is stored with
    -- another status than `scheduled` stays stored with its content and never becomes scheduled
    -- again.
    pub never_rescheduled :
        {w w' : World R Q N} (id : Uuid) (n : Notification)
        → L.Valid w.repo
        → L.view w.repo id ≡ some n
        → n.status ≢ status_scheduled
        → Interleaves w w'
        → Finished (L.view w'.repo id) n
    never_rescheduled id n valid was final Interleaves.here = (n, was, final, refl)
    never_rescheduled id n valid was final (Interleaves.next r s) =
        Drifts-Finished n ((Part-Fine s (Interleaves-Valid valid r)).1 id)
          (never_rescheduled id n valid was final r)
