-- ===== src/Threads/Callers.antt =====
-- The moves of the API, and the invariant.
use native.Mathlib.Decide.{ℕ_discrete}
use delayed_notifier.Prelude.{
  ◌≡◌, refl, String, List, ◌∷◌, ⊤, some, inl, inr, ap, sym, ◌∙◌, Bool-cases, str_eq,
}
use delayed_notifier.Prelude.Membership.{here, there}
use delayed_notifier.Go.Errors.{Error, Result, ok, err}
use delayed_notifier.Go.Clock.{Time}
use delayed_notifier.Domain.Model.{Uuid, Notification, Fresh, status_scheduled}
use delayed_notifier.Domain.Ports.{NotificationRepository, NotificationQueue, Notifier}
use delayed_notifier.Domain.Json.{JsonCodec}
use delayed_notifier.Domain.Contract.{Ensures-cases, LawfulRepository}
use delayed_notifier.Domain.Status.{IsFinal, IsFinal-ne-scheduled}
use delayed_notifier.Service.{CreateInput, build_notification, cancel_if_scheduled}
use delayed_notifier.Consumer.Handler.{World, service}
use delayed_notifier.Mail.{holding}
use delayed_notifier.Mail.Held.{added-ok, added-err}
use delayed_notifier.Threads.{Task, publishing, cancelling, Picks, Site, ready, with_repo}
use delayed_notifier.Threads.Invariant.{Accounted, picked, more, looked}
use delayed_notifier.Threads.Kept.{
  here_at, waiting, carried, gone, NoneNew, Same-NoneNew, SameBut-NoneNew, Kept-more,
}

module _ {R Q N : Type 0} (json : JsonCodec) (repo : NotificationRepository R)
    (queue : NotificationQueue Q) (notifier : Notifier N) (parse_address : String → Result ⊤)
    (L : LawfulRepository repo) where
  -- What `CancelNotification` does once it has read the notification.
  cancelled :
      (w : World R (List Uuid × Q) N) (id : Uuid) (seen : Notification)
      → L.Valid w.repo
      → let w' = (service (cancel_if_scheduled repo (holding queue) id seen) w).1 in
        L.Valid w'.repo × NoneNew (L.view w.repo) (L.view w'.repo) × (w'.queue ≡ w.queue)
  cancelled w id seen valid = elim (Bool-cases (str_eq seen.status status_scheduled)) [
    | inr other ↦ rw other (valid, (λ j n was _. was), refl)
    | inl scheduled ↦
        rw scheduled (elim (Ensures-cases (repo.delete id w.repo) (L.delete_law w.repo id valid)) [
          | inl (u, s, e, (v, changed)) ↦ rw e (
            v,
            SameBut-NoneNew id changed.new changed.others changed.after
                (IsFinal-ne-scheduled (IsFinal.cancelled changed.related.status)),
            refl,
          )
          | inr (b, s, e, (v, refused)) ↦ rw e (v, Same-NoneNew refused.same, refl)
        ])
  ]

  pub saves-Accounted :
      (s : Site R Q N) (fresh : Fresh) (i : CreateInput) (n c : Notification) (r : R)
      → build_notification parse_address fresh i ≡ ok n
      → repo.save n s.world.repo ≡ (ok c, r)
      → Accounted json repo queue notifier parse_address L s
      → Accounted json repo queue notifier parse_address L
          (record s { world = with_repo r s.world; tasks = publishing c ∷ s.tasks })
  saves-Accounted s fresh i n c r built saved (valid, k) =
      let (v, added) = (rw saved at (L.save_law s.world.repo n valid)) in
      (
        v,
        λ j m was sch. elim (ℕ_discrete j c.id) [
          | yes e ↦ carried (publishing c) here (ap some (sym e))
          | no ne ↦
              Kept-more j (λ m. m) (λ u m. there m) (λ m. m)
                (k j m (sym (added.others j ne) ∙ was) sch)
        ],
      )

  pub save_fails-Accounted :
      (s : Site R Q N) (fresh : Fresh) (i : CreateInput) (n : Notification) (e : Error) (r : R)
      → build_notification parse_address fresh i ≡ ok n
      → repo.save n s.world.repo ≡ (err e, r)
      → Accounted json repo queue notifier parse_address L s
      → Accounted json repo queue notifier parse_address L
          (record s { world = with_repo r s.world })
  save_fails-Accounted s fresh i n e r built bad (valid, k) =
      let (v, same) = (rw bad at (L.save_law s.world.repo n valid)) in
      (
        v,
        more json repo queue notifier parse_address L s (record s { world = with_repo r s.world })
            (Same-NoneNew same) (λ j m. m) (λ u m. m) (λ j m. m) k,
      )

  pub publishes-Accounted :
      (s : Site R Q N) (c : Notification) (rest : List Task) (now : Time) (q : List Uuid × Q)
      → Picks (publishing c) s.tasks rest
      → (holding queue).publish now c s.world.queue ≡ (ok tt, q)
      → Accounted json repo queue notifier parse_address L s
      → Accounted json repo queue notifier parse_address L
          (record s { world = record s.world { queue = q }; tasks = rest })
  publishes-Accounted s c rest now q p took (valid, k) =
      let ids : q.0 ≡ c.id ∷ ready s =
        added-ok c.id (ready s) (queue.publish now c s.world.queue.1) q took in
      (
        valid,
        picked json repo queue notifier parse_address L s
            (record s { world = record s.world { queue = q }; tasks = rest }) (publishing c) p
            (λ j n w _. w) (λ j n w _ e. waiting (rw ids (here_at c.id j (ready s) e)))
            (λ j m. rw ids (there m)) (λ u m. m) (λ j m. m) k,
      )

  pub publish_fails-Accounted :
      (s : Site R Q N) (c : Notification) (rest : List Task) (now : Time) (e : Error)
      (q : List Uuid × Q)
      → Picks (publishing c) s.tasks rest
      → (holding queue).publish now c s.world.queue ≡ (err e, q)
      → Accounted json repo queue notifier parse_address L s
      → Accounted json repo queue notifier parse_address L
          (record s { world = record s.world { queue = q }; tasks = rest; lost = c.id ∷ s.lost })
  publish_fails-Accounted s c rest now e q p bad (valid, k) =
      let ids : q.0 ≡ ready s =
        added-err c.id (ready s) (queue.publish now c s.world.queue.1) e q bad in
      (
        valid,
        picked json repo queue notifier parse_address L s
            (record s { world = record s.world { queue = q }; tasks = rest; lost = c.id ∷ s.lost })
            (publishing c) p (λ j n w _. w) (λ j n w _ e. gone (here_at c.id j s.lost e))
            (λ j m. rw ids m) (λ u m. m) (λ j m. there m) k,
      )

  pub reads-Accounted :
      (s : Site R Q N) (id : Uuid)
      → Accounted json repo queue notifier parse_address L s
      → Accounted json repo queue notifier parse_address L
          (record s { world = with_repo (repo.get_by_id id s.world.repo).1 s.world })
  reads-Accounted s id (valid, k) =
      let (v, same) = looked json repo queue notifier parse_address L s.world.repo id valid in
      (
        v,
        more json repo queue notifier parse_address L s
            (record s { world = with_repo (repo.get_by_id id s.world.repo).1 s.world })
            (Same-NoneNew same) (λ j m. m) (λ u m. m) (λ j m. m) k,
      )

  pub reads_to_cancel-Accounted :
      (s : Site R Q N) (id : Uuid) (seen : Notification) (r : R)
      → repo.get_by_id id s.world.repo ≡ (ok seen, r)
      → Accounted json repo queue notifier parse_address L s
      → Accounted json repo queue notifier parse_address L
          (record s { world = with_repo r s.world; tasks = cancelling id seen ∷ s.tasks })
  reads_to_cancel-Accounted s id seen r good (valid, k) =
      let (v, read) = (rw good at (L.get_law s.world.repo id valid)) in
      (
        v,
        more json repo queue notifier parse_address L s
            (record s { world = with_repo r s.world; tasks = cancelling id seen ∷ s.tasks })
            (Same-NoneNew read.same) (λ j m. m) (λ u m. there m) (λ j m. m) k,
      )

  pub cancels-Accounted :
      (s : Site R Q N) (id : Uuid) (seen : Notification) (rest : List Task)
      → Picks (cancelling id seen) s.tasks rest
      → Accounted json repo queue notifier parse_address L s
      → Accounted json repo queue notifier parse_address L (record s {
        world = (service (cancel_if_scheduled repo (holding queue) id seen) s.world).1;
        tasks = rest;
      })
  cancels-Accounted s id seen rest p (valid, k) =
      let (v, none_new, same) = cancelled s.world id seen valid in
      (
        v,
        picked json repo queue notifier parse_address L s
            (record s {
              world = (service (cancel_if_scheduled repo (holding queue) id seen) s.world).1;
              tasks = rest;
            })
            (cancelling id seen) p none_new (λ j n w _ e. cc) (λ j m. rw same m) (λ u m. m)
            (λ j m. m) k,
      )
