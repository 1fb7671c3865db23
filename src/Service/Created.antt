-- ===== src/Service/Created.antt =====
-- What `CreateNotification` of internal/service/notification_service.go leaves, over a repository that
-- keeps its contract.
use native.Mathlib.Decide.{ℕ_discrete}
use delayed_notifier.Prelude.{◌≡◌, refl, String, inl, inr, ⊤, ◌∙◌, some, ◌⊎◌}
use delayed_notifier.Go.Errors.{Error, wrap, Result, ok, err, Result-cases}
use delayed_notifier.Go.Clock.{Time}
use delayed_notifier.Domain.Model.{Notification, Fresh, status_scheduled}
use delayed_notifier.Domain.Ports.{NotificationRepository, NotificationQueue}
use delayed_notifier.Domain.Contract.{Same, Added, Ensures-cases, LawfulRepository}
use delayed_notifier.Domain.Status.{Moves, AllMove}
use delayed_notifier.Service.{CreateInput, build_notification, create_notification}
use delayed_notifier.Service.Create.{Built, build-Built}
use delayed_notifier.Service.Create

module _ {R Q : Type 0} (repo : NotificationRepository R) (queue : NotificationQueue Q)
    (L : LawfulRepository repo) (parse_address : String → Result ⊤) (fresh : Fresh) (now : Time)
    (i : CreateInput) where
  -- A new notification for the request is stored as `c`.
  abbrev pub Stored : R → R → Notification → Type 0
  Stored r r' c =
      (n : Notification) × L.Valid r' × Built parse_address i n × Added n (L.view r) (L.view r') c

  -- What the call has done, by how it ended.
  abbrev pub CreateOutcome : R × Q → Result Notification × (R × Q) → Type 0
  CreateOutcome (r, q) (ok c, (r', q')) = Stored r r' c × (queue.publish now c q ≡ (ok tt, q'))
  CreateOutcome (r, q) (err e, (r', q')) =
      (L.Valid r' × Same (L.view r) (L.view r') × (q' ≡ q))
      ⊎ ((c : Notification) × (e' : Error) × Stored r r' c × (queue.publish now c q ≡ (err e', q')))

  published :
      (n c : Notification) (r r' : R) (q : Q) (x : Result ⊤ × Q)
      → queue.publish now c q ≡ x
      → build_notification parse_address fresh i ≡ ok n
      → repo.save n r ≡ (ok c, r')
      → L.Valid r'
      → Added n (L.view r) (L.view r') c
      → CreateOutcome (r, q) (create_notification repo queue parse_address fresh now i (r, q))
  published n c r r' q (err e, q') bad built saved valid' added =
      rw
        (Create.create-eq_unpublished repo queue parse_address fresh now i n c e r r' q q' built
          saved bad)
        (inr (c, e, (n, valid', build-Built parse_address fresh i n built, added), bad))
  published n c r r' q (ok u, q') done built saved valid' added =
      rw (Create.create-eq_ok repo queue parse_address fresh now i n c r r' q q' built saved done)
        ((n, valid', build-Built parse_address fresh i n built, added), done)

  -- Over a repository that keeps its contract, a creation that succeeded has stored one new
  -- notification that matches the request, its time to the microsecond, and published it; one that
  -- failed has changed nothing stored and published nothing, or has stored the notification and got
  -- an error from the queue.
  pub create_outcome :
      (s : R × Q)
      → L.Valid s.0
      → CreateOutcome s (create_notification repo queue parse_address fresh now i s)
  create_outcome (r, q) valid = elim (Result-cases (build_notification parse_address fresh i)) [
    | inl (e, bad) ↦
        rw (Create.create-eq_refused repo queue parse_address fresh now i e (r, q) bad)
          (inl (valid, (λ j. refl), refl))
    | inr (n, built) ↦ elim (Ensures-cases (repo.save n r) (L.save_law r n valid)) [
      | inr (e, r', bad, (valid', same)) ↦
          rw (Create.create-eq_unsaved repo queue parse_address fresh now i n e r r' q built bad)
            (inl (valid', same, refl))
      | inl (c, r', saved, (valid', added)) ↦
          published n c r r' q (queue.publish now c q) refl built saved valid' added
    ]
  ]

  Stored-moves : (r r' : R) (c : Notification) → Stored r r' c → AllMove (L.view r) (L.view r')
  Stored-moves r r' c (n, _, built, added) j = elim (ℕ_discrete j c.id) [
    | no ne ↦ Moves.stays (added.others j ne)
    | yes here ↦
        rw here (Moves.starts c added.fresh added.after (added.saved.status ∙ built.status))
  ]

  outcome_moves :
      (s : R × Q) (x : Result Notification × (R × Q))
      → CreateOutcome s x
      → L.Valid x.1.0 × AllMove (L.view s.0) (L.view x.1.0)
  outcome_moves (r, q) (ok c, (r', q')) (stored, _) = (stored.1, Stored-moves r r' c stored)
  outcome_moves (r, q) (err e, (r', q')) (inl (valid', same, _)) =
      (valid', λ j. Moves.stays (same j))
  outcome_moves (r, q) (err e, (r', q')) (inr (c, _, stored, _)) =
      (stored.1, Stored-moves r r' c stored)

  -- Each stored notification stays as it is; a new one is scheduled.
  pub create_moves :
      (s : R × Q)
      → L.Valid s.0
      → let s' = (create_notification repo queue parse_address fresh now i s).1 in
        L.Valid s'.0 × AllMove (L.view s.0) (L.view s'.0)
  create_moves s valid =
      outcome_moves s (create_notification repo queue parse_address fresh now i s)
        (create_outcome s valid)

  -- Over a repository that keeps its contract, where the notification is saved but the queue
  -- refuses it, the caller gets an error and the notification stays stored as scheduled.
  publish_failure_orphans :
      (n c : Notification) (e : Error) (r r' : R) (q q' : Q)
      → L.Valid r
      → build_notification parse_address fresh i ≡ ok n
      → repo.save n r ≡ (ok c, r')
      → queue.publish now c q ≡ (err e, q')
      → let (x, s) = create_notification repo queue parse_address fresh now i (r, q) in
        (x ≡ err (wrap "failed to schedule notification" e))
        × (L.view s.0 c.id ≡ some c)
        × (c.status ≡ status_scheduled)
  publish_failure_orphans n c e r r' q q' valid built saved bad =
      let (_, added) = (rw saved at (L.save_law r n valid)) in
      rw
        (Create.create-eq_unpublished repo queue parse_address fresh now i n c e r r' q q' built
          saved bad)
        (refl, added.after, added.saved.status ∙ (build-Built parse_address fresh i n built).status)
