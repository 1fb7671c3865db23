-- ===== src/Service/Cancel.antt =====
-- `CancelNotification` of internal/service/notification_service.go, over a repository that keeps its
-- contract.
use Prim.Native.String.{◌++◌}
use delayed_notifier.Prelude.{
  ◌≡◌, ◌≢◌, refl, true, false, Bool-cases, inl, inr, ⊤, ◌∙◌, sym, some, none, str_eq, arith, eq_iff,
  ◌⊎◌,
}
use delayed_notifier.Go.Errors.{Error, text, errors_is, record_not_found, Result, ok, err}
use delayed_notifier.Domain.Model.{Uuid, Notification, status_scheduled}
use delayed_notifier.Domain.Ports.{NotificationRepository, NotificationQueue}
use delayed_notifier.Domain.Contract.{
  Same, Changed, Cancelled, Refused, Ensures, Ensures-cases, LawfulRepository,
}
use delayed_notifier.Domain.Status.{Moves, AllMove, AllMove-Same, delete_moves, status_of}
use delayed_notifier.Service.{cancel_notification}

module _ {R Q : Type 0} (repo : NotificationRepository R) (queue : NotificationQueue Q) where
  pub cancel-eq_unread :
      (id : Uuid) (r s : R) (q : Q) (e : Error)
      → repo.get_by_id id r ≡ (err e, s)
      → cancel_notification repo queue id (r, q) ≡ (err e, (s, q))
  unfolding cancel_notification
  cancel-eq_unread id r s q e bad = ground arith

  cancel-eq_final :
      (id : Uuid) (r s : R) (q : Q) (n : Notification)
      → repo.get_by_id id r ≡ (ok n, s)
      → str_eq n.status status_scheduled ≡ false
      → cancel_notification repo queue id (r, q)
        ≡ (err (text ("cannot cancel notification with status: " ++ n.status)), (s, q))
  unfolding cancel_notification
  cancel-eq_final id r s q n good final = ground arith

  cancel-eq_delete :
      (id : Uuid) (r s : R) (q : Q) (n : Notification)
      → repo.get_by_id id r ≡ (ok n, s)
      → str_eq n.status status_scheduled ≡ true
      → cancel_notification repo queue id (r, q) ≡ ((repo.delete id s).0, ((repo.delete id s).1, q))
  unfolding cancel_notification
  cancel-eq_delete id r s q n good scheduled = ground arith

  module _ (L : LawfulRepository repo) where
    -- Each stored notification stays as it is, or goes from `scheduled` to a final status.
    pub cancel_moves :
        (id : Uuid) (s : R × Q)
        → L.Valid s.0
        → let s' = (cancel_notification repo queue id s).1 in
          L.Valid s'.0 × AllMove (L.view s.0) (L.view s'.0)
    cancel_moves id (r, q) valid =
        elim (Ensures-cases (repo.get_by_id id r) (L.get_law r id valid)) [
          | inr (e, s, bad, (valid', refused)) ↦
              rw (cancel-eq_unread id r s q e bad) (valid', λ j. Moves.stays (refused.same j))
          | inl (n, s, good, (valid', read)) ↦
              elim (Bool-cases (str_eq n.status status_scheduled)) [
                | inr final ↦
                    rw (cancel-eq_final id r s q n good final)
                      (valid', λ j. Moves.stays (read.same j))
                | inl scheduled ↦
                    let (v, moves) =
                      delete_moves repo L s id n valid' (read.same id ∙ read.found)
                        ((eq_iff n.status status_scheduled).0 scheduled) in
                    rw (cancel-eq_delete id r s q n good scheduled)
                      (v, AllMove-Same read.same moves)
              ]
        ]

    -- What `CancelNotification` has done, by how it ended.
    abbrev pub CancelOutcome : Uuid → R × Q → Result ⊤ × (R × Q) → Type 0
    CancelOutcome id s (ok _, s') =
        Changed (λ old new. (old.status ≡ status_scheduled) × Cancelled old new) id (L.view s.0)
          (L.view s'.0)
    CancelOutcome id s (err e, s') =
        Same (L.view s.0) (L.view s'.0)
        × ((errors_is e record_not_found ≡ false) ⊎ (L.view s.0 id ≡ none))

    delete_outcome :
        (id : Uuid) (r s : R) (q : Q) (n : Notification) (x : Result ⊤ × R)
        → Same (L.view r) (L.view s)
        → L.view r id ≡ some n
        → n.status ≡ status_scheduled
        → Ensures
            (λ _ s'. L.Valid s' × Changed Cancelled id (L.view s) (L.view s'))
            (λ e s'. L.Valid s' × Refused id (L.view s) (L.view s') e)
            x
        → CancelOutcome id (r, q) (x.0, (x.1, q))
    delete_outcome id r s q n (err e, s') same was scheduled (_, refused) = (
      (λ j. refused.same j ∙ same j),
      elim refused.missing [ inl f ↦ inl f | inr m ↦ inr (sym (same id) ∙ m) ],
    )
    delete_outcome id r s q n (ok u, s') same was scheduled (_, c) = record {
      old = c.old;
      new = c.new;
      before = sym (same id) ∙ c.before;
      after = c.after;
      related = (status_of was (sym (same id) ∙ c.before) ∙ scheduled, c.related);
      others = λ j ne. c.others j ne ∙ same j;
    }

    -- Over a repository that keeps its contract, a cancellation that succeeded has turned a
    -- scheduled notification, and no other entry, into a cancelled one with its content; one that
    -- failed has changed nothing, and says that the record is not found only where there is none.
    pub cancel_outcome :
        (id : Uuid) (s : R × Q)
        → L.Valid s.0
        → CancelOutcome id s (cancel_notification repo queue id s)
    cancel_outcome id (r, q) valid =
        elim (Ensures-cases (repo.get_by_id id r) (L.get_law r id valid)) [
          | inr (e, s, bad, (_, refused)) ↦
              rw (cancel-eq_unread id r s q e bad) (refused.same, refused.missing)
          | inl (n, s, good, (valid', read)) ↦
              elim (Bool-cases (str_eq n.status status_scheduled)) [
                | inr final ↦ rw (cancel-eq_final id r s q n good final) (read.same, inl refl)
                | inl scheduled ↦ rw (cancel-eq_delete id r s q n good scheduled) (
                    delete_outcome id r s q n (repo.delete id s) read.same read.found
                      ((eq_iff n.status status_scheduled).0 scheduled) (L.delete_law s id valid'))
              ]
        ]

    -- A notification with another status than `scheduled` is not cancelled: the call fails and nothing
    -- changes.
    pub cancel_refuses_final :
        (id : Uuid) (n : Notification) (s : R × Q)
        → L.Valid s.0
        → L.view s.0 id ≡ some n
        → n.status ≢ status_scheduled
        → let (r, s') = cancel_notification repo queue id s in
          (r ≢ ok tt) × Same (L.view s.0) (L.view s'.0)
    cancel_refuses_final id n s valid was final =
        go (cancel_notification repo queue id s) (cancel_outcome id s valid)
      where
        go :
            (x : Result ⊤ × (R × Q))
            → CancelOutcome id s x
            → (x.0 ≢ ok tt) × Same (L.view s.0) (L.view x.1.0)
        go (ok u, s') c = absurd (final (status_of c.before was ∙ c.related.0))
        go (err e, s') c = ((λ h. cc), c.0)
