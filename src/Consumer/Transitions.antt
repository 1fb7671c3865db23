-- ===== src/Consumer/Transitions.antt =====
-- What a worker may do to the stored notifications, over a repository that keeps its contract.
use delayed_notifier.Prelude.{◌≡◌, refl, String, Bool-cases, inl, inr, ⊤, ◌∙◌, some, str_eq, eq_iff}
use delayed_notifier.Prelude.Int.{pos, ◌+ℤ◌, leb_ℤ, to_int64}
use delayed_notifier.Go.Errors.{Result, ok, err, Result-cases}
use delayed_notifier.Go.Clock.{Time}
use delayed_notifier.Domain.Model.{Notification, status_scheduled}
use delayed_notifier.Domain.Ports.{NotificationRepository, NotificationQueue, Notifier}
use delayed_notifier.Domain.Json.{JsonCodec}
use delayed_notifier.Domain.Contract.{Ensures, Ensures-cases, LawfulRepository}
use delayed_notifier.Domain.Status.{IsFinal, Moves, AllMove, AllMove-Same, update_moves}
use delayed_notifier.Domain.Status
use delayed_notifier.Service.{get_notification_by_id}
use delayed_notifier.Consumer.Ending.{repo-update, repo-publish}
use delayed_notifier.Consumer.Handler.{
  World, max_retries, handle_send_error, after_send, process, check_status, handle_message,
}

module _ {R Q N : Type 0} (json : JsonCodec) (repo : NotificationRepository R)
    (queue : NotificationQueue Q) (notifier : Notifier N) where
  module _ (L : LawfulRepository repo) where
    -- The state is valid and every entry has moved, or stayed.
    abbrev Good : R → R → Type 0
    Good s s' = L.Valid s' × AllMove (L.view s) (L.view s')

    send_error-Good :
        (n old : Notification) (w : World R Q N)
        → L.Valid w.repo
        → L.view w.repo n.id ≡ some old
        → old.status ≡ status_scheduled
        → Good w.repo (handle_send_error json repo queue notifier n w).repo
    unfolding handle_send_error
    send_error-Good n old w valid was scheduled =
        elim (Bool-cases (leb_ℤ max_retries (to_int64 (n.attempts +ℤ pos 1)))) [
          | inl last ↦ rw last (
              rw (repo-update json repo queue notifier _ w)
                (update_moves repo L w.repo _ old valid was scheduled (Status.IsFinal.failed refl)))
          | inr more ↦
              rw more (
                rw (repo-publish json repo queue notifier _ w)
                  (valid, λ j. Status.Moves.stays refl))
        ]

    after_send-Good :
        (now : Time) (n old : Notification) (w : World R Q N) (x : Result ⊤ × N)
        → L.Valid w.repo
        → L.view w.repo n.id ≡ some old
        → old.status ≡ status_scheduled
        → Good w.repo (after_send json repo queue notifier now n w x).repo
    after_send-Good now n old w (err e, s) valid was scheduled =
        send_error-Good n old (record w { notifier = s }) valid was scheduled
    after_send-Good now n old w (ok u, s) valid was scheduled =
        rw (repo-update json repo queue notifier _ (record w { notifier = s }))
          (update_moves repo L w.repo _ old valid was scheduled (Status.IsFinal.sent refl))

    check-Good :
        (now : Time) (n : Notification) (w : World R Q N) (x : Result Notification × R)
        → Ensures (λ m s. L.Valid s × (L.view s n.id ≡ some m)) (λ _ s. L.Valid s) x
        → Good x.1 (check_status json repo queue notifier now n (x.0, record w { repo = x.1 })).repo
    unfolding process
    check-Good now n w (err e, s) valid = (valid, λ j. Status.Moves.stays refl)
    check-Good now n w (ok m, s) (valid, was) =
        elim (Bool-cases (str_eq m.status status_scheduled)) [
          | inr skipped ↦ rw skipped (valid, λ j. Status.Moves.stays refl)
          | inl scheduled ↦ rw scheduled (
              after_send-Good now n m (record w { repo = s }) (notifier.send n w.notifier) valid was
                ((eq_iff m.status status_scheduled).0 scheduled))
        ]

    -- Whatever the message, the queue and the notifier do: each stored notification stays as it is, or
    -- goes from `scheduled` to a final status with its content kept.
    pub handle_message_moves :
        (now : Time) (body : String) (w : World R Q N)
        → L.Valid w.repo
        → let w' = handle_message json repo queue notifier now body w in
          L.Valid w'.repo × AllMove (L.view w.repo) (L.view w'.repo)
    unfolding handle_message get_notification_by_id
    handle_message_moves now body w valid = elim (Result-cases (json.unmarshal body)) [
      | inl (e, garbage) ↦ rw garbage (valid, λ j. Status.Moves.stays refl)
      | inr (n, decoded) ↦
          rw decoded
            (elim (Ensures-cases (repo.get_by_id n.id w.repo) (L.get_law w.repo n.id valid)) [
              | inr (e, s, bad, (valid', refused)) ↦
                  rw bad (valid', λ j. Status.Moves.stays (refused.same j))
              | inl (m, s, good, (valid', read)) ↦
                  let (v, moves) =
                    check-Good now n w (ok m, s) (valid', read.same n.id ∙ read.found) in
                  rw good (v, AllMove-Same read.same moves)
            ])
    ]
