-- ===== src/Http/Codes.antt =====
-- What the status codes of internal/delivery/http/handlers.go say about the store.
use delayed_notifier.Prelude.{◌≡◌, refl, inl, inr, String, none, some, ⊤, arith, Bool-cases}
use delayed_notifier.Go.Errors.{Result, ok, err, errors_is, error_text, record_not_found}
use delayed_notifier.Domain.Model.{Uuid, Notification, status_scheduled}
use delayed_notifier.Domain.Ports.{NotificationRepository, NotificationQueue}
use delayed_notifier.Domain.Contract.{
  View, Same, Changed, Cancelled, Read, Refused, Ensures, LawfulRepository,
}
use delayed_notifier.Service
use delayed_notifier.Service.Cancel.{CancelOutcome, cancel_outcome}
use delayed_notifier.Http.{
  Reply, Body, no_body, error_reply, to_notification_response, get_reply, cancel_reply,
  get_notification_by_id, cancel_notification,
}

module _ {R Q : Type 0} (repo : NotificationRepository R) (queue : NotificationQueue Q)
    (L : LawfulRepository repo) where
  abbrev pub Views : R × Q → View
  Views s = L.view s.0

  -- What a DELETE has done, by its reply.
  pub data CancelReply (id : Uuid) (s : R × Q) (x : Reply × (R × Q)) : Type 0 where
    done :
        x.0 ≡ record { code = 204; body = no_body }
        → Changed
            (λ old new. (old.status ≡ status_scheduled) × Cancelled old new)
            id
            (Views s)
            (Views x.1)
        → CancelReply id s x
    missing :
        (message : String)
        → x.0 ≡ error_reply 404 message
        → Views s id ≡ none
        → Same (Views s) (Views x.1)
        → CancelReply id s x
    broken :
        x.0 ≡ error_reply 500 "failed to cancel notification"
        → Same (Views s) (Views x.1)
        → CancelReply id s x

  cancel_replied :
      (id : Uuid) (s : R × Q) (x : Result ⊤ × (R × Q))
      → CancelOutcome repo queue L id s x
      → CancelReply id s (cancel_reply x.0, x.1)
  unfolding cancel_reply
  cancel_replied id s (ok u, s') changed = CancelReply.done refl changed
  cancel_replied id s (err e, s') (same, inl known) = CancelReply.broken (rw known) same
  cancel_replied id s (err e, s') (same, inr absent) =
      elim (Bool-cases (errors_is e record_not_found)) [
        | inl unknown ↦ CancelReply.missing (error_text e) (rw unknown) absent same
        | inr known ↦ CancelReply.broken (rw known) same
      ]

  -- Over a repository that keeps its contract, DELETE answers 204 only where it turned a scheduled
  -- notification into a cancelled one, 404 only where there is none, and else 500; with 404 and 500
  -- nothing has changed.
  pub cancel_codes :
      (id : Uuid) (s : R × Q)
      → L.Valid s.0
      → CancelReply id s (cancel_notification repo queue (ok id) s)
  unfolding cancel_notification
  cancel_codes id s valid =
      cancel_replied id s (Service.cancel_notification repo queue id s)
        (cancel_outcome repo queue L id s valid)

  pub data GetReply (id : Uuid) (s : R × Q) (x : Reply × (R × Q)) : Type 0 where
    found :
        (n : Notification)
        → Views s id ≡ some n
        → x.0 ≡ record { code = 200; body = Body.notification (to_notification_response n) }
        → GetReply id s x
    missing :
        (message : String) → Views s id ≡ none → x.0 ≡ error_reply 404 message → GetReply id s x
    broken : x.0 ≡ error_reply 500 "failed to retrieve notification" → GetReply id s x

  get_replied :
      (id : Uuid) (s : R × Q) (x : Result Notification × R)
      → Ensures
          (λ n s'. L.Valid s' × Read id (Views s) (L.view s') n)
          (λ e s'. L.Valid s' × Refused id (Views s) (L.view s') e)
          x
      → GetReply id s (get_reply x.0, (x.1, s.1)) × Same (Views s) (L.view x.1)
  unfolding get_reply
  get_replied id s (ok n, s') (_, read) = (GetReply.found n read.found refl, read.same)
  get_replied id s (err e, s') (_, refused) = (
    elim (Bool-cases (errors_is e record_not_found)) [
      | inr known ↦ GetReply.broken (rw known)
      | inl unknown ↦ elim refused.missing [
        | inl known ↦ absurd (ground arith)
        | inr absent ↦ GetReply.missing (error_text e) absent (rw unknown)
      ]
    ],
    refused.same,
  )

  -- Over a repository that keeps its contract, GET answers 200 with the stored notification, 404
  -- only where there is none, or 500, and changes nothing.
  pub get_codes :
      (id : Uuid) (s : R × Q)
      → L.Valid s.0
      → let x = get_notification_by_id repo queue (ok id) s in
        GetReply id s x × Same (Views s) (Views x.1)
  unfolding get_notification_by_id Service.get_notification_by_id
  get_codes id s valid = get_replied id s (repo.get_by_id id s.0) (L.get_law s.0 id valid)
