-- ===== src/Http/Posted.antt =====
-- What POST of internal/delivery/http/handlers.go answers, over a repository that keeps its contract.
use delayed_notifier.Prelude.{◌≡◌, true, false, String, ⊤}
use delayed_notifier.Go.Errors.{Error, Result, ok, err, errors_is, error_text, duplicate_record}
use delayed_notifier.Go.Clock.{Time}
use delayed_notifier.Domain.Model.{Notification, Fresh}
use delayed_notifier.Domain.Ports.{NotificationRepository, NotificationQueue}
use delayed_notifier.Domain.Contract.{LawfulRepository}
use delayed_notifier.Service
use delayed_notifier.Service.{CreateInput}
use delayed_notifier.Service.Created.{CreateOutcome}
use delayed_notifier.Http.{Reply, Body, error_reply, to_notification_response}

module _ {R Q : Type 0} (repo : NotificationRepository R) (queue : NotificationQueue Q)
    (L : LawfulRepository repo) (parse_address : String → Result ⊤) (fresh : Fresh)
    (now : Time) where
  -- What a POST has done, by its reply.
  pub data PostReply (i : CreateInput) (s : R × Q) (x : Reply × (R × Q)) : Type 0 where
    created :
        (c : Notification)
        → x.0 ≡ record { code = 201; body = Body.notification (to_notification_response c) }
        → CreateOutcome repo queue L parse_address fresh now i s (ok c, x.1)
        → PostReply i s x
    conflict :
        (e : Error)
        → errors_is e duplicate_record ≡ true
        → x.0 ≡ error_reply 409 (error_text e)
        → CreateOutcome repo queue L parse_address fresh now i s (err e, x.1)
        → PostReply i s x
    failed :
        (e : Error)
        → errors_is e duplicate_record ≡ false
        → x.0 ≡ error_reply 500 "failed to create notification"
        → CreateOutcome repo queue L parse_address fresh now i s (err e, x.1)
        → PostReply i s x
