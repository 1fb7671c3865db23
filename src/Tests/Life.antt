-- ===== src/Tests/Life.antt =====
-- Examples for System and Delivery.
use delayed_notifier.Prelude.{◌≡◌, ◌≢◌, arith, eq_iff, refl, List, [], none, some, String}
use delayed_notifier.Prelude.Int.{pos, to_int16}
use delayed_notifier.Go.Errors.{Result, ok}
use delayed_notifier.Domain.Model.{
  channel_email, channel_telegram, Notification, Fresh, new_email_notification,
}
use delayed_notifier.Domain.Status.{IsFinal, IsFinal-ne-scheduled}
use delayed_notifier.Postgres.Sql.{Database, create_notification}
use delayed_notifier.Postgres.Mapping.{domain_model, to_domain_model, to_db_create_params}
use delayed_notifier.Postgres.Repository.{save}
use delayed_notifier.Service
use delayed_notifier.Service.{CreateInput, cancel_if_scheduled}
use delayed_notifier.Consumer.Handler.{World, service, after_send, handle_message}
use delayed_notifier.Interleaved.{Part, Interleaves, Finished, never_rescheduled}
use delayed_notifier.System.{Call, Step, Reach, final_forever}
use delayed_notifier.Config.{NotifiersConfig}
use delayed_notifier.Notifiers.Channels.{new_email_notifier, Outside}
use delayed_notifier.Notifiers.Dispatcher.{Kind, assign, new_dispatcher}
use delayed_notifier.Delivery.{Delivers, created-Delivers}
use delayed_notifier.Tests.Data.{repo, law, queue, notifier, json, parse_address, world, note, db}

-- A worker handles the message of notification 3, then the API cancels 4.
abbrev handled : World Database (List Notification) (List Notification)
handled = handle_message json repo queue notifier (pos 9) "3" world

abbrev after : World Database (List Notification) (List Notification)
after = (service (Service.cancel_notification repo queue 4) handled).1

run : Reach json repo queue notifier parse_address world after
run =
    Reach.next (Reach.next Reach.here (Step.calls (Call.handles world (pos 9) "3")))
      (Step.calls (Call.cancels handled 4))

view_4 : law.view world.repo 4 ≡ some (note 4 "sent")
unfolding domain_model
view_4 = refl

view_3 : law.view world.repo 3 ≡ some (note 3 "scheduled")
unfolding domain_model
view_3 = refl

final_forever_example : law.view after.repo 4 ≡ some (note 4 "sent")
final_forever_example =
    final_forever json repo queue notifier parse_address law 4 (note 4 "sent") tt view_4
      (IsFinal-ne-scheduled (IsFinal.sent refl)) run

abbrev request : CreateInput
request = record {
  recipient = "a@b.org";
  channel = "email";
  subject = "subject";
  message = "text";
  scheduled_at = pos 5000000000;
  author_id = none;
}

abbrev fresh : Fresh
fresh = record { id = 77; created = pos 1; updated = pos 1 }

-- What the database makes of the request.
abbrev stored : Notification
stored = record (note 0 "scheduled") { created_at = pos 2; updated_at = pos 2 }

abbrev out : Outside (List String)
out = record { log = λ _ s. s; dial_and_send = λ _ _ s. (ok tt, s); bot_send = λ _ _ s. (ok tt, s) }

abbrev production : NotifiersConfig
production = record {
  mode = "production";
  email = record { host = "mail"; port = pos 25; username = ""; password = ""; from = "n@b.org" };
  telegram = record { bot_token = "token" };
}

abbrev production_map : List (String × Kind)
production_map =
    assign channel_telegram (Kind.chatting (record { bot = "token" }))
      (assign channel_email (Kind.mailing (new_email_notifier production.email)) [])

production_made : new_dispatcher (λ _. ok tt) production ≡ ok production_map
unfolding new_dispatcher
production_made = refl

has_host : ◌≢◌ {A = String} "mail" ""
has_host h = ground (arith, eq_iff "mail" "")

has_token : ◌≢◌ {A = String} "token" ""
has_token h = ground (arith, eq_iff "token" "")

abbrev request_run : Result Notification × (Database × List Notification)
request_run = Service.create_notification repo queue parse_address fresh (pos 3) request (db, [])

request_ok : request_run ≡ (ok stored, request_run.1)
unfolding Service.create_notification Service.build_notification new_email_notification save
    create_notification to_db_create_params to_domain_model domain_model to_int16
request_ok = refl

created-Delivers_example : Delivers out production production_map request stored []
created-Delivers_example =
    created-Delivers repo queue law parse_address fresh (pos 3) request out (λ _. ok tt) production
      production_map db request_run.1.0 [] request_run.1.1 stored [] refl has_host has_token refl
      production_made tt request_ok

-- The API read notification 4 while it was scheduled, and goes on after a worker has sent it; another
-- worker goes on from a send of 3.
abbrev cancelled_late : World Database (List Notification) (List Notification)
cancelled_late = (service (cancel_if_scheduled repo queue 4 (note 4 "scheduled")) world).1

mixed : Interleaves json repo queue notifier parse_address world (
    after_send json repo queue notifier
      (pos 9)
      (note 3 "scheduled")
      cancelled_late
      (ok tt, cancelled_late.notifier))
mixed =
    Interleaves.next (Interleaves.next Interleaves.here (Part.cancels world 4 (note 4 "scheduled")))
      (Part.works cancelled_late (pos 9) (note 3 "scheduled") (ok tt))

never_rescheduled_example :
    Finished
      (law.view
        (after_send json repo queue notifier
          (pos 9)
          (note 3 "scheduled")
          cancelled_late
          (ok tt, cancelled_late.notifier)).repo
        4)
      (note 4 "sent")
never_rescheduled_example =
    never_rescheduled json repo queue notifier parse_address law 4 (note 4 "sent") tt view_4
      (IsFinal-ne-scheduled (IsFinal.sent refl)) mixed
