-- ===== src/Tests/Stacked.antt =====
-- An example for Stack, over the table, a key-value server and the codec of one notification.
use delayed_notifier.Prelude.{◌≡◌, refl, List, [], none, some}
use delayed_notifier.Prelude.Int.{pos}
use delayed_notifier.Domain.Status.{IsFinal, IsFinal-ne-scheduled}
use delayed_notifier.Postgres.Sql.{Database}
use delayed_notifier.Postgres.Mapping.{domain_model}
use delayed_notifier.Postgres.Views.{view}
use delayed_notifier.Redis.Client.{Keys}
use delayed_notifier.Redis.Coherence.{Coherent}
use delayed_notifier.Consumer.Handler.{World, handle_message}
use delayed_notifier.Stack.{stack_cache, repository, stack_forever}
use delayed_notifier.System.{Call, Step, Reach}
use delayed_notifier.Tests.Data.{parse_address, note, db, queue, notifier}
use delayed_notifier.Domain.Model.{Notification}
use delayed_notifier.Tests.Services.{
  unary, unary-Injective, client, client_lawful, third_json, third_RoundTrips,
}

abbrev before : World (Database × Keys) (List Notification) (List Notification)
before = record { repo = (db, λ _. none); queue = []; notifier = []; settled = [] }

-- A worker has handled the message of notification 3.
abbrev after : World (Database × Keys) (List Notification) (List Notification)
after =
    handle_message third_json (repository third_json unary client) queue notifier (pos 9) "3" before

empty_Coherent : Coherent (view db) (
    (stack_cache third_json unary client client_lawful third_RoundTrips unary-Injective
        (λ key c. refl)).entry
      (λ _. none))
empty_Coherent id n h = cc

view_4 : view db 4 ≡ some (note 4 "sent")
unfolding domain_model
view_4 = refl

stack_forever_example : view after.repo.0 4 ≡ some (note 4 "sent")
stack_forever_example =
    stack_forever third_json unary client client_lawful third_RoundTrips unary-Injective
      (λ key c. refl) queue notifier parse_address 4 (note 4 "sent") empty_Coherent view_4
      (IsFinal-ne-scheduled (IsFinal.sent refl))
      (Reach.next Reach.here (Step.calls (Call.handles before (pos 9) "3")))
