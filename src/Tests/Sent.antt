-- ===== src/Tests/Sent.antt =====
-- Examples for Sends: notification 3 is scheduled and 4 is sent, and the message of 3 comes twice.
use delayed_notifier.Prelude.{suc, ◌+◌, ◌≤◌, ◌≡◌, refl, List, [], some}
use delayed_notifier.Prelude.Int.{pos}
use delayed_notifier.Domain.Model.{Notification}
use delayed_notifier.Domain.Status.{IsFinal, IsFinal-ne-scheduled}
use delayed_notifier.Postgres.Sql.{Database}
use delayed_notifier.Postgres.Mapping.{domain_model}
use delayed_notifier.Consumer.Handler.{World, handle_message}
use delayed_notifier.System.{Call}
use delayed_notifier.Sends.{Log, logged, sends, successes, requeues, Watched, here, calls}
use delayed_notifier.Sends.Count.{never_sent_after, sent_once}
use delayed_notifier.Tests.Data.{repo, law, queue, notifier, json, parse_address, note, db}

abbrev W : Type 0
W = World Database (List Notification) (Log × List Notification)

abbrev start : W
start = record { repo = db; queue = []; notifier = ([], []); settled = [] }

abbrev once : W
once = handle_message json repo queue (logged notifier) (pos 9) "3" start

abbrev twice : W
twice = handle_message json repo queue (logged notifier) (pos 10) "3" once

abbrev after : W
after = handle_message json repo queue (logged notifier) (pos 11) "4" twice

run : Watched json repo queue notifier parse_address start after
run =
    calls (calls (calls here (Call.handles start (pos 9) "3")) (Call.handles once (pos 10) "3"))
      (Call.handles twice (pos 11) "4")

view_4 : law.view start.repo 4 ≡ some (note 4 "sent")
unfolding domain_model
view_4 = refl

never_sent_after_example : sends 4 after ≡ sends 4 start
never_sent_after_example =
    never_sent_after json repo queue notifier parse_address law 4 (note 4 "sent") tt view_4
      (IsFinal-ne-scheduled (IsFinal.sent refl)) run

sent_once_example : successes 3 after + requeues start ≤ suc (successes 3 start + requeues after)
sent_once_example = sent_once json repo queue notifier parse_address law 3 tt run
