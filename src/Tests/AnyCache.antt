-- ===== src/Tests/AnyCache.antt =====
-- Examples for Stack.Parts: the cache still holds notification 4 as scheduled, though it was sent, and
-- cannot be reached to delete; a cancellation reads it there and goes on after the cache has turned.
use delayed_notifier.Prelude.{◌≡◌, refl, List, [], Option, none, some}
use delayed_notifier.Domain.Model.{Notification}
use delayed_notifier.Domain.Status.{IsFinal, IsFinal-ne-scheduled}
use delayed_notifier.Domain.Ports.{NotificationRepository}
use delayed_notifier.Postgres.Sql.{Database}
use delayed_notifier.Postgres.Mapping.{domain_model}
use delayed_notifier.Redis.Cached.{cached_notification_repository}
use delayed_notifier.Service.{cancel_if_scheduled}
use delayed_notifier.Consumer.Handler.{World, service}
use delayed_notifier.Interleaved.{Part, Interleaves, Finished}
use delayed_notifier.Stack.Table.{table}
use delayed_notifier.Stack.Parts.{CachedPart, CachedRun, cached_refines, any_cache}
use delayed_notifier.Tests.Data.{repo, law, queue, notifier, json, parse_address, note, db, stuck}

abbrev cached : NotificationRepository (Database × Option Notification)
cached = cached_notification_repository repo stuck

abbrev W : Type 0
W = World (Database × Option Notification) (List Notification) (List Notification)

abbrev start : W
start = record { repo = (db, some (note 4 "scheduled")); queue = []; notifier = []; settled = [] }

abbrev read : W
read = record start { repo = (cached.get_by_id 4 start.repo).1 }

abbrev turned : W
turned = record read { repo = (read.repo.0, none) }

abbrev after : W
after = (service (cancel_if_scheduled cached queue 4 (note 4 "scheduled")) turned).1

run : CachedRun json repo stuck queue notifier parse_address start after
run =
    CachedRun.next
      (CachedRun.next (CachedRun.next CachedRun.here (CachedPart.part (Part.reads start 4)))
        (CachedPart.cache_turns read none))
      (CachedPart.part (Part.cancels turned 4 (note 4 "scheduled")))

view_4 : law.view db 4 ≡ some (note 4 "sent")
unfolding domain_model
view_4 = refl

cached_refines_example :
    Interleaves json repo queue notifier parse_address (table start) (table after)
cached_refines_example = cached_refines json repo stuck queue notifier parse_address run

any_cache_example : Finished (law.view after.repo.0 4) (note 4 "sent")
any_cache_example =
    any_cache json repo stuck queue notifier parse_address law 4 (note 4 "sent") tt view_4
      (IsFinal-ne-scheduled (IsFinal.sent refl)) run
