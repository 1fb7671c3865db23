-- ===== src/Tests/Storage.antt =====
-- Examples for Postgres and Redis.
use delayed_notifier.Prelude.{sym, ◌≡◌, ◌≢◌, refl, none, some}
use delayed_notifier.Go.Errors.{ok, foreign}
use delayed_notifier.Domain.Status.{IsFinal, IsFinal-ne-scheduled}
use delayed_notifier.Domain.Contract.{
  View, Same, Updated, Cancelled, Changed, Refused, Read, Added, Ensures,
}
use delayed_notifier.Postgres.Sql.{queries, update_notification_status}
use delayed_notifier.Postgres.Rows.{not_null}
use delayed_notifier.Postgres.Mapping.{to_db_update_params}
use delayed_notifier.Postgres.Repository
use delayed_notifier.Postgres.Views.{view}
use delayed_notifier.Postgres.Lawful.{postgres_contract}
use delayed_notifier.Postgres.Invariant.{TableValid, Statement, run, run-TableValid}
use delayed_notifier.Redis.Cached
use delayed_notifier.Redis.Lawful.{Reliable, Consistent, stored, cached_contract}
use delayed_notifier.Redis.Cached.{fill}
use delayed_notifier.Redis.Refill.{refill_stale}
use delayed_notifier.Postgres.Mapping.{domain_model}
use delayed_notifier.Postgres.Rows.{null_text}
use delayed_notifier.Postgres.Scan.{
  scan_null_channel_type, scan_null_notification_status, value_null_channel_type,
  value_null_notification_status,
}
use delayed_notifier.Postgres.Scanned.{scanned_back}
use delayed_notifier.Redis.Stale.{lookup_stale}
use delayed_notifier.Tests.Data.{repo, law, note, db, slot, slot_lawful, stuck}

postgres_contract_example :
    Ensures
      (λ c s. Added (note 9 "scheduled") (view db) (view s) c)
      (λ _ s. Same (view db) (view s))
      (Repository.save queries (note 9 "scheduled") db)
    × Ensures
        (λ m s. Read 3 (view db) (view s) m)
        (λ e s. Refused 3 (view db) (view s) e)
        (Repository.get_by_id queries 3 db)
    × Ensures
        (λ _ s. Changed (λ old m. Updated old (note 9 "scheduled") m) 9 (view db) (view s))
        (λ e s. Refused 9 (view db) (view s) e)
        (Repository.update queries (note 9 "scheduled") db)
    × Ensures
        (λ _ s. Changed Cancelled 3 (view db) (view s))
        (λ e s. Refused 3 (view db) (view s) e)
        (Repository.delete queries 3 db)
postgres_contract_example = postgres_contract db (note 9 "scheduled") 3

table_valid : TableValid db.rows
table_valid = (
  record { has_id = refl; status = refl; recipient = refl },
  refl,
  (record { has_id = refl; status = refl; recipient = refl }, refl, tt),
)

run-TableValid_example : TableValid (run (Statement.cancel (not_null 3)) db).rows
run-TableValid_example = run-TableValid (Statement.cancel (not_null 3)) db table_valid

-- The cache is empty, so it holds nothing stale.
empty_Consistent : Consistent law slot_lawful (db, none)
empty_Consistent = (tt, λ id n h. cc)

slot-Reliable : Reliable slot
slot-Reliable id none = refl
slot-Reliable id (some n) = refl

abbrev stored_0 : View
stored_0 = stored law slot_lawful (db, none)

cached_contract_example :
    Ensures
      (λ c s.
        Consistent law slot_lawful s
        × Added (note 9 "scheduled") stored_0 (stored law slot_lawful s) c)
      (λ _ s. Consistent law slot_lawful s × Same stored_0 (stored law slot_lawful s))
      (Cached.save repo slot (note 9 "scheduled") (db, none))
    × Ensures
        (λ m s. Consistent law slot_lawful s × Read 3 stored_0 (stored law slot_lawful s) m)
        (λ e s. Consistent law slot_lawful s × Refused 3 stored_0 (stored law slot_lawful s) e)
        (Cached.get_by_id repo slot 3 (db, none))
    × Ensures
        (λ _ s.
          Consistent law slot_lawful s
          × Changed
              (λ old m. Updated old (note 9 "scheduled") m)
              9
              stored_0
              (stored law slot_lawful s))
        (λ e s. Consistent law slot_lawful s × Refused 9 stored_0 (stored law slot_lawful s) e)
        (Cached.update repo slot (note 9 "scheduled") (db, none))
    × Ensures
        (λ _ s.
          Consistent law slot_lawful s × Changed Cancelled 3 stored_0 (stored law slot_lawful s))
        (λ e s. Consistent law slot_lawful s × Refused 3 stored_0 (stored law slot_lawful s) e)
        (Cached.delete repo slot 3 (db, none))
cached_contract_example =
    cached_contract law slot_lawful slot-Reliable (db, none) (note 9 "scheduled") 3 empty_Consistent

update_3 : repo.update (note 3 "sent") db ≡ (ok tt, (repo.update (note 3 "sent") db).1)
unfolding Repository.update update_notification_status to_db_update_params
update_3 = refl

-- Notification 3 is cached as scheduled when it is stored as sent.
lookup_stale_example :
    let (r, s) = Cached.update repo stuck (note 3 "sent") (db, some (note 3 "scheduled")) in
    (r ≡ ok tt)
    × ((Cached.get_by_id repo stuck 3 s).0 ≡ ok (note 3 "scheduled"))
    × (law.view s.0 3 ≢ some (note 3 "scheduled"))
lookup_stale_example =
    lookup_stale repo stuck law (note 3 "sent") (note 3 "scheduled") (foreign "timeout") db
      (repo.update (note 3 "sent") db).1 (some (note 3 "scheduled")) (some (note 3 "scheduled"))
      (some (note 3 "scheduled")) tt update_3 refl refl
      (λ h. IsFinal-ne-scheduled (IsFinal.sent refl) (sym h))

view_3 : law.view db 3 ≡ some (note 3 "scheduled")
unfolding domain_model
view_3 = refl

-- No call fails: a lookup of notification 3 read it before the update, and fills the cache after.
refill_stale_example :
    let (r, s) = Cached.update repo slot (note 3 "sent") (db, none) in
    let (r', s') = fill repo slot (note 3 "scheduled") s in
    (r ≡ ok tt)
    × (r' ≡ ok (note 3 "scheduled"))
    × ((Cached.get_by_id repo slot 3 s').0 ≡ ok (note 3 "scheduled"))
    × (law.view s'.0 3 ≢ some (note 3 "scheduled"))
refill_stale_example =
    refill_stale repo slot law (note 3 "sent") (note 3 "scheduled") db
      (repo.update (note 3 "sent") db).1 none none (some (note 3 "scheduled"))
      (some (note 3 "scheduled")) tt view_3 update_3
      (λ h. IsFinal-ne-scheduled (IsFinal.sent refl) (sym h)) refl refl refl

scanned_back_example :
    (scan_null_channel_type (value_null_channel_type (not_null "email")) null_text
      ≡ (ok tt, not_null "email"))
    × (scan_null_notification_status (value_null_notification_status null_text) (not_null "sent")
        ≡ (ok tt, null_text))
scanned_back_example = scanned_back (not_null "email") null_text null_text (not_null "sent")
