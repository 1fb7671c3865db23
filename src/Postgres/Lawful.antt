-- ===== src/Postgres/Lawful.antt =====
-- The repository of storage/postgres over the table keeps the contract of
-- domain/repository/notification_repo.go.
use delayed_notifier.Prelude.{refl, ⊤, inl, inr, Option-cases, Bool-cases}
use delayed_notifier.Go.Errors.{Result-cases}
use delayed_notifier.Domain.Model.{Uuid, Notification}
use delayed_notifier.Domain.Contract.{
  Ensures-map, Same, Updated, Cancelled, Changed, Refused, Read, Added, Ensures, LawfulRepository,
}
use delayed_notifier.Postgres.Rows.{not_null}
use delayed_notifier.Postgres.Mapping.{domain_model, to_db_create_params}
use delayed_notifier.Postgres.Sql.{
  Database, find_row, queries, update_status, is_notification_status, insert_row, asked,
}
use delayed_notifier.Postgres.Repository.{get_by_id, update, delete, save, notification_repository}
use delayed_notifier.Postgres.Answers.{
  get-eq_found, get-eq_missing, get-eq_failed, not_missing, get_what, update_what, cancel_what,
  update_params, update-eq_found, update-eq_missing, update-eq_unknown, update-eq_failed, cancelled,
  delete-eq_found, delete-eq_missing, delete-eq_failed,
}
use delayed_notifier.Postgres.Insert.{insert_row_law, save-eq_invalid, save-eq_sent, save-eq_failed}
use delayed_notifier.Postgres.Views.{
  view, view_id, found, missing, others, updated, Updated-update_status, Cancelled-cancelled,
  answer_law,
}

-- `GetByID` over the table of the database returns the stored notification and changes nothing;
-- where it fails nothing changes either, and it says that the record is not found only where there
-- is none.
pub postgres_get_law :
    (db : Database) (id : Uuid)
    → Ensures
        (λ n db'. Read id (view db) (view db') n)
        (λ e db'. Refused id (view db) (view db') e)
        (get_by_id queries id db)
postgres_get_law db id = elim (Option-cases (db.failure db.queries)) [
  | inl up ↦ elim (Option-cases (find_row (not_null id) db.rows)) [
    | inl e ↦
        rw (get-eq_missing db id up e)
          (record { same = λ j. refl; missing = inr (missing db id e) })
    | inr (r, e) ↦
        rw (get-eq_found db id r up e) (record { same = λ j. refl; found = found db id r e })
  ]
  | inr (f, down) ↦
      rw (get-eq_failed db id f down)
        (record { same = λ j. refl; missing = inl (not_missing get_what f) })
]

-- `Update` over the table of the database sets the status, the attempts, as an int16, and whether
-- there is a sending time, of the notification with that id, keeps its content and leaves all
-- others; where it fails nothing changes, and it says that the record is not found only where there
-- is none.
pub postgres_update_law :
    (db : Database) (n : Notification)
    → Ensures
        (λ _ db'. Changed (λ old m. Updated old n m) n.id (view db) (view db'))
        (λ e db'. Refused n.id (view db) (view db') e)
        (update queries n db)
postgres_update_law db n = elim (Option-cases (db.failure db.queries)) [
  | inl up ↦ elim (Bool-cases (is_notification_status n.status)) [
    | inl known ↦ elim (Option-cases (find_row (not_null n.id) db.rows)) [
      | inl e ↦
          rw (update-eq_missing db n up known e)
            (record { same = λ j. refl; missing = inr (missing db n.id e) })
      | inr (r, e) ↦
          let f = update_status (update_params n) (asked db) in
          rw (update-eq_found db n r up known e) (record {
            old = domain_model r;
            new = domain_model (f r);
            before = found db n.id r e;
            after = updated db n.id f r (λ x. refl) e;
            related = Updated-update_status (asked db) n r;
            others = others db n.id f (λ x. refl);
          })
    ]
    | inr unknown ↦
        rw (update-eq_unknown db n up unknown) (record { same = λ j. refl; missing = inl refl })
  ]
  | inr (f, down) ↦
      rw (update-eq_failed db n f down)
        (record { same = λ j. refl; missing = inl (not_missing update_what f) })
]

-- `Delete` over the table of the database turns the status of the notification with that id into
-- `cancelled`, keeps its content, attempts and sending time and leaves all others; where it fails
-- nothing changes, and it says that the record is not found only where there is none.
pub postgres_delete_law :
    (db : Database) (id : Uuid)
    → Ensures
        (λ _ db'. Changed Cancelled id (view db) (view db'))
        (λ e db'. Refused id (view db) (view db') e)
        (delete queries id db)
postgres_delete_law db id = elim (Option-cases (db.failure db.queries)) [
  | inl up ↦ elim (Option-cases (find_row (not_null id) db.rows)) [
    | inl e ↦
        rw (delete-eq_missing db id up e)
          (record { same = λ j. refl; missing = inr (missing db id e) })
    | inr (r, e) ↦
        let f = cancelled (asked db) in
        rw (delete-eq_found db id r up e) (record {
          old = domain_model r;
          new = domain_model (f r);
          before = found db id r e;
          after = updated db id f r (λ x. refl) e;
          related = Cancelled-cancelled (asked db) r;
          others = others db id f (λ x. refl);
        })
  ]
  | inr (f, down) ↦
      rw (delete-eq_failed db id f down)
        (record { same = λ j. refl; missing = inl (not_missing cancel_what f) })
]

-- `Save` over the table of the database adds one notification under a new id, with the content, the
-- recipient and the state of its argument, and leaves all others; where it fails, nothing is
-- stored.
pub postgres_save_law :
    (db : Database) (n : Notification)
    → Ensures
        (λ c db'. Added n (view db) (view db') c)
        (λ e db'. Same (view db) (view db'))
        (save queries n db)
postgres_save_law db n = elim (Result-cases (to_db_create_params n)) [
  | inl (e, bad) ↦ rw (save-eq_invalid db n e bad) (λ j. refl)
  | inr (p, good) ↦ elim (Option-cases (db.failure db.queries)) [
    | inr (f, down) ↦ rw (save-eq_failed db n p f good down) (λ j. refl)
    | inl up ↦
        rw (save-eq_sent db n p good up)
          (answer_law (asked db) n p (insert_row p (asked db)) good (insert_row_law (asked db) p))
  ]
]

-- Over the table of the database, `Save` adds one notification under a new id with the content, the
-- recipient and the state of its argument, scheduled for its time but for less than a microsecond;
-- `GetByID` returns the stored notification; `Update` sets the status, the attempts, as an int16,
-- and whether there is a sending time; `Delete` sets the status `cancelled`. Content and all other
-- notifications stay, a call that fails changes nothing, and the last three say that the record is
-- not found only where there is none.
pub postgres_contract :
    (db : Database) (n : Notification) (id : Uuid)
    → Ensures
        (λ c db'. Added n (view db) (view db') c)
        (λ e db'. Same (view db) (view db'))
        (save queries n db)
      × Ensures
          (λ m db'. Read id (view db) (view db') m)
          (λ e db'. Refused id (view db) (view db') e)
          (get_by_id queries id db)
      × Ensures
          (λ _ db'. Changed (λ old m. Updated old n m) n.id (view db) (view db'))
          (λ e db'. Refused n.id (view db) (view db') e)
          (update queries n db)
      × Ensures
          (λ _ db'. Changed Cancelled id (view db) (view db'))
          (λ e db'. Refused id (view db) (view db') e)
          (delete queries id db)
postgres_contract db n id = (
  postgres_save_law db n,
  postgres_get_law db id,
  postgres_update_law db n,
  postgres_delete_law db id,
)

-- The contract, on the table of the database.
abbrev pub lawful : LawfulRepository (notification_repository queries)
lawful = record {
  Valid = λ _. ⊤;
  view = view;
  view_id = view_id;
  save_law = λ db n _.
      Ensures-map (save queries n db) (λ _ _ h. (tt, h)) (λ _ _ h. (tt, h))
        (postgres_save_law db n);
  get_law = λ db id _.
      Ensures-map (get_by_id queries id db) (λ _ _ h. (tt, h)) (λ _ _ h. (tt, h))
        (postgres_get_law db id);
  update_law = λ db n _.
      Ensures-map (update queries n db) (λ _ _ h. (tt, h)) (λ _ _ h. (tt, h))
        (postgres_update_law db n);
  delete_law = λ db id _.
      Ensures-map (delete queries id db) (λ _ _ h. (tt, h)) (λ _ _ h. (tt, h))
        (postgres_delete_law db id);
}
