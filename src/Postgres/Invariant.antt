-- ===== src/Postgres/Invariant.antt =====
-- What holds of the table of migrations/00001_initial_schema.sql under the statements of
-- storage/postgres/db/notification.sql.go.
use delayed_notifier.Prelude.{
  ◌≡◌, refl, inl, inr, none, some, List, [], ◌∷◌, ⊤, sym, subst, arith, Bool-cases, Option-cases,
  true, ◌&&◌,
}
use delayed_notifier.Go.Errors.{Result}
use delayed_notifier.Domain.Model.{Uuid}
use delayed_notifier.Postgres.Rows.{
  Nullable, not_null, Row, CreateNotificationParams, UpdateNotificationStatusParams,
}
use delayed_notifier.Postgres.Sql.{
  Database, find_row, update_rows, same_id, is_notification_status, is_channel_type,
  chk_recipient_channel, insert_row, inserted, update_status, create_notification,
  get_notification_by_id, update_notification_status, cancel_notification, asked, query_row,
  update_row, cancel_row, select_row, trigger_set_timestamp, returning, Failure,
}

-- The columns of one row fit together: an id, a known status, and the recipient that the channel needs.
pub record RowValid (r : Row) : Type 0 where
  pub has_id : r.id.valid ≡ true
  pub status : is_notification_status r.status ≡ true
  pub recipient : chk_recipient_channel r.channel r.email_to.valid r.telegram_chat_id.valid ≡ true

-- Every row is valid, and no id stands twice.
abbrev pub TableValid : List Row → Type 0
TableValid [] = ⊤
TableValid (r ∷ rs) = RowValid r × (find_row r.id rs ≡ none) × TableValid rs

module _ (f : Row → Row) (keeps : (r : Row) → (f r).id ≡ r.id)
    (valid : (r : Row) → RowValid r → RowValid (f r)) where
  find_row-update_rows-none :
      (id j : Nullable Uuid) (rs : List Row)
      → find_row j rs ≡ none
      → find_row j (update_rows id f rs) ≡ none
  find_row-update_rows-none id j [] h = refl
  find_row-update_rows-none id j (r ∷ rs) h =
      ground (arith, keeps r, find_row-update_rows-none id j rs)

  TableValid-update_rows :
      (id : Nullable Uuid) (rs : List Row) → TableValid rs → TableValid (update_rows id f rs)
  TableValid-update_rows id [] h = tt
  TableValid-update_rows id (r ∷ rs) (ok_row, alone, rest) = elim (Bool-cases (same_id r.id id)) [
    | inl hit ↦ rw hit (valid r ok_row, rw (keeps r) alone, rest)
    | inr miss ↦
        rw miss
          (ok_row, find_row-update_rows-none id r.id rs alone, TableValid-update_rows id rs rest)
  ]

RowValid-inserted :
    (p : CreateNotificationParams) (db : Database)
    → (is_channel_type p.channel && is_notification_status p.status) ≡ true
    → chk_recipient_channel p.channel p.email_to.valid p.telegram_chat_id.valid ≡ true
    → RowValid (inserted p db)
RowValid-inserted p db typed checked = record {
  has_id = refl;
  status = ground arith;
  recipient = checked;
}

TableValid-insert_row :
    (p : CreateNotificationParams) (db : Database)
    → TableValid db.rows
    → TableValid (insert_row p db).1.rows
TableValid-insert_row p db h =
    elim (Bool-cases (is_channel_type p.channel && is_notification_status p.status)) [
      | inr bad ↦ rw bad h
      | inl typed ↦
          elim (Bool-cases
            (chk_recipient_channel p.channel p.email_to.valid p.telegram_chat_id.valid)) [
              | inr bad ↦ rw (typed, bad) h
              | inl checked ↦
                  elim (Option-cases (find_row (not_null (db.random db.drawn)) db.rows)) [
                    | inr (r, taken) ↦ rw (typed, checked, taken) h
                    | inl free ↦
                        rw (typed, checked, free) (RowValid-inserted p db typed checked, free, h)
                  ]
            ]
    ]

RowValid-update_status :
    (p : UpdateNotificationStatusParams) (db : Database)
    → is_notification_status p.status ≡ true
    → (r : Row) → RowValid r
    → RowValid (update_status p db r)
RowValid-update_status p db known r v = record {
  has_id = v.has_id;
  status = known;
  recipient = v.recipient;
}

rows-returning_missing :
    (id : Nullable Uuid) (f : Row → Row) (db : Database)
    → find_row id db.rows ≡ none
    → (returning id f db).1.rows ≡ db.rows
rows-returning_missing id f db absent = ground arith

rows-returning_found :
    (id : Nullable Uuid) (f : Row → Row) (db : Database) (r : Row)
    → find_row id db.rows ≡ some r
    → (returning id f db).1.rows ≡ update_rows id f db.rows
rows-returning_found id f db r present = ground arith

TableValid-returning :
    (id : Nullable Uuid) (f : Row → Row) (db : Database)
    → ((r : Row) → (f r).id ≡ r.id)
    → ((r : Row) → RowValid r → RowValid (f r))
    → TableValid db.rows
    → TableValid (returning id f db).1.rows
TableValid-returning id f db keeps valid h = elim (Option-cases (find_row id db.rows)) [
  | inl absent ↦ subst TableValid (sym (rows-returning_missing id f db absent)) h
  | inr (r, present) ↦
      subst TableValid (sym (rows-returning_found id f db r present))
        (TableValid-update_rows f keeps valid id db.rows h)
]

TableValid-update_row :
    (p : UpdateNotificationStatusParams) (db : Database)
    → TableValid db.rows
    → TableValid (update_row p db).1.rows
TableValid-update_row p db h = elim (Bool-cases (is_notification_status p.status)) [
  | inr bad ↦ rw bad h
  | inl known ↦ rw known (
      TableValid-returning p.id (update_status p db) db (λ r. refl)
        (RowValid-update_status p db known) h)
]

TableValid-cancel_row :
    (id : Nullable Uuid) (db : Database) → TableValid db.rows → TableValid (cancel_row id db).1.rows
TableValid-cancel_row id db h =
    TableValid-returning id (λ r. trigger_set_timestamp db (record r { status = "cancelled" })) db
      (λ r. refl) (λ r v. record { has_id = v.has_id; status = refl; recipient = v.recipient }) h

rows-select_row : (id : Nullable Uuid) (db : Database) → (select_row id db).1.rows ≡ db.rows
rows-select_row id db = ground arith

rows-query_row_up :
    (statement : Database → Result Row × Database) (db : Database)
    → db.failure db.queries ≡ none
    → (query_row statement db).1.rows ≡ (statement (asked db)).1.rows
rows-query_row_up statement db up = ground arith

rows-query_row_down :
    (statement : Database → Result Row × Database) (db : Database) (f : Failure)
    → db.failure db.queries ≡ some f
    → (query_row statement db).1.rows ≡ db.rows
rows-query_row_down statement db f down = ground arith

TableValid-query_row :
    (statement : Database → Result Row × Database) (db : Database)
    → TableValid db.rows
    → TableValid (statement (asked db)).1.rows
    → TableValid (query_row statement db).1.rows
TableValid-query_row statement db h after = elim (Option-cases (db.failure db.queries)) [
  | inl up ↦ subst TableValid (sym (rows-query_row_up statement db up)) after
  | inr (f, down) ↦ subst TableValid (sym (rows-query_row_down statement db f down)) h
]

-- One of the statements of the interface `Querier`.
pub data Statement : Type 0 where
  create : CreateNotificationParams → Statement
  get : Nullable Uuid → Statement
  update : UpdateNotificationStatusParams → Statement
  cancel : Nullable Uuid → Statement

abbrev pub run : Statement → Database → Database
run (create p) db = (create_notification p db).1
run (get id) db = (get_notification_by_id id db).1
run (update p) db = (update_notification_status p db).1
run (cancel id) db = (cancel_notification id db).1

-- Every statement, whatever its parameters and whether or not the server fails, keeps a table in
-- which each row has an id of its own, a known status and the recipient that its channel needs.
pub run-TableValid :
    (q : Statement) (db : Database) → TableValid db.rows → TableValid (run q db).rows
unfolding create_notification get_notification_by_id update_notification_status cancel_notification
run-TableValid (create p) db h =
    TableValid-query_row (insert_row p) db h (TableValid-insert_row p (asked db) h)
run-TableValid (get id) db h =
    TableValid-query_row (select_row id) db h
      (subst TableValid (sym (rows-select_row id (asked db))) h)
run-TableValid (update p) db h =
    TableValid-query_row (update_row p) db h (TableValid-update_row p (asked db) h)
run-TableValid (cancel id) db h =
    TableValid-query_row (cancel_row id) db h (TableValid-cancel_row id (asked db) h)
