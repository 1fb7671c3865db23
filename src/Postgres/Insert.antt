-- ===== src/Postgres/Insert.antt =====
-- `Save` of storage/postgres/repository.go: what the inserted row holds, on every branch.
use delayed_notifier.Prelude.{
  ◌≡◌, refl, ◌≢◌, none, some, arith, inl, inr, Option-cases, List, Bool-cases, ◌∷◌, ◌&&◌, ap, ◌∙◌,
}
use delayed_notifier.Go.Errors.{Error, Result, ok, err}
use delayed_notifier.Go.Clock.{Near}
use delayed_notifier.Go.Action.{◌>>=◌}
use delayed_notifier.Domain.Model.{Uuid, Notification, telegram_of_email}
use delayed_notifier.Domain.Contract.{Saved, Ensures}
use delayed_notifier.Postgres.Rows.{not_null, Row, CreateNotificationParams}
use delayed_notifier.Postgres.Mapping.{domain_model, to_domain_model, to_db_create_params}
use delayed_notifier.Postgres.Sql.{
  Database, find_row, queries, create_notification, asked, query_row, Failure, failure_error,
  insert_row, inserted, is_channel_type, is_notification_status, chk_recipient_channel,
}
use delayed_notifier.Postgres.Repository.{save, save_error}

due :
    (n : Notification) (p : CreateNotificationParams)
    → to_db_create_params n ≡ ok p
    → p.scheduled_at ≡ not_null n.scheduled_at
unfolding to_db_create_params
due n p h = ground arith

scheduled-inserted :
    (db : Database) (n : Notification) (p : CreateNotificationParams)
    → to_db_create_params n ≡ ok p
    → Near n.scheduled_at (domain_model (inserted p db)).scheduled_at
unfolding domain_model
scheduled-inserted db n p h = rw (due n p h) (db.stored_near n.scheduled_at)

-- A new row keeps the content, the recipient and the state of the notification it was made from.
pub Saved-inserted :
    (db : Database) (n : Notification) (p : CreateNotificationParams)
    → to_db_create_params n ≡ ok p
    → Saved n (domain_model (inserted p db))
unfolding to_db_create_params domain_model
Saved-inserted db n p h = record {
  subject = ground arith;
  message = ground arith;
  channel = ground arith;
  status = ground arith;
  author_id = ground arith;
  address = ground arith;
  chat = ground (arith, telegram_of_email n.channel);
  attempts = ground arith;
  scheduled_at = scheduled-inserted db n p h;
  unsent = ground arith;
}

-- What the statement INSERT leaves.
pub insert_row_law :
    (db : Database) (p : CreateNotificationParams)
    → Ensures
        (λ r db'.
          (r ≡ inserted p db)
          × (db'.rows ≡ inserted p db ∷ db.rows)
          × (find_row (not_null (db.random db.drawn)) db.rows ≡ none))
        (λ _ db'. db'.rows ≡ db.rows)
        (insert_row p db)
insert_row_law db p =
    elim (Bool-cases (is_channel_type p.channel && is_notification_status p.status)) [
      | inr bad ↦ rw (bad, Ensures) refl
      | inl typed ↦
          elim (Bool-cases
            (chk_recipient_channel p.channel p.email_to.valid p.telegram_chat_id.valid)) [
              | inr bad ↦ rw (typed, bad, Ensures) refl
              | inl checked ↦
                  elim (Option-cases (find_row (not_null (db.random db.drawn)) db.rows)) [
                    | inr (r, taken) ↦ rw (typed, checked, taken, Ensures) refl
                    | inl free ↦ rw (typed, checked, free, Ensures) (refl, refl, free)
                  ]
            ]
    ]

pub save-eq_invalid :
    (db : Database) (n : Notification) (e : Error)
    → to_db_create_params n ≡ err e
    → save queries n db ≡ (err e, db)
unfolding save
save-eq_invalid db n e h = rw (h, ◌>>=◌)

-- What `Save` makes of the answer to its INSERT.
abbrev pub saved_answer : Result Row × Database → Result Notification × Database
saved_answer (ok r, db) = (ok (domain_model r), db)
saved_answer (err e, db) = (err (save_error e), db)

save-eq :
    (db : Database) (n : Notification) (p : CreateNotificationParams)
    → to_db_create_params n ≡ ok p
    → save queries n db ≡ saved_answer (create_notification p db)
unfolding save to_domain_model
save-eq db n p h = ground arith

pub save-eq_sent :
    (db : Database) (n : Notification) (p : CreateNotificationParams)
    → to_db_create_params n ≡ ok p
    → db.failure db.queries ≡ none
    → save queries n db ≡ saved_answer (insert_row p (asked db))
unfolding create_notification
save-eq_sent db n p h up = save-eq db n p h ∙ ap saved_answer (rw (up, query_row))

pub save-eq_failed :
    (db : Database) (n : Notification) (p : CreateNotificationParams) (f : Failure)
    → to_db_create_params n ≡ ok p
    → db.failure db.queries ≡ some f
    → save queries n db ≡ (err (save_error (failure_error f)), asked db)
unfolding create_notification
save-eq_failed db n p f h down =
    save-eq db n p h
    ∙ ap saved_answer {y = (err (failure_error f), asked db)} (rw (down, query_row))

module _ (db : Database) (p : CreateNotificationParams) (rs : List Row) where
  pub find_row-inserted_self :
      find_row (not_null (db.random db.drawn)) (inserted p db ∷ rs) ≡ some (inserted p db)
  find_row-inserted_self = ground arith

  pub find_row-inserted_ne :
      (j : Uuid)
      → j ≢ db.random db.drawn
      → find_row (not_null j) (inserted p db ∷ rs) ≡ find_row (not_null j) rs
  find_row-inserted_ne j ne = ground arith
