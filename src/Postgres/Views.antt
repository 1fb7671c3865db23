-- ===== src/Postgres/Views.antt =====
-- The table of storage/postgres as the view of its repository, and what one statement does to it.
use mathlib.Core.Option
use delayed_notifier.Prelude.{List, ◌∷◌, ◌≡◌, refl, none, some, ⊤, inl, inr, Option-cases, ap, ◌∙◌}
use delayed_notifier.Go.Errors.{Result, ok, err}
use delayed_notifier.Domain.Model.{Uuid, Notification}
use delayed_notifier.Domain.Contract.{View, Same, SameBut, Updated, Cancelled, Added, Ensures}
use delayed_notifier.Postgres.Rows.{not_null, Row, CreateNotificationParams}
use delayed_notifier.Postgres.Mapping.{domain_model, to_db_create_params}
use delayed_notifier.Postgres.Sql.{Database, find_row, update_status, inserted}
use delayed_notifier.Postgres.Answers.{update_params, after_update, cancelled}
use delayed_notifier.Postgres.Insert.{
  find_row-inserted_self, find_row-inserted_ne, Saved-inserted, saved_answer,
}
use delayed_notifier.Postgres.Table.{
  find_row_id, find_row-update_rows_self, find_row-update_rows_ne,
}

abbrev pub view : Database → View
view db id = Option.map domain_model (find_row (not_null id) db.rows)

pub found :
    (db : Database) (id : Uuid) (r : Row)
    → find_row (not_null id) db.rows ≡ some r
    → view db id ≡ some (domain_model r)
found db id r h = ap (Option.map domain_model) h

pub missing :
    (db : Database) (id : Uuid) → find_row (not_null id) db.rows ≡ none → view db id ≡ none
missing db id h = ap (Option.map domain_model) h

pub view_id : (db : Database) (id : Uuid) (n : Notification) → ⊤ → view db id ≡ some n → n.id ≡ id
unfolding domain_model
view_id db id n _ h = elim (Option-cases (find_row (not_null id) db.rows)) [
  | inl e ↦ cc (missing db id e)
  | inr (r, e) ↦
      let same : n ≡ domain_model r = cc (found db id r e) in
      ap (λ (m : Notification). m.id) same ∙ find_row_id id db.rows r e
]

-- The update of one row changes the view at its id alone.
pub others :
    (db : Database) (id : Uuid) (f : Row → Row)
    → ((r : Row) → (f r).id ≡ r.id)
    → SameBut id (view db) (view (after_update id f db))
others db id f keeps j ne =
    ap (Option.map domain_model) (find_row-update_rows_ne f keeps id j db.rows ne)

pub updated :
    (db : Database) (id : Uuid) (f : Row → Row) (r : Row)
    → ((r : Row) → (f r).id ≡ r.id)
    → find_row (not_null id) db.rows ≡ some r
    → view (after_update id f db) id ≡ some (domain_model (f r))
updated db id f r keeps h =
    ap (Option.map domain_model) (find_row-update_rows_self f keeps id db.rows r h)

pub Updated-update_status :
    (db : Database) (n : Notification) (r : Row)
    → Updated (domain_model r) n (domain_model (update_status (update_params n) db r))
unfolding domain_model
Updated-update_status db n r = record {
  kept = refl;
  status = refl;
  attempts = refl;
  sent = elim (Option-cases n.sent_at) [ inl e ↦ rw e refl | inr (t, e) ↦ rw e refl ];
}

pub Cancelled-cancelled :
    (db : Database) (r : Row) → Cancelled (domain_model r) (domain_model (cancelled db r))
unfolding domain_model
Cancelled-cancelled db r = record { kept = refl; status = refl; attempts = refl; sent_at = refl }

at_rows :
    (db : Database) {rs : List Row} (j : Uuid)
    → db.rows ≡ rs
    → view db j ≡ Option.map domain_model (find_row (not_null j) rs)
at_rows db j same = ap (λ (rs : List Row). Option.map domain_model (find_row (not_null j) rs)) same

-- The answer to an INSERT, as the contract reads it.
pub answer_law :
    (db : Database) (n : Notification) (p : CreateNotificationParams) (x : Result Row × Database)
    → to_db_create_params n ≡ ok p
    → Ensures
        (λ r db'.
          (r ≡ inserted p db)
          × (db'.rows ≡ inserted p db ∷ db.rows)
          × (find_row (not_null (db.random db.drawn)) db.rows ≡ none))
        (λ _ db'. db'.rows ≡ db.rows)
        x
    → Ensures
        (λ c db'. Added n (view db) (view db') c)
        (λ e db'. Same (view db) (view db'))
        (saved_answer x)
unfolding domain_model
answer_law db n p (err e, db') h same = λ j. at_rows db' j same
answer_law db n p (ok r, db') h (new, rows, free) = rw new (record {
  fresh = ap (Option.map domain_model) free;
  after =
      at_rows db' (db.random db.drawn) rows
      ∙ ap (Option.map domain_model) (find_row-inserted_self db p db.rows);
  saved = Saved-inserted db n p h;
  others = λ j ne.
      at_rows db' j rows ∙ ap (Option.map domain_model) (find_row-inserted_ne db p db.rows j ne);
})
