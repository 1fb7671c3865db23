-- ===== src/Postgres/Table.antt =====
-- The rows of the table under a lookup by id, an insertion and an update.
use delayed_notifier.Prelude.{◌≡◌, refl, ◌≢◌, some, List, [], ◌∷◌, arith}
use delayed_notifier.Domain.Model.{Uuid}
use delayed_notifier.Postgres.Rows.{not_null, Row}
use delayed_notifier.Postgres.Sql.{find_row, update_rows}

-- The row that a lookup finds has the id that was asked for.
pub find_row_id :
    (id : Uuid) (rs : List Row) (r : Row) → find_row (not_null id) rs ≡ some r → r.id.value ≡ id
find_row_id id [] r h = cc
find_row_id id (x ∷ rs) r h = ground (arith, find_row_id id rs r)

module _ (f : Row → Row) (keeps : (r : Row) → (f r).id ≡ r.id) where
  pub find_row-update_rows_self :
      (id : Uuid) (rs : List Row) (r : Row)
      → find_row (not_null id) rs ≡ some r
      → find_row (not_null id) (update_rows (not_null id) f rs) ≡ some (f r)
  find_row-update_rows_self id [] r h = cc
  find_row-update_rows_self id (x ∷ rs) r h =
      ground (arith, keeps x, find_row-update_rows_self id rs r)

  pub find_row-update_rows_ne :
      (id j : Uuid) (rs : List Row)
      → j ≢ id
      → find_row (not_null j) (update_rows (not_null id) f rs) ≡ find_row (not_null j) rs
  find_row-update_rows_ne id j [] h = refl
  find_row-update_rows_ne id j (x ∷ rs) h =
      ground (arith, keeps x, find_row-update_rows_ne id j rs h)
