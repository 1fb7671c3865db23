-- ===== src/Go/Errors.antt =====
-- Go's `error` values: the sentinels of domain/repository/errors.go and of the libraries, wrapped
-- errors (`fmt.Errorf` with `%w`), and `errors.Is` and `errors.As` over the chain of wraps.
use Prim.Native.String.{◌++◌}
use delayed_notifier.Prelude.{
  ◌≡◌, refl, ◌⊎◌, inl, inr, String, Bool, true, false, Option, none, some,
}

-- `record_not_found` is `repo.ErrNotFound`, `duplicate_record` is `repo.ErrDuplicateRecord`; `no_rows`
-- is `pgx.ErrNoRows` and `redis_nil` is `goredis.Nil`.
pub data Sentinel : Type 0 where
  record_not_found duplicate_record no_rows redis_nil : Sentinel

pub data Error : Type 0 where
  sentinel : Sentinel → Error
  -- `errors.New(s)`, and `fmt.Errorf` with no `%w`
  text : String → Error
  -- `fmt.Errorf("s: %w", err)`
  wrap : String → Error → Error
  -- a `*pgconn.PgError` with its SQLSTATE code
  pg_error : String → Error
  -- an error of another library, by its text
  foreign : String → Error

abbrev pub same_sentinel : Sentinel → Sentinel → Bool
same_sentinel record_not_found record_not_found = true
same_sentinel duplicate_record duplicate_record = true
same_sentinel no_rows no_rows = true
same_sentinel redis_nil redis_nil = true
same_sentinel _ _ = false

-- `errors.Is(err, target)`
abbrev pub errors_is : Error → Sentinel → Bool
errors_is (sentinel s) t = same_sentinel s t
errors_is (wrap _ e) t = errors_is e t
errors_is (text _) t = false
errors_is (pg_error _) t = false
errors_is (foreign _) t = false

-- `errors.As(err, &pgErr)`, with the code of the error that it finds
abbrev pub as_pg_error : Error → Option String
as_pg_error (pg_error code) = some code
as_pg_error (wrap _ e) = as_pg_error e
as_pg_error (sentinel _) = none
as_pg_error (text _) = none
as_pg_error (foreign _) = none

abbrev sentinel_text : Sentinel → String
sentinel_text record_not_found = "record not found"
sentinel_text duplicate_record = "duplicate record"
sentinel_text no_rows = "no rows in result set"
sentinel_text redis_nil = "redis: nil"

-- `err.Error()`; a PgError's text is made from more fields than its code, so the code stands for it
unfoldable pub error_text : Error → String
error_text (sentinel s) = sentinel_text s
error_text (text s) = s
error_text (wrap s e) = s ++ (": " ++ error_text e)
error_text (pg_error code) = code
error_text (foreign s) = s

pub data Result {ℓ} (A : Type ℓ) : Type ℓ where
  ok : A → Result A
  err : Error → Result A

abbrev pub map_err {ℓ} : {A : Type ℓ} → (Error → Error) → Result A → Result A
map_err f (ok a) = ok a
map_err f (err e) = err (f e)

pub Result-cases {ℓ} :
    {A : Type ℓ} (r : Result A) → ((e : Error) × (r ≡ err e)) ⊎ ((a : A) × (r ≡ ok a))
Result-cases (ok a) = inr (a, refl)
Result-cases (err e) = inl (e, refl)
