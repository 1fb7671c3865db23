-- ===== src/Tests/Workers.antt =====
-- Examples for Consumer.
use delayed_notifier.Prelude.{true, String, none, ℕ, ◌≤◌, ap, ◌≡◌, refl, [], some, arith}
use delayed_notifier.Prelude.Int.{ℤ, pos}
use delayed_notifier.Go.Errors.{Result, ok, err}
use delayed_notifier.Domain.Model.{Notification}
use delayed_notifier.Domain.Status.{IsFinal}
use delayed_notifier.Go.Decimal.{parse_int, format_int}
use delayed_notifier.Go.Decimal.RoundTrip.{parse_int-format_int}
use delayed_notifier.Postgres.Rows.{not_null}
use delayed_notifier.Postgres.Answers.{get-eq_found, update-eq_found}
use delayed_notifier.Domain.Json.{JsonCodec}
use delayed_notifier.Postgres.Sql.{is_notification_status, Database, find_row, asked}
use delayed_notifier.Postgres.Mapping.{domain_model}
use delayed_notifier.Consumer.Handler.{handle_message}
use delayed_notifier.Consumer.NotLost.{NotLost, not_lost}
use delayed_notifier.Consumer.Answer.{SendOutcome, send_outcome}
use delayed_notifier.Tests.Data.{row, repo, law, queue, notifier_down, json, world, note, db, get_3}

abbrev scheduled : Notification
scheduled = note 3 "scheduled"

not_lost_example :
    NotLost json repo queue notifier_down law 3 world
      (handle_message json repo queue notifier_down (pos 9) "3" world)
not_lost_example =
    not_lost json repo queue notifier_down law (pos 9) "3" scheduled scheduled world (asked db) tt
      refl get_3

abbrev fifth : Notification
fifth = record scheduled { attempts = pos 4 }

-- The message of the fifth send.
abbrev json_fifth : JsonCodec
json_fifth = record { marshal = λ _. ok "3"; unmarshal = λ _. ok fifth }

send_outcome_example :
    SendOutcome json_fifth repo queue notifier_down law
      (pos 9)
      fifth
      world
      (asked db)
      4
      (handle_message json_fifth repo queue notifier_down (pos 9) "3" world)
      (notifier_down.send fifth [])
send_outcome_example =
    send_outcome json_fifth repo queue notifier_down law (pos 9) "3" fifth scheduled world
      (asked db) 4 refl tt get_3 refl refl (omega arith)

-- A message spells the number of attempts.
abbrev pub decode : Result ℤ → Result Notification
decode (ok k) = ok (record scheduled { attempts = k })
decode (err e) = err e

abbrev pub counting : JsonCodec
counting = record {
  marshal = λ n. ok (format_int n.attempts);
  unmarshal = λ s. decode (parse_int s);
}

abbrev pub Serving : Database → Type 0
Serving s = ((k : ℕ) → s.failure k ≡ none) × (s.rows ≡ db.rows)

pub reads_3 :
    (s : Database)
    → Serving s
    → (m : Notification) × (s' : Database) × (repo.get_by_id 3 s ≡ (ok m, s')) × Serving s'
reads_3 s (up, rows) = (
  domain_model (row 3 "scheduled"),
  asked s,
  get-eq_found s 3 (row 3 "scheduled") (up s.queries) (ap (find_row (not_null 3)) rows),
  (up, rows),
)

final_known : {s : String} → IsFinal s → is_notification_status s ≡ true
final_known (IsFinal.sent e) = rw e refl
final_known (IsFinal.failed e) = rw e refl
final_known (IsFinal.cancelled e) = rw e refl

pub writes_3 :
    (m : Notification) (s : Database)
    → m.id ≡ 3
    → IsFinal m.status
    → Serving s
    → (s' : Database) × (repo.update m s ≡ (ok tt, s'))
writes_3 m s here final (up, rows) = (
  _,
  update-eq_found s m (row 3 "scheduled") (up s.queries) (final_known final)
      (rw here (ap (find_row (not_null 3)) rows)),
)

pub decoded_3 :
    (j : ℕ)
    → j ≤ 4
    → counting.unmarshal (format_int (pos j)) ≡ ok (record scheduled { attempts = pos j })
decoded_3 j small = rw (parse_int-format_int (pos j) (omega arith)) refl

pub view_3 : law.view world.repo 3 ≡ some scheduled
unfolding domain_model
view_3 = refl
