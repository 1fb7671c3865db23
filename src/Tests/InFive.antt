-- ===== src/Tests/InFive.antt =====
-- An example for Consumer.InFive: the first send fails, the second succeeds.
use delayed_notifier.Prelude.{
  ◌≡◌, ◌≤◌, String, Option, none, some, refl, ℕ, zero, suc, ◌+◌, List, [], ⊤,
}
use delayed_notifier.Prelude.Int.{pos}
use delayed_notifier.Go.Errors.{Result, ok, err, foreign}
use delayed_notifier.Go.Decimal.{format_int}
use delayed_notifier.Domain.Model.{Notification}
use delayed_notifier.Domain.Ports.{Notifier}
use delayed_notifier.Postgres.Sql.{Database}
use delayed_notifier.Consumer.Handler.{World}
use delayed_notifier.Consumer.InFive.{Done, follow, final_in_five}
use delayed_notifier.Tests.Data.{repo, law, queue, note, db}
use delayed_notifier.Tests.Workers.{counting, Serving, reads_3, writes_3, decoded_3, view_3}

-- The number of the sends so far; the first fails.
abbrev answer : ℕ → Result ⊤
answer zero = err (foreign "timeout")
answer (suc k) = ok tt

abbrev flaky : Notifier ℕ
flaky = record { send = λ n k. (answer k, suc k) }

abbrev start : World Database (Option Notification × List Notification) ℕ
start = record { repo = db; queue = (none, []); notifier = 0; settled = [] }

read_3 :
    (j : ℕ)
    → j ≤ 4
    → (body : String) × (counting.marshal (record (note 3 "scheduled") { attempts = pos j })
        ≡ ok body)
      × (counting.unmarshal body ≡ ok (record (note 3 "scheduled") { attempts = pos j }))
read_3 j few = (format_int (pos j), refl, decoded_3 j few)

abbrev last : Option Notification × World Database (Option Notification × List Notification) ℕ
last =
    follow counting repo queue flaky (λ j. pos (9 + j)) 5 0
      (some (record (note 3 "scheduled") { attempts = pos 0 })) start

final_in_five_example :
    (last.0 ≡ none)
    × Done counting repo queue flaky
        (λ j. pos (9 + j))
        law
        Serving
        (note 3 "scheduled")
        (note 3 "scheduled")
        reads_3
        writes_3
        (λ m d q. (_, refl))
        read_3
        last.1
final_in_five_example =
    final_in_five counting repo queue flaky (λ j. pos (9 + j)) law Serving (note 3 "scheduled")
      (note 3 "scheduled") reads_3 writes_3 (λ m d q. (_, refl)) read_3 start tt ((λ k. refl), refl)
      view_3 refl
