-- ===== src/Tests/RetryWaits.antt =====
-- An example for Rabbit.RetryWait: of one message for its last attempt, and then one for its first
-- every nanosecond.
use delayed_notifier.Prelude.{
  ℕ, ◌+◌, ◌*◌, ◌^◌, ◌≤◌, ◌<◌, ◌≡◌, refl, arith, ltb, if◌then◌else◌, sym, ◌∙◌,
}
use delayed_notifier.Prelude.Int.{pos, ◌≤ℤ◌, ◌+ℤ◌}
use delayed_notifier.Go.Clock.{Time, nanos_per_milli, nanos_per_second}
use delayed_notifier.Go.Decimal.{parse_int}
use delayed_notifier.Go.Errors.{ok}
use delayed_notifier.Consumer.Backoff.{calculate_exponential_backoff}
use delayed_notifier.Rabbit.Queue.{message}
use delayed_notifier.Rabbit.Retries.{retry_expires_after}
use delayed_notifier.Rabbit.Waiting.{History, ExpiredBy, Expires}
use delayed_notifier.Rabbit.RetryWait.{Retried, retried_within}

abbrev attempts : ℕ → ℕ
attempts i = if ltb 0 i then 1 else 4

abbrev history : History
history = record {
  messages = λ i. message "" (calculate_exponential_backoff (pos (attempts i)));
  enters = λ i. pos i;
  leaves = λ i. pos (if ltb i 70000000000 then 80000000000 else i + 10000000000);
}

few : (i : ℕ) → attempts i < 5
few i = ground arith

abbrev retried : Retried history
retried = record {
  attempts = attempts;
  body = λ _. "";
  message_law = λ _. refl;
  few = few;
  arrival = λ i j h. omega arith;
}

-- The time to live that is read back.
ms_eq :
    (i ms : ℕ)
    → parse_int (history.messages i).expiration ≡ ok (pos ms)
    → ms ≡ 5000 * 2 ^ attempts i
ms_eq i ms read = cc (sym read ∙ retry_expires_after "" (attempts i) (ground arith))

ms_nanos : (i ms : ℕ) → ms ≡ 5000 * 2 ^ attempts i → ms ≡ (if ltb 0 i then 10000 else 80000)
ms_nanos i ms e = ground arith

leaves_after :
    (i ms : ℕ)
    → ms ≡ (if ltb 0 i then 10000 else 80000)
    → pos i +ℤ pos (ms * nanos_per_milli) ≤ℤ history.leaves i
unfolding ◌+ℤ◌
leaves_after i ms e = ground arith

left_by :
    (j ms ms' : ℕ) (t : Time)
    → ms ≡ 80000
    → ms' ≡ (if ltb 0 j then 10000 else 80000)
    → pos 0 +ℤ pos (ms * nanos_per_milli) ≤ℤ t
    → pos j +ℤ pos (ms' * nanos_per_milli) ≤ℤ t
    → history.leaves j ≤ℤ t +ℤ pos 0
unfolding ◌+ℤ◌
left_by j ms ms' t e e' h h' = ground arith

left_with :
    (j : ℕ) (t : Time)
    → ExpiredBy history 0 t
    → ExpiredBy history j t
    → history.leaves j ≤ℤ t +ℤ pos 0
left_with j t (ms, read, by) (ms', read', by') =
    left_by j ms ms' t (ms_nanos 0 ms (ms_eq 0 ms read)) (ms_nanos j ms' (ms_eq j ms' read')) by by'

in_order : (i j : ℕ) → i ≤ j → history.leaves i ≤ℤ history.leaves j
in_order i j h = ground arith

documented : Expires 0 history
documented = record {
  in_order = in_order;
  not_before = λ i ms read. leaves_after i ms (ms_nanos i ms (ms_eq i ms read));
  within = λ j t by. left_with j t (by 0 (omega arith)) (by j (omega arith));
}

retried_within_example :
    (pos 3 +ℤ pos (5 * 2 ^ 1 * nanos_per_second) ≤ℤ pos 80000000000)
    × (pos 80000000000 ≤ℤ pos 3 +ℤ pos (80 * nanos_per_second + 0))
retried_within_example = retried_within history documented retried 3
