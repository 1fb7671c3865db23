-- ===== src/Tests/Waits.antt =====
-- An example for Rabbit.Waiting: of one message for five seconds ahead, and then one that is due at
-- once every nanosecond.
use delayed_notifier.Prelude.{
  ℕ, ◌+◌, ◌≤◌, ◌<◌, ◌*◌, ◌≡◌, subst, sym, ◌∙◌, refl, arith, ltb, if◌then◌else◌,
}
use delayed_notifier.Prelude.Int.{pos, pos_part, ◌≤ℤ◌, ◌-ℤ◌, ◌+ℤ◌, half_64}
use delayed_notifier.Go.Clock.{Time, nanos_per_milli}
use delayed_notifier.Go.Decimal.{parse_int}
use delayed_notifier.Go.Errors.{ok}
use delayed_notifier.Rabbit.Queue.{message, publish_delay}
use delayed_notifier.Rabbit.Timing.{delay_ms, delay_exact, expires_after}
use delayed_notifier.Rabbit.Waiting.{History, ExpiredBy, Expires, Publishes, waits_behind}

abbrev scheduled : ℕ → Time
scheduled i = pos (if ltb 0 i then i else 5000000000)

abbrev history : History
history = record {
  messages = λ i. message "" (publish_delay (pos i) (scheduled i));
  enters = λ i. pos i;
  leaves = λ i. pos (if ltb i 5000000000 then 5000000000 else i);
}

near : (i : ℕ) → pos_part (scheduled i -ℤ pos i) < half_64
unfolding ◌-ℤ◌
near i = ground arith

soon : (i : ℕ) → pos i ≤ℤ pos i +ℤ pos 0
unfolding ◌+ℤ◌
soon i = ground arith

abbrev published : Publishes 0 scheduled history
published = record {
  now = λ i. pos i;
  body = λ _. "";
  message_law = λ _. refl;
  near = near;
  later = λ i. omega arith;
  soon = soon;
}

-- The time to live that is read back.
ms_eq :
    (i ms : ℕ)
    → parse_int (history.messages i).expiration ≡ ok (pos ms)
    → ms ≡ delay_ms (pos i) (scheduled i)
ms_eq i ms read = cc (sym read ∙ expires_after "" (pos i) (scheduled i))

leaves_after :
    (i ms : ℕ)
    → ms * nanos_per_milli ≤ pos_part (scheduled i -ℤ pos i)
    → pos i +ℤ pos (ms * nanos_per_milli) ≤ℤ history.leaves i
unfolding ◌+ℤ◌ ◌-ℤ◌
leaves_after i ms short = ground arith

at_five :
    (ms : ℕ) (t : Time)
    → pos_part (scheduled 0 -ℤ pos 0) < ms * nanos_per_milli + nanos_per_milli
    → pos 0 +ℤ pos (ms * nanos_per_milli) ≤ℤ t
    → pos 5000000000 ≤ℤ t
unfolding ◌+ℤ◌ ◌-ℤ◌
at_five ms t long by = ground arith

left_by :
    (j ms : ℕ) (t : Time)
    → pos 5000000000 ≤ℤ t
    → pos j +ℤ pos (ms * nanos_per_milli) ≤ℤ t
    → history.leaves j ≤ℤ t +ℤ pos 0
unfolding ◌+ℤ◌
left_by j ms t h by = ground arith

left_with :
    (j : ℕ) (t : Time)
    → ExpiredBy history 0 t
    → ExpiredBy history j t
    → history.leaves j ≤ℤ t +ℤ pos 0
left_with j t (ms, read, by) (ms', read', by') =
    let long = (delay_exact (pos 0) (scheduled 0) (near 0)).1 in
    let long' =
      subst (λ (k : ℕ). pos_part (scheduled 0 -ℤ pos 0) < k * nanos_per_milli + nanos_per_milli)
        (sym (ms_eq 0 ms read)) long in
    left_by j ms' t (at_five ms t long' by) by'

in_order : (i j : ℕ) → i ≤ j → history.leaves i ≤ℤ history.leaves j
in_order i j h = ground arith

documented : Expires 0 history
documented = record {
  in_order = in_order;
  not_before = λ i ms read. leaves_after i ms (
      subst (λ (k : ℕ). k * nanos_per_milli ≤ pos_part (scheduled i -ℤ pos i))
        (sym (ms_eq i ms read)) (delay_exact (pos i) (scheduled i) (near i)).0);
  within = λ j t by. left_with j t (by 0 (omega arith)) (by j (omega arith));
}

waits_behind_example :
    (pos 5000000000 ≤ℤ pos 5000000000 +ℤ pos 999999) × (pos 5000000000 ≤ℤ pos 5000000000 +ℤ pos 0)
waits_behind_example =
    waits_behind history documented published 0 3 (omega arith) (pos 5000000000)
      (λ k upto. (ground arith, ground arith))
