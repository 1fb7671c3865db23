-- ===== src/Rabbit/Waiting.antt =====
-- How long the messages of `Publish` stay in the wait queue of storage/rabbitmq/queue.go, which
-- nothing consumes and which they leave by their expiration.
use delayed_notifier.Prelude.{ℕ, ◌+◌, ◌*◌, ◌≤◌, ◌<◌, ◌≡◌, arith, String, ap, subst, ◌∙◌}
use delayed_notifier.Prelude.Int.{pos, pos_part, ◌+ℤ◌, ◌-ℤ◌, ◌≤ℤ◌, half_64}
use delayed_notifier.Go.Errors.{ok}
use delayed_notifier.Go.Clock.{Time, nanos_per_milli}
use delayed_notifier.Go.Decimal.{parse_int}
use delayed_notifier.Rabbit.Channel.{Publishing}
use delayed_notifier.Rabbit.Queue.{publish_delay, message}
use delayed_notifier.Rabbit.Timing.{delay_ms, delay_exact, expires_after}

-- A queue without consumers: its messages in the order in which they come in, and when each comes in
-- and leaves.
pub record History : Type 0 where
  pub messages : ℕ → Publishing
  pub enters : ℕ → Time
  pub leaves : ℕ → Time

-- The time to live of a message has passed at the time `t`.
abbrev pub ExpiredBy : History → ℕ → Time → Type 0
ExpiredBy h i t =
    (ms : ℕ) × (parse_int (h.messages i).expiration ≡ ok (pos ms))
    × (h.enters i +ℤ pos (ms * nanos_per_milli) ≤ℤ t)

-- What the documentation of RabbitMQ says of messages with a time to live of their own: they leave at
-- the head of their queue only, not before it has passed, and at the head within `lag` nanoseconds
-- after it.
pub record Expires (lag : ℕ) (h : History) : Type 0 where
  pub in_order : (i j : ℕ) → i ≤ j → h.leaves i ≤ℤ h.leaves j
  pub not_before :
      (i ms : ℕ)
      → parse_int (h.messages i).expiration ≡ ok (pos ms)
      → h.enters i +ℤ pos (ms * nanos_per_milli) ≤ℤ h.leaves i
  pub within : (j : ℕ) (t : Time) → ((i : ℕ) → i ≤ j → ExpiredBy h i t) → h.leaves j ≤ℤ t +ℤ pos lag

-- A time to live of `d` nanoseconds that was computed at `now` for the time `t`.
ends_after :
    (now t enters leaves : Time) (d : ℕ)
    → pos_part (t -ℤ now) < d + nanos_per_milli
    → now ≤ℤ enters
    → enters +ℤ pos d ≤ℤ leaves
    → t ≤ℤ leaves +ℤ pos 999999
unfolding ◌-ℤ◌ ◌+ℤ◌
ends_after now t enters leaves d near later over = ground arith

ends_by :
    (now t enters last : Time) (d transit : ℕ)
    → d ≤ pos_part (t -ℤ now)
    → enters ≤ℤ now +ℤ pos transit
    → now ≤ℤ last
    → t ≤ℤ last
    → enters +ℤ pos d ≤ℤ last +ℤ pos transit
unfolding ◌-ℤ◌ ◌+ℤ◌
ends_by now t enters last d transit near soon h1 h2 = ground arith

pub add_add : (t : Time) (a b : ℕ) → (t +ℤ pos a) +ℤ pos b ≡ t +ℤ pos (a + b)
unfolding ◌+ℤ◌
add_add t a b = ground arith

after_order : (t l l' : Time) (d : ℕ) → t ≤ℤ l +ℤ pos d → l ≤ℤ l' → t ≤ℤ l' +ℤ pos d
unfolding ◌+ℤ◌
after_order t l l' d h1 h2 = ground arith

-- The messages are those of `Publish` for the times `scheduled`: each delay is computed at `now`, for
-- a time less than 2 ^ 63 ns ahead, and the message enters within `transit` nanoseconds after.
pub record Publishes (transit : ℕ) (scheduled : ℕ → Time) (h : History) : Type 0 where
  pub now : ℕ → Time
  pub body : ℕ → String
  pub message_law : (i : ℕ) → h.messages i ≡ message (body i) (publish_delay (now i) (scheduled i))
  pub near : (i : ℕ) → pos_part (scheduled i -ℤ now i) < half_64
  pub later : (i : ℕ) → now i ≤ℤ h.enters i
  pub soon : (i : ℕ) → h.enters i ≤ℤ now i +ℤ pos transit

module _ {lag transit : ℕ} {scheduled : ℕ → Time} (h : History) (queue : Expires lag h)
    (p : Publishes transit scheduled h) where
  abbrev nanos : ℕ → ℕ
  nanos i = delay_ms (p.now i) (scheduled i) * nanos_per_milli

  expiration :
      (i : ℕ) → parse_int (h.messages i).expiration ≡ ok (pos (delay_ms (p.now i) (scheduled i)))
  expiration i =
      ap (λ (m : Publishing). parse_int m.expiration) (p.message_law i)
      ∙ expires_after (p.body i) (p.now i) (scheduled i)

  not_early : (i : ℕ) → scheduled i ≤ℤ h.leaves i +ℤ pos 999999
  not_early i =
      let near = (delay_exact (p.now i) (scheduled i) (p.near i)).1 in
      ends_after (p.now i) (scheduled i) (h.enters i) (h.leaves i) (nanos i) near (p.later i)
        (queue.not_before i (delay_ms (p.now i) (scheduled i)) (expiration i))

  expired_by :
      (i : ℕ) (last : Time)
      → p.now i ≤ℤ last
      → scheduled i ≤ℤ last
      → ExpiredBy h i (last +ℤ pos transit)
  expired_by i last h1 h2 =
      let short = (delay_exact (p.now i) (scheduled i) (p.near i)).0 in
      (
        delay_ms (p.now i) (scheduled i),
        expiration i,
        ends_by (p.now i) (scheduled i) (h.enters i) last (nanos i) transit short (p.soon i) h1 h2,
      )

  -- Over a queue that expires its messages as documented, at its head only, a message that
  -- `Publish` made for a time less than 2 ^ 63 ns ahead leaves less than a millisecond before this
  -- time at the earliest, and no earlier than that before the time of any message in front of it,
  -- however late that is; and it leaves, but for the transit and the lag of the broker, by any time
  -- by which it and those in front were published and due.
  pub waits_behind :
      (i j : ℕ)
      → i ≤ j
      → (last : Time) → ((k : ℕ) → k ≤ j → (p.now k ≤ℤ last) × (scheduled k ≤ℤ last))
      → (scheduled i ≤ℤ h.leaves j +ℤ pos 999999) × (h.leaves j ≤ℤ last +ℤ pos (transit + lag))
  waits_behind i j before last due = (
    after_order (scheduled i) (h.leaves i) (h.leaves j) 999999 (not_early i)
        (queue.in_order i j before),
    subst (λ (t : Time). h.leaves j ≤ℤ t) (add_add last transit lag)
        (queue.within j (last +ℤ pos transit)
          (λ k upto. let (h1, h2) = due k upto in expired_by k last h1 h2)),
  )
