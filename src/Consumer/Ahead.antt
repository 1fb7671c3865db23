-- ===== src/Consumer/Ahead.antt =====
-- How far a worker of `Start` (internal/consumer/consumer.go) is from its return, and what it has in hand.
use delayed_notifier.Prelude.{
  ℕ, ◌+◌, ◌*◌, ◌≤◌, ◌<◌, ◌≡◌, refl, inl, inr, List, [], ◌∷◌, map, arith, Bool-cases, str_eq,
}
use delayed_notifier.Go.Errors.{Result, ok, err}
use delayed_notifier.Consumer.Worker.{Status, returned, waiting}
use delayed_notifier.Consumer.PoolInvariant.{alive}
use delayed_notifier.Consumer.Start.{InHand, stage, Turns, this, other}
use delayed_notifier.Consumer.Stages.{
  Stage, starting, listening, ended, looking, sending, answered, settling, checked,
}
use delayed_notifier.Consumer.Receives.{length}
use delayed_notifier.Domain.Model.{Notification, status_scheduled}
use delayed_notifier.Consumer.StartRuns.{seen}

-- The steps that a worker has left at the most, but for deliveries.
abbrev pub ahead : Stage → ℕ
ahead starting = 2
ahead listening = 1
ahead ended = 0
ahead (looking n) = 5
ahead (sending n) = 4
ahead (answered n x) = 3
ahead (settling a) = 2

ahead-le : (g : Stage) → ahead g ≤ 5
ahead-le starting = omega arith
ahead-le listening = omega arith
ahead-le ended = omega arith
ahead-le (looking n) = omega arith
ahead-le (sending n) = omega arith
ahead-le (answered n x) = omega arith
ahead-le (settling a) = omega arith

-- One for a worker that has a message.
abbrev pub holds : Stage → ℕ
holds (looking n) = 1
holds (sending n) = 1
holds (answered n x) = 1
holds (settling a) = 1
holds _ = 0

-- The messages that the workers have.
abbrev pub in_hand : List (ℕ × Stage) → ℕ
in_hand [] = 0
in_hand ((id, g) ∷ ws) = holds g + in_hand ws

pub in_hand-Turns :
    {id : ℕ} {from to : Stage} {ws ws' : List (ℕ × Stage)}
    → Turns id from to ws ws'
    → in_hand ws' + holds from ≡ in_hand ws + holds to
in_hand-Turns this = omega arith
in_hand-Turns (other t) = omega (arith, in_hand-Turns t)

pub holds-stage : (st : Status) → holds (stage st) ≡ 0
holds-stage returned = refl
holds-stage waiting = refl

pub length-Turns :
    {id : ℕ} {from to : Stage} {ws ws' : List (ℕ × Stage)}
    → Turns id from to ws ws'
    → length ws' ≡ length ws
length-Turns this = refl
length-Turns (other t) = omega (arith, length-Turns t)

abbrev pub all_ahead : List (ℕ × Stage) → ℕ
all_ahead [] = 0
all_ahead ((id, g) ∷ ws) = ahead g + all_ahead ws

pub ahead-stage : (st : Status) → ahead (stage st) ≤ 1
ahead-stage returned = omega arith
ahead-stage waiting = omega arith

pub all_ahead-Turns :
    {id : ℕ} {from to : Stage} {ws ws' : List (ℕ × Stage)}
    → Turns id from to ws ws'
    → all_ahead ws' + ahead from ≡ all_ahead ws + ahead to
all_ahead-Turns this = omega arith
all_ahead-Turns (other t) = omega (arith, all_ahead-Turns t)

pub all_ahead-le : (ws : List (ℕ × Stage)) → all_ahead ws ≤ 5 * length ws
all_ahead-le [] = omega arith
all_ahead-le ((id, g) ∷ ws) = omega (arith, ahead-le g, all_ahead-le ws)

pub ahead-checked : (n : Notification) (x : Result Notification) → ahead (checked n x) ≤ 4
ahead-checked n (err e) = omega arith
ahead-checked n (ok m) = elim (Bool-cases (str_eq m.status status_scheduled)) [
  | inl same ↦ rw same (omega arith)
  | inr differs ↦ rw differs (omega arith)
]

pub holds-checked : (n : Notification) (x : Result Notification) → holds (checked n x) ≡ 1
holds-checked n (err e) = refl
holds-checked n (ok m) = elim (Bool-cases (str_eq m.status status_scheduled)) [
  | inl same ↦ rw same refl
  | inr differs ↦ rw differs refl
]

-- What a worker that has not returned can do.
pub data CanTurn (ws : List (ℕ × Stage)) : Type 0 where
  can_start :
      (id : ℕ)
      → ((to : Stage) → (ws' : List (ℕ × Stage)) × Turns id starting to ws ws')
      → CanTurn ws
  can_hear :
      (id : ℕ)
      → ((to : Stage) → (ws' : List (ℕ × Stage)) × Turns id listening to ws ws')
      → CanTurn ws
  can_proceed :
      (id : ℕ) (g : Stage)
      → InHand g
      → ((to : Stage) → (ws' : List (ℕ × Stage)) × Turns id g to ws ws')
      → CanTurn ws

CanTurn-tail : (g : ℕ × Stage) (ws : List (ℕ × Stage)) → CanTurn ws → CanTurn (g ∷ ws)
CanTurn-tail g ws (can_start id f) = can_start id (λ to. let (ws', t) = f to in (g ∷ ws', other t))
CanTurn-tail g ws (can_hear id f) = can_hear id (λ to. let (ws', t) = f to in (g ∷ ws', other t))
CanTurn-tail g ws (can_proceed id h m f) =
    can_proceed id h m (λ to. let (ws', t) = f to in (g ∷ ws', other t))

pub alive-CanTurn : (ws : List (ℕ × Stage)) → 0 < alive (map seen ws) → CanTurn ws
alive-CanTurn [] h = absurd (omega arith)
alive-CanTurn ((id, starting) ∷ ws) h = can_start id (λ to. ((id, to) ∷ ws, this))
alive-CanTurn ((id, listening) ∷ ws) h = can_hear id (λ to. ((id, to) ∷ ws, this))
alive-CanTurn ((id, looking n) ∷ ws) h = can_proceed id (looking n) tt (λ to. ((id, to) ∷ ws, this))
alive-CanTurn ((id, sending n) ∷ ws) h = can_proceed id (sending n) tt (λ to. ((id, to) ∷ ws, this))
alive-CanTurn ((id, answered n x) ∷ ws) h =
    can_proceed id (answered n x) tt (λ to. ((id, to) ∷ ws, this))
alive-CanTurn ((id, settling a) ∷ ws) h =
    can_proceed id (settling a) tt (λ to. ((id, to) ∷ ws, this))
alive-CanTurn ((id, ended) ∷ ws) h = CanTurn-tail (id, ended) ws (alive-CanTurn ws h)
