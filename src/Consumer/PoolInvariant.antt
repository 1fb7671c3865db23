-- ===== src/Consumer/PoolInvariant.antt =====
-- `Start` ends, and only when every worker has returned.
use delayed_notifier.Prelude.{
  ℕ, zero, suc, ◌+◌, ◌*◌, ◌≤◌, ◌<◌, ◌≡◌, refl, List, [], ◌∷◌, arith, inl, inr, ltb, Bool-cases,
  subst,
}
use delayed_notifier.Consumer.Receives.{length}
use delayed_notifier.Consumer.Pool.{
  Goroutine, running, done, Phase, spawning, waiting, finished, Pool, Finishes, this, other,
  PoolStep, spawns, waits, finishes, returns, Run, begun, goes_on,
}

abbrev pub alive : List Goroutine → ℕ
alive [] = 0
alive (running ∷ ws) = suc (alive ws)
alive (done ∷ ws) = alive ws

alive-Finishes : {ws ws' : List Goroutine} → Finishes ws ws' → alive ws ≡ suc (alive ws')
alive-Finishes this = refl
alive-Finishes (other {g = running} f) = omega (arith, alive-Finishes f)
alive-Finishes (other {g = done} f) = alive-Finishes f

length-Finishes : {ws ws' : List Goroutine} → Finishes ws ws' → length ws ≡ length ws'
length-Finishes this = refl
length-Finishes (other f) = omega (arith, length-Finishes f)

alive-le : (ws : List Goroutine) → alive ws ≤ length ws
alive-le [] = omega arith
alive-le (running ∷ ws) = omega (arith, alive-le ws)
alive-le (done ∷ ws) = omega (arith, alive-le ws)

some_Finishes : (ws : List Goroutine) → 0 < alive ws → (ws' : List Goroutine) × Finishes ws ws'
some_Finishes [] h = absurd (omega arith)
some_Finishes (running ∷ ws) h = (done ∷ ws, this)
some_Finishes (done ∷ ws) h = let (ws', f) = some_Finishes ws h in (done ∷ ws', other f)

-- The steps of the phases that are behind.
abbrev past : Phase → ℕ
past (spawning _) = 0
past waiting = 1
past finished = 2

module _ (worker_count : ℕ) where
  abbrev Started : Phase → List Goroutine → Type 0
  Started (spawning i) ws = (length ws ≡ i) × (i ≤ worker_count)
  Started waiting ws = length ws ≡ worker_count
  Started finished ws = (length ws ≡ worker_count) × (alive ws ≡ 0)

  record Inv (k : ℕ) (s : Pool) : Type 0 where
    counted : s.counter ≡ alive s.workers
    steps : k + alive s.workers ≡ 2 * length s.workers + past s.phase
    started : Started s.phase s.workers

  Started-Finishes :
      (phase : Phase) {ws ws' : List Goroutine}
      → Started phase ws
      → Finishes ws ws'
      → Started phase ws'
  Started-Finishes (spawning i) h f = (omega (arith, length-Finishes f, h.0), h.1)
  Started-Finishes waiting h f = omega (arith, length-Finishes f, h)
  Started-Finishes finished h f = absurd (omega (arith, alive-Finishes f, h.1))

  PoolStep-Inv : {k : ℕ} {s t : Pool} → PoolStep worker_count s t → Inv k s → Inv (suc k) t
  PoolStep-Inv (spawns h) inv = record {
    counted = omega (arith, inv.counted);
    steps = omega (arith, inv.steps);
    started = (omega (arith, inv.started.0), omega arith);
  }
  PoolStep-Inv (waits h) inv = record {
    counted = inv.counted;
    steps = omega (arith, inv.steps);
    started = omega (arith, inv.started.0, inv.started.1);
  }
  PoolStep-Inv (finishes {phase} f) inv = record {
    counted = omega (arith, inv.counted, alive-Finishes f);
    steps = omega (arith, inv.steps, alive-Finishes f, length-Finishes f);
    started = Started-Finishes phase inv.started f;
  }
  PoolStep-Inv (returns {ws}) inv = record {
    counted = inv.counted;
    steps = omega (arith, inv.steps);
    started = (inv.started, omega (arith, inv.counted));
  }

  Run-Inv : {k : ℕ} {s : Pool} → Run worker_count k s → Inv k s
  Run-Inv begun = record { counted = refl; steps = refl; started = (refl, omega arith) }
  Run-Inv (goes_on r st) = PoolStep-Inv st (Run-Inv r)

  -- Where `Start` has returned, with all its workers, or some step is left.
  pub data Ended (s : Pool) : Type 0 where
    over : s.phase ≡ finished → length s.workers ≡ worker_count → alive s.workers ≡ 0 → Ended s
    more : (t : Pool) → PoolStep worker_count s t → Ended s

  Ended-at :
      (phase : Phase) (counter : ℕ) (ws : List Goroutine)
      → counter ≡ alive ws
      → Started phase ws
      → Ended (record { phase = phase; counter = counter; workers = ws })
  Ended-at (spawning i) counter ws counted started = elim (Bool-cases (ltb i worker_count)) [
    | inl below ↦ Ended.more _ (spawns (ground arith))
    | inr full ↦ Ended.more _ (waits (ground arith))
  ]
  Ended-at waiting zero ws counted started = Ended.more _ returns
  Ended-at waiting (suc c) ws counted started =
      let (ws', f) = some_Finishes ws (omega arith) in Ended.more _ (finishes f)
  Ended-at finished counter ws counted started = Ended.over refl started.0 started.1

  within :
      (phase : Phase) (k : ℕ) (ws : List Goroutine)
      → Started phase ws
      → k + alive ws ≡ 2 * length ws + past phase
      → k ≤ 2 * worker_count + 2
  within (spawning i) k ws started steps = omega (arith, started.0, started.1)
  within waiting k ws started steps = omega arith
  within finished k ws started steps = omega (arith, started.0)

  -- However its goroutines interleave, a run of `Start` with any number of workers takes at most
  -- twice that number of steps and two more; it always has a next step, which may be the return of
  -- a worker, unless it has returned, and then all the workers were started and all have returned.
  pub start_ends : {k : ℕ} {s : Pool} → Run worker_count k s → (k ≤ 2 * worker_count + 2) × Ended s
  start_ends {k} {s} r =
      let inv = Run-Inv r in
      (
        within s.phase k s.workers inv.started inv.steps,
        Ended-at s.phase s.counter s.workers inv.counted inv.started,
      )

  -- The wait group counts the workers that have not returned.
  pub counter_alive : {k : ℕ} {s : Pool} → Run worker_count k s → s.counter ≡ alive s.workers
  counter_alive r = (Run-Inv r).counted

  -- When `Start` has returned, all the workers that it was to start have returned.
  pub finished_alive :
      {k : ℕ} {s : Pool}
      → Run worker_count k s
      → s.phase ≡ finished
      → (length s.workers ≡ worker_count) × (alive s.workers ≡ 0)
  finished_alive {s = s} r at_end =
      subst (λ (p : Phase). Started p s.workers) at_end (Run-Inv r).started

  -- When a worker of a reachable state may return, the wait group's counter is positive, so that
  -- its `Done` never takes the counter below zero.
  pub wait_group_positive :
      {k : ℕ} {s : Pool} {ws : List Goroutine}
      → Run worker_count k s
      → Finishes s.workers ws
      → 0 < s.counter
  wait_group_positive r f = omega (arith, (Run-Inv r).counted, alive-Finishes f)
