-- ===== src/Consumer/Pool.antt =====
-- `Start` of internal/consumer/consumer.go: a loop that starts the workers, and a `sync.WaitGroup`
-- whose counter goes up before each start and down, deferred, when a worker returns.
use delayed_notifier.Prelude.{ℕ, suc, ◌-◌, ◌≤◌, ◌<◌, List, [], ◌∷◌}

abbrev pub default_worker_count : ℕ
default_worker_count = 5

pub data Goroutine : Type 0 where
  running done : Goroutine

-- Where `Start` stands: in the loop at the index `i`, in `wg.Wait()`, or after it.
pub data Phase : Type 0 where
  spawning : ℕ → Phase
  waiting finished : Phase

pub record Pool : Type 0 where
  pub phase : Phase
  pub counter : ℕ
  -- the goroutines that were started, the last one first
  pub workers : List Goroutine

-- One goroutine returns.
pub data Finishes : List Goroutine → List Goroutine → Type 0 where
  this : {ws : List Goroutine} → Finishes (running ∷ ws) (done ∷ ws)
  other : {g : Goroutine} {ws ws' : List Goroutine} → Finishes ws ws' → Finishes (g ∷ ws) (g ∷ ws')

abbrev pub initial : Pool
initial = record { phase = spawning 0; counter = 0; workers = [] }

module _ (worker_count : ℕ) where
  pub data PoolStep : Pool → Pool → Type 0 where
    -- `wg.Add(1)` and `go`
    spawns :
        {i counter : ℕ} {ws : List Goroutine}
        → i < worker_count
        → PoolStep
            (record { phase = spawning i; counter = counter; workers = ws })
            (record { phase = spawning (suc i); counter = suc counter; workers = running ∷ ws })
    -- the loop ends
    waits :
        {i counter : ℕ} {ws : List Goroutine}
        → worker_count ≤ i
        → PoolStep
            (record { phase = spawning i; counter = counter; workers = ws })
            (record { phase = waiting; counter = counter; workers = ws })
    -- `defer wg.Done()`
    finishes :
        {phase : Phase} {counter : ℕ} {ws ws' : List Goroutine}
        → Finishes ws ws'
        → PoolStep
            (record { phase = phase; counter = counter; workers = ws })
            (record { phase = phase; counter = counter - 1; workers = ws' })
    -- `wg.Wait()` returns
    returns :
        {ws : List Goroutine}
        → PoolStep
            (record { phase = waiting; counter = 0; workers = ws })
            (record { phase = finished; counter = 0; workers = ws })

  -- The runs of `Start`, by their number of steps.
  pub data Run : ℕ → Pool → Type 0 where
    begun : Run 0 initial
    goes_on : {k : ℕ} {s t : Pool} → Run k s → PoolStep s t → Run (suc k) t
