-- ===== src/Consumer/Start.antt =====
-- `Start` of internal/consumer/consumer.go with what its goroutines do: each runs `runWorker` over the
-- connection and the services that all share, in any order between their calls, beside the API.
use delayed_notifier.Prelude.{ℕ, suc, ◌-◌, ◌≤◌, ◌<◌, ◌≡◌, String, List, [], ◌∷◌, ⊤}
use delayed_notifier.Go.Errors.{Result}
use delayed_notifier.Domain.Ports.{NotificationRepository, NotificationQueue, Notifier}
use delayed_notifier.Domain.Json.{JsonCodec}
use delayed_notifier.Consumer.Handler.{World}
use delayed_notifier.Consumer.Worker.{
  Connection, Event, Status, returned, waiting, receive, deferred_close, run_worker,
}
use delayed_notifier.Consumer.Pool.{Phase, spawning, finished}
use delayed_notifier.Interleaved.{Part}
use delayed_notifier.Consumer.Stages.{Stage, starting, listening, ended, received, proceed}
use delayed_notifier.Go.Clock.{Time}

-- A worker has a message, from its delivery to its settlement.
abbrev pub InHand : Stage → Type 0
InHand starting = ⊥
InHand listening = ⊥
InHand ended = ⊥
InHand _ = ⊤

abbrev pub stage : Status → Stage
stage returned = ended
stage waiting = listening

-- `defer wg.Done()`
abbrev pub count_down : Status → ℕ → ℕ
count_down returned counter = counter - 1
count_down waiting counter = counter

pub record Workers (R Q N C : Type 0) : Type 0 where
  pub phase : Phase
  pub counter : ℕ
  -- the goroutines that were started, by the id of their worker, the last one first
  pub workers : List (ℕ × Stage)
  pub conn : C
  pub world : World R Q N

abbrev pub begin : {R Q N C : Type 0} → C → World R Q N → Workers R Q N C
begin c w = record { phase = spawning 0; counter = 0; workers = []; conn = c; world = w }

-- A worker goes from one stage to another.
pub data Turns (id : ℕ) (from to : Stage) : List (ℕ × Stage) → List (ℕ × Stage) → Type 0 where
  this : {ws : List (ℕ × Stage)} → Turns id from to ((id, from) ∷ ws) ((id, to) ∷ ws)
  other :
      {g : ℕ × Stage} {ws ws' : List (ℕ × Stage)}
      → Turns id from to ws ws'
      → Turns id from to (g ∷ ws) (g ∷ ws')

module _ {R Q N C : Type 0} (json : JsonCodec) (repo : NotificationRepository R)
    (queue : NotificationQueue Q) (notifier : Notifier N) (conn : Connection C)
    (parse_address : String → Result ⊤) (worker_count : ℕ) where
  -- After the calls of a worker, which end with its status: `phase` and the stages are given.
  abbrev pub after_turn :
      Phase → ℕ → List (ℕ × Stage) → Status × (C × World R Q N) → Workers R Q N C
  after_turn phase counter ws (st, (c, w)) = record {
    phase = phase;
    counter = count_down st counter;
    workers = ws;
    conn = c;
    world = w;
  }

  pub data WorkersStep : Workers R Q N C → Workers R Q N C → Type 0 where
    -- `wg.Add(1)` and `go`, with the worker's id
    spawns :
        {i counter : ℕ} {ws : List (ℕ × Stage)} {c : C} {w : World R Q N}
        → i < worker_count
        → WorkersStep
            (record { phase = spawning i; counter = counter; workers = ws; conn = c; world = w })
            (record {
              phase = spawning (suc i);
              counter = suc counter;
              workers = (suc i, starting) ∷ ws;
              conn = c;
              world = w;
            })
    -- the loop ends
    waits :
        {i counter : ℕ} {ws : List (ℕ × Stage)} {c : C} {w : World R Q N}
        → worker_count ≤ i
        → WorkersStep
            (record { phase = spawning i; counter = counter; workers = ws; conn = c; world = w })
            (record { phase = Phase.waiting; counter = counter; workers = ws; conn = c; world = w })
    -- a worker opens, limits and registers its channel, before its first event
    sets_up :
        {phase : Phase} {counter id : ℕ} {ws ws' : List (ℕ × Stage)} {c : C} {w : World R Q N}
        → Turns id starting (stage (run_worker json repo queue notifier conn id [] (c, w)).0) ws ws'
        → WorkersStep
            (record { phase = phase; counter = counter; workers = ws; conn = c; world = w })
            (after_turn phase counter ws' (run_worker json repo queue notifier conn id [] (c, w)))
    -- the loop of a worker gets what ends it
    leaves :
        {phase : Phase} {counter id : ℕ} {ws ws' : List (ℕ × Stage)} {c : C} {w : World R Q N}
        (e : Event)
        → receive json repo queue notifier conn (e ∷ []) w ≡ (returned, w)
        → Turns id listening ended ws ws'
        → WorkersStep
            (record { phase = phase; counter = counter; workers = ws; conn = c; world = w })
            (after_turn phase counter ws'
              (deferred_close json repo queue notifier conn (returned, w) c))
    -- the loop of a worker gets a delivery, and `handleMessage` decodes it
    hears :
        {phase : Phase} {counter id : ℕ} {ws ws' : List (ℕ × Stage)} {c : C} {w : World R Q N}
        (body : String)
        → Turns id listening (received (json.unmarshal body)) ws ws'
        → WorkersStep
            (record { phase = phase; counter = counter; workers = ws; conn = c; world = w })
            (record { phase = phase; counter = counter; workers = ws'; conn = c; world = w })
    -- the next call that `handleMessage` makes in a worker
    proceeds :
        {phase : Phase} {counter id : ℕ} {ws ws' : List (ℕ × Stage)} {c : C} {w : World R Q N}
        (now : Time) (g : Stage)
        → InHand g
        → Turns id g (proceed json repo queue notifier now g w).0 ws ws'
        → WorkersStep
            (record { phase = phase; counter = counter; workers = ws; conn = c; world = w })
            (record {
              phase = phase;
              counter = counter;
              workers = ws';
              conn = c;
              world = (proceed json repo queue notifier now g w).1;
            })
    -- a part of a call of the API or of another process, or what is outside
    elsewhere :
        {phase : Phase} {counter : ℕ} {ws : List (ℕ × Stage)} {c : C} {w w' : World R Q N}
        → Part json repo queue notifier parse_address w w'
        → WorkersStep
            (record { phase = phase; counter = counter; workers = ws; conn = c; world = w })
            (record { phase = phase; counter = counter; workers = ws; conn = c; world = w' })
    -- `wg.Wait()` returns
    returns :
        {ws : List (ℕ × Stage)} {c : C} {w : World R Q N}
        → WorkersStep
            (record { phase = Phase.waiting; counter = 0; workers = ws; conn = c; world = w })
            (record { phase = finished; counter = 0; workers = ws; conn = c; world = w })

  -- The runs of `Start`.
  pub data Started (c : C) (w : World R Q N) : Workers R Q N C → Type 0 where
    begun : Started c w (begin c w)
    goes_on : {s t : Workers R Q N C} → Started c w s → WorkersStep s t → Started c w t
