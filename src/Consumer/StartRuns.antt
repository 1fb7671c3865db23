-- ===== src/Consumer/StartRuns.antt =====
-- The runs of `Start` with what its goroutines do, seen as those of Consumer/Pool and of System.
use delayed_notifier.Prelude.{
  ℕ, suc, ◌≡◌, ◌∙◌, Bool-cases, str_eq, refl, sym, subst, ap, inl, inr, String, List, [], ◌∷◌, map,
  ⊤,
}
use delayed_notifier.Go.Errors.{Result, ok, err}
use delayed_notifier.Domain.Ports.{NotificationRepository, NotificationQueue, Notifier}
use delayed_notifier.Domain.Json.{JsonCodec}
use delayed_notifier.Consumer.Handler.{World}
use delayed_notifier.Consumer.Worker.{
  Connection, Status, returned, waiting, receive, run_worker, after_consume, after_qos,
  after_channel, worker_tag,
}
use delayed_notifier.Consumer.Receives.{length}
use delayed_notifier.Consumer.Pool.{Goroutine, running, done, Pool, Phase, Finishes, Run, PoolStep}
use delayed_notifier.Consumer.PoolInvariant.{alive}
use delayed_notifier.Consumer.Start.{
  InHand, stage, count_down, Workers, Turns, this, other, WorkersStep, spawns, waits, sets_up,
  leaves, hears, proceeds, elsewhere, returns, Started, begun, goes_on,
}
use delayed_notifier.Consumer.Stages.{
  Stage, starting, listening, ended, looking, sending, answered, settling, received, checked,
  proceed,
}
use delayed_notifier.Domain.Model.{Notification, status_scheduled}
use delayed_notifier.Go.Clock.{Time}
use delayed_notifier.Rabbit.Topology.{notifications_queue}

-- A goroutine as Consumer/Pool sees it.
abbrev pub seen : ℕ × Stage → Goroutine
seen (id, ended) = done
seen (id, _) = running

abbrev pub pool_of : {R Q N C : Type 0} → Workers R Q N C → Pool
pool_of s = record { phase = s.phase; counter = s.counter; workers = map seen s.workers }

Turns-ends :
    {id : ℕ} {from : Stage} {ws ws' : List (ℕ × Stage)}
    → seen (id, from) ≡ running
    → Turns id from ended ws ws'
    → Finishes (map seen ws) (map seen ws')
Turns-ends {from = from} e (this {ws}) =
    subst (λ (g : Goroutine). Finishes (g ∷ map seen ws) (done ∷ map seen ws)) (sym e) Finishes.this
Turns-ends e (other t) = Finishes.other (Turns-ends e t)

Turns-goes_on :
    {id : ℕ} {from to : Stage} {ws ws' : List (ℕ × Stage)}
    → seen (id, from) ≡ seen (id, to)
    → Turns id from to ws ws'
    → map seen ws ≡ map seen ws'
Turns-goes_on e (this {ws}) = ap (λ (g : Goroutine). g ∷ map seen ws) e
Turns-goes_on e (other {g = g} t) = ap (λ (gs : List Goroutine). seen g ∷ gs) (Turns-goes_on e t)

-- All the workers that were to start were started, and each has returned.
abbrev pub AllReturned : ℕ → List (ℕ × Stage) → Type 0
AllReturned worker_count ws = (length (map seen ws) ≡ worker_count) × (alive (map seen ws) ≡ 0)

module _ (worker_count : ℕ) where
  -- The pools that the runs of `Start` reach.
  abbrev pub Reached : Pool → Type 0
  Reached p = (k : ℕ) × Run worker_count k p

  further : {p p' : Pool} → Reached p → PoolStep worker_count p p' → Reached p'
  further (k, r) st = (suc k, Run.goes_on r st)

  goes-Reached :
      {phase : Phase} {counter id : ℕ} {from to : Stage} {ws ws' : List (ℕ × Stage)}
      → seen (id, from) ≡ seen (id, to)
      → Turns id from to ws ws'
      → Reached (record { phase = phase; counter = counter; workers = map seen ws })
      → Reached (record { phase = phase; counter = counter; workers = map seen ws' })
  goes-Reached {phase} {counter} e t r =
      subst
        (λ (gs : List Goroutine).
          Reached (record { phase = phase; counter = counter; workers = gs }))
        (Turns-goes_on e t) r

  turn-Reached :
      (st : Status) {phase : Phase} {counter id : ℕ} {from : Stage} {ws ws' : List (ℕ × Stage)}
      → seen (id, from) ≡ running
      → Turns id from (stage st) ws ws'
      → Reached (record { phase = phase; counter = counter; workers = map seen ws })
      → Reached (record { phase = phase; counter = count_down st counter; workers = map seen ws' })
  turn-Reached returned e t r = further r (PoolStep.finishes (Turns-ends e t))
  turn-Reached waiting e t r = goes-Reached e t r

-- A worker is running as long as it has a message.
running_with : (id : ℕ) (g : Stage) → InHand g → seen (id, g) ≡ running
running_with id (looking n) h = refl
running_with id (sending n) h = refl
running_with id (answered n x) h = refl
running_with id (settling a) h = refl
running_with id starting h = absurd h
running_with id listening h = absurd h
running_with id ended h = absurd h

running_received : (id : ℕ) (x : Result Notification) → running ≡ seen (id, received x)
running_received id (ok n) = refl
running_received id (err e) = refl

running_checked :
    (id : ℕ) (n : Notification) (x : Result Notification) → seen (id, checked n x) ≡ running
running_checked id n (err e) = refl
running_checked id n (ok m) = elim (Bool-cases (str_eq m.status status_scheduled)) [
  | inl same ↦ rw same refl
  | inr differs ↦ rw differs refl
]

module _ {R Q N C : Type 0} (json : JsonCodec) (repo : NotificationRepository R)
    (queue : NotificationQueue Q) (notifier : Notifier N) (conn : Connection C)
    (parse_address : String → Result ⊤) where
  -- A worker has changed nothing but its channel before its first event.
  world-consume :
      (w : World R Q N) (y : Result ⊤ × C)
      → (after_consume json repo queue notifier conn [] w y).1.1 ≡ w
  unfolding receive
  world-consume w (err e, c) = refl
  world-consume w (ok u, c) = refl

  world-qos :
      (id : ℕ) (w : World R Q N) (y : Result ⊤ × C)
      → (after_qos json repo queue notifier conn id [] w y).1.1 ≡ w
  world-qos id w (err e, c) = refl
  world-qos id w (ok u, c) = world-consume w (conn.consume notifications_queue (worker_tag id) c)

  pub world-set_up :
      (id : ℕ) (w : World R Q N) (y : Result ⊤ × C)
      → (after_channel json repo queue notifier conn id [] w y).1.1 ≡ w
  world-set_up id w (err e, c) = refl
  world-set_up id w (ok u, c) = world-qos id w (conn.qos 1 c)

  running_proceed :
      (id : ℕ) (now : Time) (g : Stage) (w : World R Q N)
      → InHand g
      → seen (id, (proceed json repo queue notifier now g w).0) ≡ running
  running_proceed id now (looking n) w h = running_checked id n (repo.get_by_id n.id w.repo).0
  running_proceed id now (sending n) w h = refl
  running_proceed id now (answered n x) w h = refl
  running_proceed id now (settling a) w h = refl
  running_proceed id now starting w h = absurd h
  running_proceed id now listening w h = absurd h
  running_proceed id now ended w h = absurd h

  module _ (worker_count : ℕ) where
    abbrev Seen : Workers R Q N C → Type 0
    Seen s = Reached worker_count (pool_of s)

    WorkersStep-Seen :
        {s t : Workers R Q N C}
        → WorkersStep json repo queue notifier conn parse_address worker_count s t
        → Seen s
        → Seen t
    WorkersStep-Seen (spawns h) r = further worker_count r (PoolStep.spawns h)
    WorkersStep-Seen (waits h) r = further worker_count r (PoolStep.waits h)
    WorkersStep-Seen (sets_up {id = id} {c = c} {w = w} t) r =
        turn-Reached worker_count (run_worker json repo queue notifier conn id [] (c, w)).0 refl t r
    WorkersStep-Seen (leaves e h t) r = turn-Reached worker_count returned refl t r
    WorkersStep-Seen (hears {id = id} body t) r =
        goes-Reached worker_count (running_received id (json.unmarshal body)) t r
    WorkersStep-Seen (proceeds {id = id} {w = w} now g h t) r =
        goes-Reached worker_count (running_with id g h ∙ sym (running_proceed id now g w h)) t r
    WorkersStep-Seen (elsewhere st) r = r
    WorkersStep-Seen returns r = further worker_count r PoolStep.returns

    -- The run of the goroutines is one of the pool of workers alone; where `Start` has returned, all
    -- its workers have been started and have returned.
    pub Started-Reached :
        {c0 : C} {w0 : World R Q N} {s : Workers R Q N C}
        → Started json repo queue notifier conn parse_address worker_count c0 w0 s
        → Reached worker_count (pool_of s)
    Started-Reached begun = (0, Run.begun)
    Started-Reached (goes_on r st) = WorkersStep-Seen st (Started-Reached r)
