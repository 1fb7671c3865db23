-- ===== src/Tests/Loops.antt =====
-- Examples for the loop of a worker, for the pool of workers, and for both together.
use delayed_notifier.Prelude.{ℕ, suc, List, [], ◌∷◌}
use delayed_notifier.Prelude.Int.{pos}
use delayed_notifier.Go.Errors.{ok}
use delayed_notifier.Consumer.Worker.{Connection, Event, cancelled, delivered, run_worker}
use delayed_notifier.Consumer.Receives.{WorkerOutcome, worker_outcome}
use delayed_notifier.Consumer.Pool.{Phase}
use delayed_notifier.Consumer.Handler.{World}
use delayed_notifier.Consumer.Stages.{Stage, ended, received, proceed}
use delayed_notifier.Consumer.Start.{Workers}
use delayed_notifier.Domain.Model.{Notification}
use delayed_notifier.Postgres.Sql.{Database}
use delayed_notifier.Tests.Data.{repo, queue, notifier, json, parse_address, world}

-- A connection that counts its open channels.
abbrev connection : Connection ℕ
connection = record {
  channel = λ c. (ok tt, suc c);
  qos = λ _ c. (ok tt, c);
  consume = λ _ _ c. (ok tt, c);
  close = λ _. 0;
}

-- Two messages, the end of the context, and a message that comes too late.
abbrev events : List Event
events =
    delivered (pos 9) "3" ∷ delivered (pos 10) "garbage" ∷ cancelled ∷ delivered (pos 11) "4" ∷ []

worker_outcome_example :
    WorkerOutcome json repo queue notifier connection parse_address 1 events 0 world
      (run_worker json repo queue notifier connection 1 events (0, world))
worker_outcome_example =
    worker_outcome json repo queue notifier connection parse_address 1 events 0 world

abbrev At : Type 0
At = Stage × World Database (List Notification) (List Notification)

-- Where the worker stands from one call to the next, once it has the message of notification 3.
abbrev call : At → At
call x = proceed json repo queue notifier (pos 9) x.0 x.1

abbrev heard : At
heard = (received (json.unmarshal "3"), world)

abbrev state : Phase → ℕ → At → ℕ → Workers Database (List Notification) (List Notification) ℕ
state phase counter x conn = record {
  phase = phase;
  counter = counter;
  workers = (1, x.0) ∷ [];
  conn = conn;
  world = x.1;
}

-- The only worker is started, sets up, hears a message, sends it and stores that.
abbrev serving : Workers Database (List Notification) (List Notification) ℕ
serving = state Phase.waiting 1 (call (call (call heard))) 1

-- From there it acknowledges the message, and returns where the context is done.
abbrev last : Workers Database (List Notification) (List Notification) ℕ
last = state Phase.finished 0 (ended, (call (call (call (call heard)))).1) 0
