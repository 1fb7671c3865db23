-- ===== src/Consumer/Receives.antt =====
-- What a worker does with the events that it gets.
use delayed_notifier.Prelude.{ℕ, suc, ◌+◌, ◌≡◌, refl, String, List, [], ◌∷◌, ⊤, arith, inl, inr, ap}
use delayed_notifier.Go.Errors.{Error, Result, ok, err, Result-cases}
use delayed_notifier.Go.Clock.{Time}
use delayed_notifier.Domain.Ports.{NotificationRepository, NotificationQueue, Notifier}
use delayed_notifier.Domain.Json.{JsonCodec}
use delayed_notifier.Consumer.Handler.{Settlement, World, handle_message}
use delayed_notifier.Consumer.Settlement.{settles_once, rejects_garbage}
use delayed_notifier.Consumer.Worker.{
  Connection, Event, cancelled, closed, delivered, Status, returned, waiting, receive, run_worker,
  deferred_close, after_consume, after_qos, after_channel, worker_tag,
}
use delayed_notifier.Rabbit.Topology.{notifications_queue}
use delayed_notifier.System.{Call, Step, Reach}

-- The deliveries before the first event that ends the loop.
abbrev pub heard : List Event → List (Time × String)
heard [] = []
heard (cancelled ∷ es) = []
heard (closed ∷ es) = []
heard (delivered now body ∷ es) = (now, body) ∷ heard es

-- Whether some event ends the loop.
abbrev pub ends : List Event → Status
ends [] = waiting
ends (cancelled ∷ es) = returned
ends (closed ∷ es) = returned
ends (delivered now body ∷ es) = ends es

abbrev pub length {ℓ} : {A : Type ℓ} → List A → ℕ
length [] = 0
length (x ∷ xs) = suc (length xs)

module _ {R Q N C : Type 0} (json : JsonCodec) (repo : NotificationRepository R)
    (queue : NotificationQueue Q) (notifier : Notifier N) (conn : Connection C) where
  -- The messages, one after the other.
  abbrev pub handle_all : List (Time × String) → World R Q N → World R Q N
  handle_all [] w = w
  handle_all ((now, body) ∷ ms) w =
      handle_all ms (handle_message json repo queue notifier now body w)

  receive-eq :
      (es : List Event) (w : World R Q N)
      → receive json repo queue notifier conn es w ≡ (ends es, handle_all (heard es) w)
  unfolding receive
  receive-eq [] w = refl
  receive-eq (cancelled ∷ es) w = refl
  receive-eq (closed ∷ es) w = refl
  receive-eq (delivered now body ∷ es) w =
      receive-eq es (handle_message json repo queue notifier now body w)

  settles_one :
      (now : Time) (body : String) (w : World R Q N)
      → length (handle_message json repo queue notifier now body w).settled ≡ suc (length w.settled)
  settles_one now body w = elim (Result-cases (json.unmarshal body)) [
    | inl (e, garbage) ↦
        ap (λ (v : World R Q N). length v.settled)
          (rejects_garbage json repo queue notifier now body e w garbage)
    | inr (n, decoded) ↦
        let (a, e, _) = settles_once json repo queue notifier now body n w decoded in
        ap (λ (l : List Settlement). length l) e
  ]

  settles_all :
      (ms : List (Time × String)) (w : World R Q N)
      → length (handle_all ms w).settled ≡ length ms + length w.settled
  settles_all [] w = omega arith
  settles_all ((now, body) ∷ ms) w = omega (
    arith,
    settles_all ms (handle_message json repo queue notifier now body w),
    settles_one now body w,
  )

  module _ (parse_address : String → Result ⊤) where
    handle_all-Reach :
        (ms : List (Time × String)) (u w : World R Q N)
        → Reach json repo queue notifier parse_address u w
        → Reach json repo queue notifier parse_address u (handle_all ms w)
    handle_all-Reach [] u w r = r
    handle_all-Reach ((now, body) ∷ ms) u w r =
        handle_all-Reach ms u (handle_message json repo queue notifier now body w)
          (Reach.next r (Step.calls (Call.handles w now body)))

    -- The channel that a worker leaves: closed where it has returned.
    abbrev pub left : Status → C → C
    left returned c = conn.close c
    left waiting c = c

    -- What a worker has done, by how far it came.
    pub data WorkerOutcome (worker_id : ℕ) (es : List Event) (c : C) (w : World R Q N)
        (x : Status × (C × World R Q N)) : Type 0 where
      unopened :
          (e : Error) (c1 : C)
          → conn.channel c ≡ (err e, c1)
          → x ≡ (returned, (c1, w))
          → WorkerOutcome worker_id es c w x
      unlimited :
          (e : Error) (c1 c2 : C)
          → conn.channel c ≡ (ok tt, c1)
          → conn.qos 1 c1 ≡ (err e, c2)
          → x ≡ (returned, (conn.close c2, w))
          → WorkerOutcome worker_id es c w x
      unregistered :
          (e : Error) (c1 c2 c3 : C)
          → conn.channel c ≡ (ok tt, c1)
          → conn.qos 1 c1 ≡ (ok tt, c2)
          → conn.consume notifications_queue (worker_tag worker_id) c2 ≡ (err e, c3)
          → x ≡ (returned, (conn.close c3, w))
          → WorkerOutcome worker_id es c w x
      served :
          (c1 c2 c3 : C)
          → conn.channel c ≡ (ok tt, c1)
          → conn.qos 1 c1 ≡ (ok tt, c2)
          → conn.consume notifications_queue (worker_tag worker_id) c2 ≡ (ok tt, c3)
          → x.0 ≡ ends es
          → x.1.0 ≡ left (ends es) c3
          → x.1.1 ≡ handle_all (heard es) w
          → length x.1.1.settled ≡ length (heard es) + length w.settled
          → Reach json repo queue notifier parse_address w x.1.1
          → WorkerOutcome worker_id es c w x

    deferred_close-eq :
        (st : Status) (c : C) (w : World R Q N)
        → deferred_close json repo queue notifier conn (st, w) c ≡ (st, (left st c, w))
    deferred_close-eq returned c w = refl
    deferred_close-eq waiting c w = refl

    -- A worker returns at once, and handles nothing, where its channel cannot be opened, limited or
    -- registered, and closes the channel that it opened. Otherwise it has returned exactly if some
    -- event so far ended its loop, and has then closed its channel; it has handled the messages
    -- before that event, each with its body, one after the other and no other, with one answer to
    -- the broker for each; and the system is in a state that the calls of the API and the workers
    -- reach.
    pub worker_outcome :
        (worker_id : ℕ) (es : List Event) (c : C) (w : World R Q N)
        → WorkerOutcome worker_id es c w
            (run_worker json repo queue notifier conn worker_id es (c, w))
    unfolding run_worker
    worker_outcome worker_id es c w = go1 (conn.channel c) refl
      where
        go3 :
            (c1 c2 : C) (y : Result ⊤ × C)
            → conn.channel c ≡ (ok tt, c1)
            → conn.qos 1 c1 ≡ (ok tt, c2)
            → conn.consume notifications_queue (worker_tag worker_id) c2 ≡ y
            → WorkerOutcome worker_id es c w (after_consume json repo queue notifier conn es w y)
        go3 c1 c2 (err e, c3) o q r = WorkerOutcome.unregistered e c1 c2 c3 o q r refl
        go3 c1 c2 (ok u, c3) o q r = rw (receive-eq es w) (
            rw (deferred_close-eq (ends es) c3 (handle_all (heard es) w)) (
              WorkerOutcome.served c1 c2 c3 o q r refl refl refl (settles_all (heard es) w)
                (handle_all-Reach (heard es) w w Reach.here)))

        go2 :
            (c1 : C) (y : Result ⊤ × C)
            → conn.channel c ≡ (ok tt, c1)
            → conn.qos 1 c1 ≡ y
            → WorkerOutcome worker_id es c w
                (after_qos json repo queue notifier conn worker_id es w y)
        go2 c1 (err e, c2) o q = WorkerOutcome.unlimited e c1 c2 o q refl
        go2 c1 (ok u, c2) o q =
            go3 c1 c2 (conn.consume notifications_queue (worker_tag worker_id) c2) o q refl

        go1 :
            (y : Result ⊤ × C)
            → conn.channel c ≡ y
            → WorkerOutcome worker_id es c w
                (after_channel json repo queue notifier conn worker_id es w y)
        go1 (err e, c1) o = WorkerOutcome.unopened e c1 o refl
        go1 (ok u, c1) o = go2 c1 (conn.qos 1 c1) o refl
