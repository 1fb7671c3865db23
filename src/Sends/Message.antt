-- ===== src/Sends/Message.antt =====
-- What `handleMessage` adds to the log of the sends.
use delayed_notifier.Prelude.{
  suc, ◌≤◌, ◌≡◌, refl, String, ◌∷◌, ⊤, inl, inr, ap, some, arith, str_eq, eq_iff, Bool-cases,
}
use delayed_notifier.Prelude.Int.{pos, ◌+ℤ◌, leb_ℤ, to_int64}
use delayed_notifier.Go.Errors.{Error, Result, Result-cases, ok, err}
use delayed_notifier.Go.Clock.{Time}
use delayed_notifier.Domain.Model.{Notification, status_scheduled, status_sent}
use delayed_notifier.Domain.Ports.{NotificationRepository, NotificationQueue, Notifier}
use delayed_notifier.Domain.Json.{JsonCodec}
use delayed_notifier.Domain.Contract.{Ensures-cases, LawfulRepository}
use delayed_notifier.Consumer.Ending.{notifier-update, notifier-publish}
use delayed_notifier.Consumer.Handler.{
  World, max_retries, handle_send_error, after_send, process, handle_message,
}
use delayed_notifier.Consumer.Paths.{lookup_error_drops, latest_not_scheduled, latest_scheduled}
use delayed_notifier.Consumer.Settlement.{settles_once, rejects_garbage}
use delayed_notifier.Consumer.Recorded.{Outcome, sent-Outcome}
use delayed_notifier.Sends.{Log, log_answer, logged, requeues}

module _ {R Q N : Type 0} (json : JsonCodec) (repo : NotificationRepository R)
    (queue : NotificationQueue Q) (notifier : Notifier N) where
  -- What follows a send leaves the notifier.
  pub notifier-after_send :
      (now : Time) (n : Notification) (w : World R Q N) (r : Result ⊤) (s : N)
      → (after_send json repo queue notifier now n w (r, s)).notifier ≡ s
  unfolding handle_send_error
  notifier-after_send now n w (ok u) s =
      notifier-update json repo queue notifier _ (record w { notifier = s })
  notifier-after_send now n w (err e) s =
      elim (Bool-cases (leb_ℤ max_retries (to_int64 (n.attempts +ℤ pos 1)))) [
        | inl last ↦
            rw last (notifier-update json repo queue notifier _ (record w { notifier = s }))
        | inr more ↦
            rw more (notifier-publish json repo queue notifier _ (record w { notifier = s }))
      ]

module _ {R Q N : Type 0} (json : JsonCodec) (repo : NotificationRepository R)
    (queue : NotificationQueue Q) (notifier : Notifier N) (L : LawfulRepository repo) where
  -- A send to a stored notification that is scheduled.
  abbrev pub Sends : Notification → Result ⊤ → World R Q (Log × N) → World R Q (Log × N) → Type 0
  Sends n r w w' =
      (w'.notifier.0 ≡ (n, r) ∷ w.notifier.0)
      × ((m : Notification) × (L.view w.repo n.id ≡ some m) × (m.status ≡ status_scheduled))

  -- What one call does to the log: nothing; or it adds a send that failed, one that succeeded and
  -- was stored, or one that succeeded with the message requeued.
  pub data Logs (w w' : World R Q (Log × N)) : Type 0 where
    quiet : w'.notifier.0 ≡ w.notifier.0 → requeues w ≤ requeues w' → Logs w w'
    failed :
        (n : Notification) (e : Error) → Sends n (err e) w w' → requeues w ≤ requeues w' → Logs w w'
    stored :
        (n m : Notification)
        → Sends n (ok tt) w w'
        → L.view w'.repo n.id ≡ some m
        → m.status ≡ status_sent
        → requeues w ≤ requeues w'
        → Logs w w'
    requeued :
        (n : Notification) → Sends n (ok tt) w w' → suc (requeues w) ≤ requeues w' → Logs w w'

  module _ (now : Time) (body : String) (w : World R Q (Log × N)) (valid : L.Valid w.repo) where
    abbrev handled : World R Q (Log × N)
    handled = handle_message json repo queue (logged notifier) now body w

    more_requeues : (n : Notification) → json.unmarshal body ≡ ok n → requeues w ≤ requeues handled
    more_requeues n decoded =
        let (a, e, _) = settles_once json repo queue (logged notifier) now body n w decoded in
        rw e (ground arith)

    module _ (n m : Notification) (s : R) (decoded : json.unmarshal body ≡ ok n)
        (good : repo.get_by_id n.id w.repo ≡ (ok m, s)) (found : L.view w.repo n.id ≡ some m)
        (scheduled : m.status ≡ status_scheduled) where
      log-handled :
          (r : Result ⊤) (t : N)
          → notifier.send n w.notifier.1 ≡ (r, t)
          → handled.notifier.0 ≡ (n, r) ∷ w.notifier.0
      unfolding process
      log-handled r t answer =
          rw
            (
              latest_scheduled json repo queue (logged notifier) now body n w decoded m s good
                  scheduled,
              answer,
            )
            (ap (λ (x : Log × N). x.0)
              (notifier-after_send json repo queue (logged notifier) now n (record w { repo = s }) r
                ((n, r) ∷ w.notifier.0, t)))

      by_store :
          (handled.notifier.0 ≡ (n, ok tt) ∷ w.notifier.0)
          → (y : Result ⊤ × R)
          → Outcome json repo queue
              (logged notifier)
              L
              (record n { status = status_sent; sent_at = some now })
              w
              handled
              y
          → Logs w handled
      by_store logged_ (ok u, s') (p, r, q) =
          stored n r.new (logged_, (m, found, scheduled)) r.is r.status (more_requeues n decoded)
      by_store logged_ (err e, s') (p, r, q) =
          requeued n (logged_, (m, found, scheduled)) (rw r.settled (omega arith))

      answered : (y : Result ⊤ × N) → notifier.send n w.notifier.1 ≡ y → Logs w handled
      answered (err e, t) answer =
          failed n e (log-handled (err e) t answer, (m, found, scheduled)) (more_requeues n decoded)
      answered (ok u, t) answer =
          by_store (log-handled (ok tt) t answer)
            (repo.update (record n { status = status_sent; sent_at = some now }) s)
            (sent-Outcome json repo queue (logged notifier) L now body n m w s
              ((n, ok tt) ∷ w.notifier.0, t) decoded valid good scheduled
              (ap (log_answer n w.notifier.0) answer))

    decoded-Logs : (n : Notification) → json.unmarshal body ≡ ok n → Logs w handled
    decoded-Logs n decoded =
        elim (Ensures-cases (repo.get_by_id n.id w.repo) (L.get_law w.repo n.id valid)) [
          | inr (e, s, bad, _) ↦
              quiet
                (ap (λ (v : World R Q (Log × N)). v.notifier.0)
                  (lookup_error_drops json repo queue (logged notifier) now body n w decoded e s
                    bad))
                (more_requeues n decoded)
          | inl (m, s, good, (_, read)) ↦ elim (Bool-cases (str_eq m.status status_scheduled)) [
            | inl yes_ ↦
                answered n m s decoded good read.found ((eq_iff m.status status_scheduled).0 yes_)
                  (notifier.send n w.notifier.1) refl
            | inr no_ ↦
                quiet
                  (ap (λ (v : World R Q (Log × N)). v.notifier.0)
                    (latest_not_scheduled json repo queue (logged notifier) now body n w decoded m s
                      good (λ h. ground (arith, (eq_iff m.status status_scheduled).1 h))))
                  (more_requeues n decoded)
          ]
        ]

    pub handle_message-Logs : Logs w handled
    handle_message-Logs = elim (Result-cases (json.unmarshal body)) [
      | inl (e, garbage) ↦
          rw (rejects_garbage json repo queue (logged notifier) now body e w garbage)
            (quiet refl (omega arith))
      | inr (n, decoded) ↦ decoded-Logs n decoded
    ]
