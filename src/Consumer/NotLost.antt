-- ===== src/Consumer/NotLost.antt =====
-- What is left of a notification once one of its messages is handled.
use delayed_notifier.Prelude.{
  ◌≡◌, ◌≢◌, refl, true, ◌∷◌, String, inl, inr, some, arith, str_eq, eq_iff, ◌⊎◌, Bool-cases, sym,
  ◌∙◌, ⊤,
}
use delayed_notifier.Prelude.Int.{pos, ◌+ℤ◌, leb_ℤ, to_int64}
use delayed_notifier.Go.Errors.{Error, Result, ok, err}
use delayed_notifier.Go.Clock.{Time, Duration}
use delayed_notifier.Domain.Model.{Uuid, Notification, status_scheduled}
use delayed_notifier.Domain.Ports.{NotificationRepository, NotificationQueue, Notifier}
use delayed_notifier.Domain.Json.{JsonCodec}
use delayed_notifier.Domain.Contract.{Same, SameBut, Ensures-cases, LawfulRepository}
use delayed_notifier.Domain.Status.{IsFinal, IsFinal-ne-scheduled}
use delayed_notifier.Consumer.Backoff.{calculate_exponential_backoff}
use delayed_notifier.Consumer.Handler.{
  acked, nacked, World, max_retries, update_then_settle, publish_then_settle, handle_send_error,
  after_send, process, handle_message,
}
use delayed_notifier.Consumer.Paths.{latest_scheduled, latest_not_scheduled}
use delayed_notifier.Consumer.Recorded.{update_ok, update_err}

module _ {R Q N : Type 0} (json : JsonCodec) (repo : NotificationRepository R)
    (queue : NotificationQueue Q) (notifier : Notifier N) (L : LawfulRepository repo) where
  -- The queue took nothing.
  abbrev pub NothingTaken : World R Q N → World R Q N → Type 0
  NothingTaken w w' =
      (w'.queue ≡ w.queue)
      ⊎ ((k : Notification) × (d : Duration) × (e : Error) × (queue.publish_retry k d w.queue
            ≡ (err e, w'.queue)))

  -- How the handling of a message of that notification ended.
  pub data NotLost (id : Uuid) (w w' : World R Q N) : Type 0 where
    over :
        (m : Notification)
        → SameBut id (L.view w.repo) (L.view w'.repo)
        → L.view w'.repo id ≡ some m
        → m.status ≢ status_scheduled
        → w'.queue ≡ w.queue
        → w'.settled ≡ acked ∷ w.settled
        → NotLost id w w'
    retried :
        (k : Notification) (d : Duration)
        → Same (L.view w.repo) (L.view w'.repo)
        → k.id ≡ id
        → queue.publish_retry k d w.queue ≡ (ok tt, w'.queue)
        → w'.settled ≡ acked ∷ w.settled
        → NotLost id w w'
    requeued :
        Same (L.view w.repo) (L.view w'.repo)
        → NothingTaken w w'
        → w'.settled ≡ nacked true ∷ w.settled
        → NotLost id w w'

  update-NotLost :
      (n : Notification) (w : World R Q N)
      → L.Valid w.repo
      → IsFinal n.status
      → NotLost n.id w (update_then_settle json repo queue notifier n w)
  update-NotLost n w valid final =
      elim (Ensures-cases (repo.update n w.repo) (L.update_law w.repo n valid)) [
        | inl (u, s, done, (_, changed)) ↦ rw (update_ok json repo queue notifier n w s done) (
            over changed.new changed.others changed.after
              (λ h. IsFinal-ne-scheduled final (sym changed.related.status ∙ h)) refl refl)
        | inr (e, s, bad, (_, refused)) ↦
            rw (update_err json repo queue notifier n w e s bad)
              (requeued refused.same (inl refl) refl)
      ]

  publish-NotLost :
      (n : Notification) (w : World R Q N)
      → NotLost n.id w (publish_then_settle json repo queue notifier n w)
  publish-NotLost n w = go (queue.publish_retry n d w.queue) refl
    where
      d : Duration
      d = calculate_exponential_backoff n.attempts

      took_eq :
          (q : Q)
          → queue.publish_retry n d w.queue ≡ (ok tt, q)
          → publish_then_settle json repo queue notifier n w
            ≡ record w { queue = q; settled = acked ∷ w.settled }
      took_eq q took = ground arith

      refused_eq :
          (e : Error) (q : Q)
          → queue.publish_retry n d w.queue ≡ (err e, q)
          → publish_then_settle json repo queue notifier n w
            ≡ record w { queue = q; settled = nacked true ∷ w.settled }
      refused_eq e q refused = ground arith

      go :
          (x : Result ⊤ × Q)
          → queue.publish_retry n d w.queue ≡ x
          → NotLost n.id w (publish_then_settle json repo queue notifier n w)
      go (ok u, q) took = rw (took_eq q took) (retried n d (λ j. refl) refl took refl)
      go (err e, q) refused =
          rw (refused_eq e q refused) (requeued (λ j. refl) (inr (n, d, e, refused)) refl)

  error-NotLost :
      (n : Notification) (w : World R Q N)
      → L.Valid w.repo
      → NotLost n.id w (handle_send_error json repo queue notifier n w)
  unfolding handle_send_error
  error-NotLost n w valid = elim (Bool-cases (leb_ℤ max_retries (to_int64 (n.attempts +ℤ pos 1)))) [
    | inl last ↦ rw last (update-NotLost _ w valid (IsFinal.failed refl))
    | inr more ↦ rw more (publish-NotLost _ w)
  ]

  pub after_send-NotLost :
      (now : Time) (n : Notification) (w : World R Q N) (r : Result ⊤) (t : N)
      → L.Valid w.repo
      → NotLost n.id
          (record w { notifier = t })
          (after_send json repo queue notifier now n w (r, t))
  after_send-NotLost now n w (ok u) t valid =
      update-NotLost _ (record w { notifier = t }) valid (IsFinal.sent refl)
  after_send-NotLost now n w (err e) t valid = error-NotLost n (record w { notifier = t }) valid

  -- The same, seen from the state before the lookup and the send.
  from_read :
      (id : Uuid) (w w' : World R Q N) (s : R) (t : N)
      → Same (L.view w.repo) (L.view s)
      → NotLost id (record w { repo = s; notifier = t }) w'
      → NotLost id w w'
  from_read id w w' s t same (over m others is final queue_same settled) =
      over m (λ j ne. others j ne ∙ same j) is final queue_same settled
  from_read id w w' s t same (retried k d kept here took settled) =
      retried k d (λ j. kept j ∙ same j) here took settled
  from_read id w w' s t same (requeued kept nothing settled) =
      requeued (λ j. kept j ∙ same j) nothing settled

  -- Over a repository that keeps its contract, where the lookup of the notification succeeds, a
  -- message is acknowledged only where the notification is then stored with another status than
  -- `scheduled`, or where the queue took it to be retried; else it is requeued, and the
  -- notification is stored as before.
  pub not_lost :
      (now : Time) (body : String) (n m : Notification) (w : World R Q N) (s : R)
      → L.Valid w.repo
      → json.unmarshal body ≡ ok n
      → repo.get_by_id n.id w.repo ≡ (ok m, s)
      → NotLost n.id w (handle_message json repo queue notifier now body w)
  unfolding process
  not_lost now body n m w s valid decoded good =
      let (valid', read) = (rw good at (L.get_law w.repo n.id valid)) in
      elim (Bool-cases (str_eq m.status status_scheduled)) [
        | inr other ↦
            let final : m.status ≢ status_scheduled =
              λ h. ground (arith, (eq_iff m.status status_scheduled).1 h) in
            rw (latest_not_scheduled json repo queue notifier now body n w decoded m s good final)
              (over m (λ j _. read.same j) (read.same n.id ∙ read.found) final refl refl)
        | inl same ↦
            rw
              (latest_scheduled json repo queue notifier now body n w decoded m s good
                ((eq_iff m.status status_scheduled).0 same))
              (from_read n.id w _ s (notifier.send n w.notifier).1 read.same (
                after_send-NotLost now n (record w { repo = s }) (notifier.send n w.notifier).0
                  (notifier.send n w.notifier).1 valid'))
      ]
