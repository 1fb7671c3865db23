-- ===== src/Consumer/Recorded.antt =====
-- What `handleMessage` stores after a send: `sent`, or `failed` after the last attempt.
use delayed_notifier.Prelude.{
  ◌≡◌, refl, true, List, ◌∷◌, String, inl, inr, ◌∙◌, sym, some, arith, ℕ, ◌<◌, ◌≤◌, suc, ⊤,
}
use delayed_notifier.Prelude.Int.{pos, to_int16}
use delayed_notifier.Go.Errors.{Error, Result, ok, err}
use delayed_notifier.Go.Clock.{Time}
use delayed_notifier.Domain.Model.{Notification, status_scheduled, status_sent, status_failed}
use delayed_notifier.Domain.Ports.{NotificationRepository, NotificationQueue, Notifier}
use delayed_notifier.Domain.Json.{JsonCodec}
use delayed_notifier.Domain.Contract.{
  View, Same, core, has_sent_at, Ensures-cases, LawfulRepository,
}
use delayed_notifier.Service.{update_notification}
use delayed_notifier.Consumer.Handler.{
  Settlement, acked, nacked, World, after_send, process, update_then_settle, handle_message,
}
use delayed_notifier.Consumer.Paths.{latest_scheduled}
use delayed_notifier.Consumer.Retry.{send_error_gives_up}

-- The stored notification has the content that it had, the status and the counter of `n`, and a
-- sending time where `n` has one; the message is acknowledged.
pub record Recorded (n : Notification) (v v' : View) (before after : List Settlement) : Type 0 where
  pub old : Notification
  pub new : Notification
  pub was : v n.id ≡ some old
  pub is : v' n.id ≡ some new
  pub status : new.status ≡ n.status
  pub attempts : new.attempts ≡ to_int16 n.attempts
  pub sent : has_sent_at new ≡ has_sent_at n
  pub kept : core new ≡ core old
  pub settled : after ≡ acked ∷ before

-- Nothing is stored, and the message is requeued.
pub record Requeued (v v' : View) (before after : List Settlement) : Type 0 where
  pub same : Same v v'
  pub settled : after ≡ nacked true ∷ before

module _ {R Q N : Type 0} (json : JsonCodec) (repo : NotificationRepository R)
    (queue : NotificationQueue Q) (notifier : Notifier N) where
  pub update_ok :
      (n : Notification) (w : World R Q N) (s : R)
      → repo.update n w.repo ≡ (ok tt, s)
      → update_then_settle json repo queue notifier n w
        ≡ record w { repo = s; settled = acked ∷ w.settled }
  unfolding update_notification
  update_ok n w s done = ground arith

  pub update_err :
      (n : Notification) (w : World R Q N) (e : Error) (s : R)
      → repo.update n w.repo ≡ (err e, s)
      → update_then_settle json repo queue notifier n w
        ≡ record w { repo = s; settled = nacked true ∷ w.settled }
  unfolding update_notification
  update_err n w e s bad = ground arith

  module _ (L : LawfulRepository repo) where
    -- By what the store answered to the update.
    abbrev pub Outcome : Notification → World R Q N → World R Q N → Result ⊤ × R → Type 0
    Outcome n w w' (ok u, s') =
        (w'.repo ≡ s')
        × Recorded n (L.view w.repo) (L.view w'.repo) w.settled w'.settled
        × (w'.queue ≡ w.queue)
    Outcome n w w' (err e, s') =
        (w'.repo ≡ s')
        × Requeued (L.view w.repo) (L.view w'.repo) w.settled w'.settled
        × (w'.queue ≡ w.queue)

    pub update-Outcome :
        (n : Notification) (w : World R Q N)
        → L.Valid w.repo
        → Outcome n w (update_then_settle json repo queue notifier n w) (repo.update n w.repo)
    update-Outcome n w valid =
        elim (Ensures-cases (repo.update n w.repo) (L.update_law w.repo n valid)) [
          | inl (u, s, done, (_, changed)) ↦ rw (update_ok n w s done) (
              rw done (
                refl,
                record {
                  old = changed.old;
                  new = changed.new;
                  was = changed.before;
                  is = changed.after;
                  status = changed.related.status;
                  attempts = changed.related.attempts;
                  sent = changed.related.sent;
                  kept = changed.related.kept;
                  settled = refl;
                },
                refl,
              ))
          | inr (e, s, bad, (_, refused)) ↦
              rw (update_err n w e s bad)
                (rw bad (refl, record { same = refused.same; settled = refl }, refl))
        ]

    -- The same, seen from the state before the lookup and the send.
    from_before :
        (n : Notification) (w w' : World R Q N) (s : R) (t : N) (x : Result ⊤ × R)
        → Same (L.view w.repo) (L.view s)
        → Outcome n (record w { repo = s; notifier = t }) w' x
        → Outcome n w w' x
    from_before n w w' s t (ok u, s') same (p, r, q) = (
      p,
      record {
        old = r.old;
        new = r.new;
        was = sym (same n.id) ∙ r.was;
        is = r.is;
        status = r.status;
        attempts = r.attempts;
        sent = r.sent;
        kept = r.kept;
        settled = r.settled;
      },
      q,
    )
    from_before n w w' s t (err e, s') same (p, r, q) =
        (p, record { same = λ j. r.same j ∙ same j; settled = r.settled }, q)

    module _ (now : Time) (body : String) (n m : Notification) (w : World R Q N) (s : R) (t : N)
        (decoded : json.unmarshal body ≡ ok n) (valid : L.Valid w.repo)
        (good : repo.get_by_id n.id w.repo ≡ (ok m, s))
        (scheduled : m.status ≡ status_scheduled) where
      read : L.Valid s × Same (L.view w.repo) (L.view s)
      read = let (v, r) = (rw good at (L.get_law w.repo n.id valid)) in (v, r.same)

      recorded :
          (k : Notification)
          → Outcome k w
              (update_then_settle json repo queue notifier k (record w { repo = s; notifier = t }))
              (repo.update k s)
      recorded k =
          let w' : World R Q N = record w { repo = s; notifier = t } in
          from_before k w (update_then_settle json repo queue notifier k w') s t (repo.update k s)
            read.1 (update-Outcome k w' read.0)

      -- Where the stored notification is scheduled and the notifier sends the message without an
      -- error, over a repository that keeps its contract, a worker stores the status `sent` and a
      -- sending time, keeping the content, and acknowledges the message; where that cannot be
      -- stored, nothing is and the message is requeued. Nothing is published.
      pub sent-Outcome :
          notifier.send n w.notifier ≡ (ok tt, t)
          → Outcome
              (record n { status = status_sent; sent_at = some now })
              w
              (handle_message json repo queue notifier now body w)
              (repo.update (record n { status = status_sent; sent_at = some now }) s)
      unfolding process
      sent-Outcome sent =
          rw
            (
              latest_scheduled json repo queue notifier now body n w decoded m s good scheduled,
              sent,
              after_send,
            )
            (recorded (record n { status = status_sent; sent_at = some now }))

      -- Where the send of a scheduled notification whose message counts k attempts fails, 4 <= k <
      -- 2 ^ 63 - 1, over a repository that keeps its contract, a worker stores the status `failed`
      -- and k + 1 attempts, as an int16, keeping the content, and acknowledges the message; where
      -- that cannot be stored, nothing is and the message is requeued. Nothing is published.
      pub failed-Outcome :
          (e : Error) (k : ℕ)
          → notifier.send n w.notifier ≡ (err e, t)
          → n.attempts ≡ pos k
          → 4 ≤ k
          → k < 9223372036854775807
          → Outcome
              (record n { attempts = pos (suc k); status = status_failed })
              w
              (handle_message json repo queue notifier now body w)
              (repo.update (record n { attempts = pos (suc k); status = status_failed }) s)
      unfolding process
      failed-Outcome e k bad counted many fits =
          rw
            (
              latest_scheduled json repo queue notifier now body n w decoded m s good scheduled,
              bad,
              after_send,
            )
            (rw
              (send_error_gives_up json repo queue notifier n (record w { repo = s; notifier = t })
                k counted many fits)
              (recorded (record n { attempts = pos (suc k); status = status_failed })))
