-- ===== src/Mail/Kept.antt =====
-- The messages that the broker holds, beside the notifications that are stored.
use native.Mathlib.Decide.{ℕ_discrete}
use delayed_notifier.Prelude.{
  ◌≡◌, ◌≢◌, refl, String, List, [], ◌∷◌, ⊤, inl, inr, ap, sym, ◌∙◌, arith, subst, Bool-cases,
  str_eq,
}
use delayed_notifier.Prelude.Membership.{Member, here, there}
use delayed_notifier.Go.Errors.{Error, Result, Result-cases, ok, err}
use delayed_notifier.Go.Clock.{Time}
use delayed_notifier.Domain.Model.{Uuid, Notification, Fresh, status_scheduled}
use delayed_notifier.Domain.Ports.{NotificationRepository, NotificationQueue, Notifier}
use delayed_notifier.Domain.Json.{JsonCodec}
use delayed_notifier.Domain.Contract.{Ensures-cases, LawfulRepository}
use delayed_notifier.Domain.Status.{IsFinal, IsFinal-ne-scheduled}
use delayed_notifier.Service.{
  CreateInput, create_notification, get_notification_by_id, cancel_notification,
}
use delayed_notifier.Service.Created.{CreateOutcome, create_outcome}
use delayed_notifier.Service.Cancel.{CancelOutcome, cancel_outcome}
use delayed_notifier.Consumer.Handler.{Settlement, acked, nacked, World, handle_message}
use delayed_notifier.Consumer.NotLost.{NotLost, over, retried, requeued, not_lost}
use delayed_notifier.System.{Call, Call-moves}
use delayed_notifier.Mail.{holding, answered, Turn, Turns}
use delayed_notifier.Mail.Held.{
  AllHeld, take_away_head, Same-AllHeld, SameBut-AllHeld, added-ok, added-err,
}

module _ {R Q N : Type 0} (json : JsonCodec) (repo : NotificationRepository R)
    (queue : NotificationQueue Q) (notifier : Notifier N) (parse_address : String → Result ⊤)
    (L : LawfulRepository repo)
    (publishes : (now : Time) (n : Notification) (q : Q)
      → (q' : Q) × (queue.publish now n q ≡ (ok tt, q'))) where
  abbrev W : Type 0
  W = World R (List Uuid × Q) N

  abbrev Held : W → Type 0
  Held w = AllHeld (L.view w.repo) w.queue.0

  holding_takes :
      (now : Time) (n : Notification) (x : List Uuid × Q) (b : Error) (y : List Uuid × Q)
      → (holding queue).publish now n x ≢ (err b, y)
  holding_takes now n x b y e = let (q', took) = publishes now n x.1 in cc (rw took at e)

  created-Held :
      (fresh : Fresh) (now : Time) (i : CreateInput) (s : R × (List Uuid × Q))
      (x : Result Notification × (R × (List Uuid × Q)))
      → CreateOutcome repo (holding queue) L parse_address fresh now i s x
      → AllHeld (L.view s.0) s.1.0
      → AllHeld (L.view x.1.0) x.1.1.0
  created-Held fresh now i (r, q) (ok c, (r', q')) ((n, _, built, added), took) h =
      subst (AllHeld (L.view r')) (sym (added-ok c.id q.0 (queue.publish now c q.1) q' took))
        (λ j m was scheduled. elim (ℕ_discrete j c.id) [
          | yes same ↦ rw same here
          | no ne ↦ there (h j m (sym (added.others j ne) ∙ was) scheduled)
        ])
  created-Held fresh now i (r, q) (err e, (r', q')) (inl (_, same, untouched)) h =
      rw untouched (Same-AllHeld same h)
  created-Held fresh now i (r, q) (err e, (r', q')) (inr (c, e', _, bad)) h =
      absurd (holding_takes now c q e' q' bad)

  cancelled-Held :
      (id : Uuid) (s : R × (List Uuid × Q)) (x : Result ⊤ × (R × (List Uuid × Q)))
      → CancelOutcome repo (holding queue) L id s x
      → AllHeld (L.view s.0) s.1.0
      → AllHeld (L.view x.1.0) s.1.0
  cancelled-Held id s (err e, s') (same, _) h = Same-AllHeld same h
  cancelled-Held id s (ok u, s') changed h =
      (SameBut-AllHeld id changed.new changed.others changed.after
        (IsFinal-ne-scheduled (IsFinal.cancelled changed.related.1.status)) h).0

  delivered-Held :
      (n : Notification) (w w' : W)
      → Member n.id w.queue.0
      → NotLost json repo (holding queue) notifier L n.id w w'
      → Held w
      → Held (answered n.id w'.settled w')
  delivered-Held n w w' held (over m others is final same settled) h =
      rw (settled, same) (SameBut-AllHeld n.id m others is final h).1
  delivered-Held n w w' held (retried k d same id_same took settled) h =
      let ids : w'.queue.0 ≡ n.id ∷ w.queue.0 =
        added-ok k.id w.queue.0 (queue.publish_retry k d w.queue.1) w'.queue took
        ∙ ap (λ (i : Uuid). i ∷ w.queue.0) id_same in
      rw (settled, ids, take_away_head n.id w.queue.0) (Same-AllHeld same h)
  delivered-Held n w w' held (requeued same (inl untouched) settled) h =
      rw (settled, untouched) (Same-AllHeld same h)
  delivered-Held n w w' held (requeued same (inr (k, d, e, bad)) settled) h =
      rw (settled, added-err k.id w.queue.0 (queue.publish_retry k d w.queue.1) e w'.queue bad)
        (Same-AllHeld same h)

  queue-cancel :
      (id : Uuid) (s : R × (List Uuid × Q))
      → (cancel_notification repo (holding queue) id s).1.1 ≡ s.1
  unfolding cancel_notification
  queue-cancel id s = elim (Result-cases (repo.get_by_id id s.0).0) [
    | inl (e, bad) ↦ ground arith
    | inr (n, good) ↦ elim (Bool-cases (str_eq n.status status_scheduled)) [
      | inl scheduled ↦ ground arith
      | inr other ↦ ground arith
    ]
  ]

  repo-answered : (id : Uuid) (l : List Settlement) (w : W) → (answered id l w).repo ≡ w.repo
  repo-answered id [] w = refl
  repo-answered id (acked ∷ l) w = refl
  repo-answered id (nacked b ∷ l) w = refl

  Turn-Held :
      {w w' : W}
      → Turn json repo queue notifier parse_address w w'
      → L.Valid w.repo
      → Held w
      → Held w'
  unfolding get_notification_by_id
  Turn-Held (Turn.creates w fresh now i) valid h =
      created-Held fresh now i (w.repo, w.queue)
        (create_notification repo (holding queue) parse_address fresh now i (w.repo, w.queue))
        (create_outcome repo (holding queue) L parse_address fresh now i (w.repo, w.queue) valid) h
  Turn-Held (Turn.reads w id) valid h =
      elim (Ensures-cases (repo.get_by_id id w.repo) (L.get_law w.repo id valid)) [
        | inl (n, s, e, (_, read)) ↦ rw e (Same-AllHeld read.same h)
        | inr (b, s, e, (_, refused)) ↦ rw e (Same-AllHeld refused.same h)
      ]
  Turn-Held (Turn.cancels w id) valid h = rw (queue-cancel id (w.repo, w.queue)) (
      cancelled-Held id (w.repo, w.queue)
        (cancel_notification repo (holding queue) id (w.repo, w.queue))
        (cancel_outcome repo (holding queue) L id (w.repo, w.queue) valid) h)
  Turn-Held (Turn.delivers w now body n m s decoded held good) valid h =
      delivered-Held n w (handle_message json repo (holding queue) notifier now body w) held
        (not_lost json repo (holding queue) notifier L now body n m w s valid decoded good) h

  call_valid :
      {w w' : W}
      → Call json repo (holding queue) notifier parse_address w w'
      → L.Valid w.repo
      → L.Valid w'.repo
  call_valid c valid = (Call-moves json repo (holding queue) notifier parse_address L c valid).0

  Turn-Valid :
      {w w' : W}
      → Turn json repo queue notifier parse_address w w'
      → L.Valid w.repo
      → L.Valid w'.repo
  Turn-Valid (Turn.creates w fresh now i) valid = call_valid (Call.creates w fresh now i) valid
  Turn-Valid (Turn.reads w id) valid = call_valid (Call.reads w id) valid
  Turn-Valid (Turn.cancels w id) valid = call_valid (Call.cancels w id) valid
  Turn-Valid (Turn.delivers w now body n m s decoded held good) valid =
      let w' : W = handle_message json repo (holding queue) notifier now body w in
      rw (repo-answered n.id w'.settled w') (call_valid (Call.handles w now body) valid)

  -- Over a repository that keeps its contract, with a queue that takes the message of each creation
  -- and a broker that holds a message until a worker acknowledges it: where every scheduled
  -- notification has a message that the broker holds, that is so after any sequence of creations,
  -- lookups, cancellations and deliveries of held messages whose lookup by the worker succeeds.
  pub none_forgotten :
      {w w' : W}
      → L.Valid w.repo
      → AllHeld (L.view w.repo) w.queue.0
      → Turns json repo queue notifier parse_address w w'
      → AllHeld (L.view w'.repo) w'.queue.0
  none_forgotten {w} valid h run = (both run).1
    where
      both : {u : W} → Turns json repo queue notifier parse_address w u → L.Valid u.repo × Held u
      both Turns.here = (valid, h)
      both (Turns.next r t) = let (v, k) = both r in (Turn-Valid t v, Turn-Held t v k)
