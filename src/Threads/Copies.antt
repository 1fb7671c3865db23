-- ===== src/Threads/Copies.antt =====
-- How many messages of a notification there are, with the broker and with the goroutines.
use delayed_notifier.Prelude.{
  ℕ, ◌+◌, ◌≤◌, ◌≡◌, ◌==◌, refl, Bool, true, false, String, List, ◌∷◌, ⊤, arith, Bool-cases, inl,
  inr, some, str_eq,
}
use delayed_notifier.Prelude.Int.{pos, ◌+ℤ◌, leb_ℤ, to_int64}
use delayed_notifier.Go.Errors.{Result, ok, err}
use delayed_notifier.Go.Clock.{Time}
use delayed_notifier.Domain.Model.{Uuid, Notification, status_scheduled, status_sent, status_failed}
use delayed_notifier.Domain.Ports.{NotificationRepository, NotificationQueue, Notifier}
use delayed_notifier.Domain.Json.{JsonCodec}
use delayed_notifier.Service.{update_notification, cancel_if_scheduled}
use delayed_notifier.Consumer.Backoff.{calculate_exponential_backoff}
use delayed_notifier.Consumer.Handler.{
  Settlement, acked, nacked, World, max_retries, service, settle, update_then_settle,
  publish_then_settle, handle_send_error, after_send,
}
use delayed_notifier.Mail.{add_published, holding}
use delayed_notifier.Mail.Held.{added-ok, added-err}
use delayed_notifier.Sends.{count}
use delayed_notifier.Consumer.Stages.{last_answer}
use delayed_notifier.Threads.{
  Task, publishing, cancelling, received, sending, answered, settling, Picks, this, other, Site,
  ready, returned, rejects, settles, drops, crash, Move, saves, save_fails, publishes,
  publish_fails, reads, reads_to_cancel, cancels, receives, finds, skips, gives_up, sends,
  concludes, redelivers, crashes,
}

abbrev pub one_if : Bool → ℕ
one_if true = 1
one_if false = 0

-- The messages of that id among those that the broker may deliver.
abbrev copies_in : Uuid → List Uuid → ℕ
copies_in id ids = count (λ (j : Uuid). j == id) ids

-- A message of the id `j` that is answered so comes back as one of the id `id`.
abbrev pub owed : Uuid → Uuid → Settlement → Bool
owed id j (nacked true) = j == id
owed id j _ = false

-- The goroutine is to publish a message of that id, or to answer one, unless it has stored or
-- published what follows from it.
abbrev pub has_message : Uuid → Task → Bool
has_message id (publishing c) = c.id == id
has_message id (cancelling _ _) = false
has_message id (received n) = n.id == id
has_message id (sending n) = n.id == id
has_message id (answered n _) = n.id == id
has_message id (settling n a) = owed id n.id a

-- A worker that is lost before the broker has its acknowledgement leaves a message of that id.
abbrev pub again : Uuid → Task → ℕ
again id (settling n acked) = one_if (n.id == id)
again id (settling n (nacked false)) = one_if (n.id == id)
again id _ = 0

module _ {R Q N : Type 0} where
  abbrev pub held_copies : Uuid → Site R Q N → ℕ
  held_copies id s = count (has_message id) s.tasks

  abbrev pub copies : Uuid → Site R Q N → ℕ
  copies id s = copies_in id (ready s) + held_copies id s

count_cons {ℓ} :
    {A : Type ℓ} (p : A → Bool) (a : A) (l : List A) → count p (a ∷ l) ≡ one_if (p a) + count p l
count_cons p a l = elim (Bool-cases (p a)) [
  | inl holds ↦ rw holds (omega arith)
  | inr fails ↦ rw fails (omega arith)
]

count-Picks {ℓ} :
    {A : Type ℓ} (p : A → Bool) (a : A) {l rest : List A}
    → Picks a l rest
    → count p l ≡ one_if (p a) + count p rest
count-Picks p a (this {l = l}) = count_cons p a l
count-Picks p a (other {b = b} {l = l} {rest = rest} q) =
    omega (arith, count_cons p b l, count_cons p b rest, count-Picks p a q)

module _ {R Q N : Type 0} (json : JsonCodec) (repo : NotificationRepository R)
    (queue : NotificationQueue Q) (notifier : Notifier N) where
  -- The messages of an id once a worker has stored or published what follows from a message of
  -- the id `j`, which the broker has still to get back if it is to be requeued.
  abbrev Answered : Uuid → Uuid → World R (List Uuid × Q) N → World R (List Uuid × Q) N → Type 0
  Answered id j w w' =
      one_if (owed id j (last_answer w'.settled)) + copies_in id w'.queue.0
      ≤ one_if (j == id) + copies_in id w.queue.0

  abbrev settled_by :
      Uuid → World R (List Uuid × Q) N → Result ⊤ × (List Uuid × Q) → World R (List Uuid × Q) N
  settled_by j w x =
      let (r, q) = x in
      let w' = record w { queue = q } in
      elim r [ ok _ ↦ settle acked w' | err _ ↦ settle (nacked true) w' ]

  settled-Answered :
      (id j : Uuid) (w : World R (List Uuid × Q) N) (x : Result ⊤ × Q)
      → Answered id j w (settled_by j w (add_published j w.queue.0 x))
  settled-Answered id j w (ok u, q) = omega (arith, count_cons (λ (k : Uuid). k == id) j w.queue.0)
  settled-Answered id j w (err e, q) = omega arith

  updated-Answered :
      (id j : Uuid) (w : World R (List Uuid × Q) N) (r : Result ⊤)
      → Answered id j w (elim r [ ok _ ↦ settle acked w | err _ ↦ settle (nacked true) w ])
  updated-Answered id j w (ok u) = omega arith
  updated-Answered id j w (err e) = omega arith

  update-Answered :
      (id : Uuid) (n : Notification) (w : World R (List Uuid × Q) N)
      → Answered id n.id w (update_then_settle json repo (holding queue) notifier n w)
  unfolding update_notification
  update-Answered id n w =
      updated-Answered id n.id (record w { repo = (repo.update n w.repo).1 })
        (repo.update n w.repo).0

  publish-Answered :
      (id : Uuid) (n : Notification) (w : World R (List Uuid × Q) N)
      → Answered id n.id w (publish_then_settle json repo (holding queue) notifier n w)
  publish-Answered id n w =
      settled-Answered id n.id w
        (queue.publish_retry n (calculate_exponential_backoff n.attempts) w.queue.1)

  send_error-Answered :
      (id : Uuid) (n : Notification) (w : World R (List Uuid × Q) N)
      → Answered id n.id w (handle_send_error json repo (holding queue) notifier n w)
  unfolding handle_send_error
  send_error-Answered id n w =
      let attempts = to_int64 (n.attempts +ℤ pos 1) in
      elim (Bool-cases (leb_ℤ max_retries attempts)) [
        | inl last ↦
            rw last
              (update-Answered id (record n { attempts = attempts; status = status_failed }) w)
        | inr more ↦ rw more (publish-Answered id (record n { attempts = attempts }) w)
      ]

  after_send-Answered :
      (id : Uuid) (now : Time) (n : Notification) (w : World R (List Uuid × Q) N) (r : Result ⊤)
      (t : N)
      → Answered id n.id w (after_send json repo (holding queue) notifier now n w (r, t))
  after_send-Answered id now n w (ok u) t =
      update-Answered id (record n { status = status_sent; sent_at = some now })
        (record w { notifier = t })
  after_send-Answered id now n w (err e) t = send_error-Answered id n (record w { notifier = t })

module _ {R Q N : Type 0} (json : JsonCodec) (repo : NotificationRepository R)
    (queue : NotificationQueue Q) (notifier : Notifier N) (parse_address : String → Result ⊤) where
  -- A move that brings a message of that id: its notification is saved, the broker delivers again, or
  -- a worker is lost before the broker has its acknowledgement.
  abbrev pub made : {s t : Site R Q N} → Uuid → Move json repo queue notifier parse_address s t → ℕ
  made id (saves s fresh i n c r built saved) = one_if (c.id == id)
  made id (redelivers s j) = one_if (j == id)
  made id (crashes s t rest p) = again id t
  made id _ = 0

  crash-copies :
      (id : Uuid) (s : Site R Q N) (t : Task) (rest : List Task)
      → Picks t s.tasks rest
      → copies id (crash t rest s) ≤ copies id s + again id t
  crash-copies id s (publishing c) rest p =
      omega (arith, count-Picks (has_message id) (publishing c) p)
  crash-copies id s (cancelling j c) rest p =
      omega (arith, count-Picks (has_message id) (cancelling j c) p)
  crash-copies id s (received n) rest p = omega (
    arith,
    count-Picks (has_message id) (received n) p,
    count_cons (λ (k : Uuid). k == id) n.id (ready s),
  )
  crash-copies id s (sending n) rest p = omega (
    arith,
    count-Picks (has_message id) (sending n) p,
    count_cons (λ (k : Uuid). k == id) n.id (ready s),
  )
  crash-copies id s (answered n x) rest p = omega (
    arith,
    count-Picks (has_message id) (answered n x) p,
    count_cons (λ (k : Uuid). k == id) n.id (ready s),
  )
  crash-copies id s (settling n acked) rest p = omega (
    arith,
    count-Picks (has_message id) (settling n acked) p,
    count_cons (λ (k : Uuid). k == id) n.id (ready s),
  )
  crash-copies id s (settling n (nacked true)) rest p = omega (
    arith,
    count-Picks (has_message id) (settling n (nacked true)) p,
    count_cons (λ (k : Uuid). k == id) n.id (ready s),
  )
  crash-copies id s (settling n (nacked false)) rest p = omega (
    arith,
    count-Picks (has_message id) (settling n (nacked false)) p,
    count_cons (λ (k : Uuid). k == id) n.id (ready s),
  )

  settles-copies :
      (id : Uuid) (s : Site R Q N) (n : Notification) (a : Settlement) (rest : List Task)
      → Picks (settling n a) s.tasks rest
      → copies_in id (returned n.id (a ∷ s.world.settled) (settle a s.world)).queue.0
          + count (has_message id) rest
        ≤ copies id s
  settles-copies id s n acked rest p =
      omega (arith, count-Picks (has_message id) (settling n acked) p)
  settles-copies id s n (nacked false) rest p =
      omega (arith, count-Picks (has_message id) (settling n (nacked false)) p)
  settles-copies id s n (nacked true) rest p = omega (
    arith,
    count-Picks (has_message id) (settling n (nacked true)) p,
    count_cons (λ (k : Uuid). k == id) n.id (ready s),
  )

  queue-cancel :
      (id : Uuid) (seen : Notification) (w : World R (List Uuid × Q) N)
      → (service (cancel_if_scheduled repo (holding queue) id seen) w).1.queue ≡ w.queue
  queue-cancel id seen w = elim (Bool-cases (str_eq seen.status status_scheduled)) [
    | inl still ↦ rw still refl
    | inr over ↦ rw over refl
  ]

  pub Move-copies :
      {s t : Site R Q N} (id : Uuid) (m : Move json repo queue notifier parse_address s t)
      → copies id t ≤ copies id s + made id m
  Move-copies id (saves s fresh i n c r built saved) =
      omega (arith, count_cons (has_message id) (publishing c) s.tasks)
  Move-copies id (save_fails s fresh i n e r built failed) = omega arith
  Move-copies id (publishes s c rest now q p done) =
      rw (added-ok c.id (ready s) (queue.publish now c s.world.queue.1) q done) (
        omega (
          arith,
          count-Picks (has_message id) (publishing c) p,
          count_cons (λ (k : Uuid). k == id) c.id (ready s),
        ))
  Move-copies id (publish_fails s c rest now e q p failed) =
      rw (added-err c.id (ready s) (queue.publish now c s.world.queue.1) e q failed)
        (omega (arith, count-Picks (has_message id) (publishing c) p))
  Move-copies id (reads s j) = omega arith
  Move-copies id (reads_to_cancel s j seen r found) =
      omega (arith, count_cons (has_message id) (cancelling j seen) s.tasks)
  Move-copies id (cancels s j seen rest p) =
      rw (queue-cancel j seen s.world)
        (omega (arith, count-Picks (has_message id) (cancelling j seen) p))
  Move-copies id (rejects s body e j left garbage p) =
      omega (arith, count-Picks (λ (k : Uuid). k == id) j p)
  Move-copies id (drops s j left p) = omega (arith, count-Picks (λ (k : Uuid). k == id) j p)
  Move-copies id (settles s n a rest p) = omega (arith, settles-copies id s n a rest p)
  Move-copies id (receives s body n left decoded p) = omega (
    arith,
    count-Picks (λ (k : Uuid). k == id) n.id p,
    count_cons (has_message id) (received n) s.tasks,
  )
  Move-copies id (finds s n m rest r p found still) = omega (
    arith,
    count-Picks (has_message id) (received n) p,
    count_cons (has_message id) (sending n) rest,
  )
  Move-copies id (skips s n m rest r p found over) =
      omega (arith, count-Picks (has_message id) (received n) p)
  Move-copies id (gives_up s n rest e r p failed) =
      omega (arith, count-Picks (has_message id) (received n) p)
  Move-copies id (sends s n rest x t p sent) = omega (
    arith,
    count-Picks (has_message id) (sending n) p,
    count_cons (has_message id) (answered n x) rest,
  )
  Move-copies id (concludes s n x rest now p) = omega (
    arith,
    count-Picks (has_message id) (answered n x) p,
    count_cons (has_message id)
        (settling n (
          last_answer
            (after_send json repo (holding queue) notifier now n s.world
              (x, s.world.notifier)).settled))
        rest,
    after_send-Answered json repo queue notifier id now n s.world x s.world.notifier,
  )
  Move-copies id (redelivers s j) = omega (arith, count_cons (λ (k : Uuid). k == id) j (ready s))
  Move-copies id (crashes s t rest p) = omega (arith, crash-copies id s t rest p)
