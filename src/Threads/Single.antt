-- ===== src/Threads/Single.antt =====
-- What the goroutines' moves do to the store, and how many messages of a stored notification there are.
use native.Mathlib.Decide.{ℕ_discrete}
use delayed_notifier.Prelude.{
  ℕ, ◌+◌, ◌≤◌, ◌≡◌, ◌==◌, refl, true, false, ◌∷◌, String, List, ⊤, some, none, inl, inr, arith, ◌∙◌,
  Bool-cases, ==_iff,
}
use delayed_notifier.Go.Errors.{Result, ok, err}
use delayed_notifier.Domain.Model.{Uuid, Notification}
use delayed_notifier.Domain.Ports.{NotificationRepository, NotificationQueue, Notifier}
use delayed_notifier.Domain.Json.{JsonCodec}
use delayed_notifier.Domain.Contract.{LawfulRepository}
use delayed_notifier.Interleaved.{Part, Part-Fine, Fine, Drifts}
use delayed_notifier.Consumer.Handler.{Settlement, acked, nacked, settle, World}
use delayed_notifier.Mail.{holding}
use delayed_notifier.Threads.{
  Task, publishing, cancelling, received, sending, answered, settling, returned, rejects, settles,
  drops, Site, crash, Move, Moves, saves, save_fails, publishes, publish_fails, reads,
  reads_to_cancel, cancels, receives, finds, skips, gives_up, sends, concludes, redelivers, crashes,
}
use delayed_notifier.Threads.Copies.{again, copies, one_if, made, Move-copies}

module _ {R Q N : Type 0} (json : JsonCodec) (repo : NotificationRepository R)
    (queue : NotificationQueue Q) (notifier : Notifier N) (parse_address : String → Result ⊤)
    (L : LawfulRepository repo) where
  abbrev FineTo : R → R → Type 0
  FineTo r r' = Fine json repo (holding queue) notifier parse_address L r r'

  unmoved : (r : R) → L.Valid r → FineTo r r
  unmoved r valid = (valid, λ j. Drifts.stays refl)

  crash-Fine :
      (t : Task) (rest : List Task) (s : Site R Q N)
      → L.Valid s.world.repo
      → FineTo s.world.repo (crash t rest s).world.repo
  crash-Fine (publishing c) rest s valid = unmoved s.world.repo valid
  crash-Fine (cancelling j c) rest s valid = unmoved s.world.repo valid
  crash-Fine (received n) rest s valid = unmoved s.world.repo valid
  crash-Fine (sending n) rest s valid = unmoved s.world.repo valid
  crash-Fine (answered n x) rest s valid = unmoved s.world.repo valid
  crash-Fine (settling n a) rest s valid = unmoved s.world.repo valid

  settled-Fine :
      (w : World R (List Uuid × Q) N) (id : Uuid) (a : Settlement)
      → L.Valid w.repo
      → FineTo w.repo (returned id (a ∷ w.settled) (settle a w)).repo
  settled-Fine w id acked valid = unmoved w.repo valid
  settled-Fine w id (nacked true) valid = unmoved w.repo valid
  settled-Fine w id (nacked false) valid = unmoved w.repo valid

  looked-Fine :
      (w : World R (List Uuid × Q) N) (id : Uuid) (x : Result Notification) (r : R)
      → L.Valid w.repo
      → repo.get_by_id id w.repo ≡ (x, r)
      → FineTo w.repo r
  looked-Fine w id x r valid found =
      (rw found at
        (Part-Fine json repo (holding queue) notifier parse_address L (Part.reads w id) valid))

  Move-Fine :
      {s t : Site R Q N}
      → Move json repo queue notifier parse_address s t
      → L.Valid s.world.repo
      → FineTo s.world.repo t.world.repo
  Move-Fine (saves s fresh i n c r built saved) valid =
      let (v, added) = (rw saved at (L.save_law s.world.repo n valid)) in
      (
        v,
        λ j. elim (ℕ_discrete j c.id) [
          | no ne ↦ Drifts.stays (added.others j ne)
          | yes here ↦ rw here (Drifts.starts c added.fresh added.after)
        ],
      )
  Move-Fine (save_fails s fresh i n e r built failed) valid =
      let (v, same) = (rw failed at (L.save_law s.world.repo n valid)) in
      (v, λ j. Drifts.stays (same j))
  Move-Fine (publishes s c rest now q p done) valid = unmoved s.world.repo valid
  Move-Fine (publish_fails s c rest now e q p failed) valid = unmoved s.world.repo valid
  Move-Fine (reads s j) valid =
      Part-Fine json repo (holding queue) notifier parse_address L (Part.reads s.world j) valid
  Move-Fine (reads_to_cancel s j seen r found) valid = looked-Fine s.world j (ok seen) r valid found
  Move-Fine (cancels s j seen rest p) valid =
      Part-Fine json repo (holding queue) notifier parse_address L (Part.cancels s.world j seen)
        valid
  Move-Fine (rejects s body e j left garbage p) valid = unmoved s.world.repo valid
  Move-Fine (drops s j left p) valid = unmoved s.world.repo valid
  Move-Fine (settles s n a rest p) valid = settled-Fine s.world n.id a valid
  Move-Fine (receives s body n left decoded p) valid = unmoved s.world.repo valid
  Move-Fine (finds s n m rest r p found still) valid = looked-Fine s.world n.id (ok m) r valid found
  Move-Fine (skips s n m rest r p found over) valid = looked-Fine s.world n.id (ok m) r valid found
  Move-Fine (gives_up s n rest e r p failed) valid = looked-Fine s.world n.id (err e) r valid failed
  Move-Fine (sends s n rest x t p sent) valid = unmoved s.world.repo valid
  Move-Fine (concludes s n x rest now p) valid =
      Part-Fine json repo (holding queue) notifier parse_address L (Part.works s.world now n x)
        valid
  Move-Fine (redelivers s j) valid = unmoved s.world.repo valid
  Move-Fine (crashes s t rest p) valid = crash-Fine t rest s valid

  abbrev Stored : Uuid → R → Type 0
  Stored id r = (n : Notification) × (L.view r id ≡ some n)

  Fine-Stored : (id : Uuid) (r r' : R) → FineTo r r' → Stored id r → Stored id r'
  Fine-Stored id r r' (valid, drift) (n, was) = elim (drift id) [
    | Drifts.stays e ↦ (n, e ∙ was)
    | Drifts.starts new absent is ↦ cc
    | Drifts.ends old new before is final kept ↦ (new, is)
  ]

  -- The broker delivers a message of that id again by itself, or as a worker was lost that had
  -- stored or published what follows from it, and had yet to acknowledge it.
  abbrev pub delivered :
      {s t : Site R Q N} → Uuid → Move json repo queue notifier parse_address s t → ℕ
  delivered id (redelivers s j) = one_if (j == id)
  delivered id (crashes s t rest p) = again id t
  delivered id _ = 0

  abbrev pub all_delivered :
      {s t : Site R Q N} → Uuid → Moves json repo queue notifier parse_address s t → ℕ
  all_delivered id Moves.here = 0
  all_delivered id (Moves.next r m) = all_delivered id r + delivered id m

  saved-other :
      (id : Uuid) (c : Notification) (r : R)
      → L.view r c.id ≡ none
      → Stored id r
      → one_if (c.id == id) ≡ 0
  saved-other id c r absent (n, was) = elim (Bool-cases (c.id == id)) [
    | inl same ↦ cc ((==_iff c.id id).0 same)
    | inr other ↦ rw other refl
  ]

  -- A notification that is stored is not saved again.
  made-delivered :
      {s t : Site R Q N} (id : Uuid) (m : Move json repo queue notifier parse_address s t)
      → L.Valid s.world.repo
      → Stored id s.world.repo
      → made json repo queue notifier parse_address id m ≡ delivered id m
  made-delivered id (saves s fresh i n c r built saved) valid stored =
      let (v, added) = (rw saved at (L.save_law s.world.repo n valid)) in
      saved-other id c s.world.repo added.fresh stored
  made-delivered id (save_fails _ _ _ _ _ _ _ _) valid stored = refl
  made-delivered id (publishes _ _ _ _ _ _ _) valid stored = refl
  made-delivered id (publish_fails _ _ _ _ _ _ _ _) valid stored = refl
  made-delivered id (reads _ _) valid stored = refl
  made-delivered id (reads_to_cancel _ _ _ _ _) valid stored = refl
  made-delivered id (cancels _ _ _ _ _) valid stored = refl
  made-delivered id (rejects _ _ _ _ _ _ _) valid stored = refl
  made-delivered id (drops _ _ _ _) valid stored = refl
  made-delivered id (settles _ _ _ _ _) valid stored = refl
  made-delivered id (receives _ _ _ _ _ _) valid stored = refl
  made-delivered id (finds _ _ _ _ _ _ _ _) valid stored = refl
  made-delivered id (skips _ _ _ _ _ _ _ _) valid stored = refl
  made-delivered id (gives_up _ _ _ _ _ _ _) valid stored = refl
  made-delivered id (sends _ _ _ _ _ _ _) valid stored = refl
  made-delivered id (concludes _ _ _ _ _ _) valid stored = refl
  made-delivered id (redelivers _ _) valid stored = refl
  made-delivered id (crashes _ _ _ _) valid stored = refl

  record Single (id : Uuid) (s t : Site R Q N) (k : ℕ) : Type 0 where
    valid : L.Valid t.world.repo
    stored : Stored id t.world.repo
    bound : copies id t ≤ copies id s + k

  Moves-Single :
      {s t : Site R Q N} (id : Uuid)
      → L.Valid s.world.repo
      → Stored id s.world.repo
      → (r : Moves json repo queue notifier parse_address s t) → Single id s t (all_delivered id r)
  Moves-Single id valid stored Moves.here = record {
    valid = valid;
    stored = stored;
    bound = omega arith;
  }
  Moves-Single {s = s} {t = u} id valid stored (Moves.next {t = t} r m) =
      let before = Moves-Single id valid stored r in
      let fine = Move-Fine m before.valid in
      record {
        valid = fine.0;
        stored = Fine-Stored id t.world.repo u.world.repo fine before.stored;
        bound = omega (
          arith,
          before.bound,
          Move-copies json repo queue notifier parse_address id m,
          made-delivered id m before.valid before.stored,
        );
      }

  -- Over a repository that keeps its contract, however the goroutines of the API and the workers
  -- interleave between their calls, and wherever their processes crash: the messages of a stored
  -- notification, those that the broker may deliver and those that a goroutine is to publish, to
  -- answer or to hand back together, are at most those of the start and one more for each time that
  -- the broker delivers a message of it again by itself, or because a worker was lost that had
  -- stored or published what follows from it and had yet to acknowledge it.
  pub single_message :
      {s t : Site R Q N} (id : Uuid) (n : Notification)
      → L.Valid s.world.repo
      → L.view s.world.repo id ≡ some n
      → (r : Moves json repo queue notifier parse_address s t)
      → copies id t ≤ copies id s + all_delivered id r
  single_message id n valid was r = (Moves-Single id valid (n, was) r).bound
