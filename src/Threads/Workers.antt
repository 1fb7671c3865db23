-- ===== src/Threads/Workers.antt =====
-- The moves of the workers, and the invariant.
use mathlib.Core.Option.{some-injective}
use delayed_notifier.Prelude.{
  ◌≡◌, ◌≢◌, refl, true, false, none, String, List, ◌∷◌, ⊤, some, inl, inr, ap, sym, ◌∙◌,
}
use delayed_notifier.Prelude.Membership.{here, there}
use delayed_notifier.Go.Errors.{Error, Result, ok, err}
use delayed_notifier.Domain.Model.{Uuid, Notification, status_scheduled}
use delayed_notifier.Domain.Ports.{NotificationRepository, NotificationQueue, Notifier}
use delayed_notifier.Domain.Json.{JsonCodec}
use delayed_notifier.Domain.Contract.{LawfulRepository}
use delayed_notifier.Consumer.Handler.{Settlement, acked, nacked, settle}
use delayed_notifier.Threads.{
  Task, publishing, cancelling, received, sending, answered, settling, Picks, Site, ready,
  with_repo, redeliver, returned, crash,
}
use delayed_notifier.Threads.Invariant.{Accounted, picked}
use delayed_notifier.Threads.Kept.{
  subject, here_at, waiting, carried, gone, AllKept, Same-NoneNew, not_over, Picks-Member,
}

module _ {R Q N : Type 0} (json : JsonCodec) (repo : NotificationRepository R)
    (queue : NotificationQueue Q) (notifier : Notifier N) (parse_address : String → Result ⊤)
    (L : LawfulRepository repo) where
  -- The message of a worker that is gone may be delivered again.
  crash_worker :
      (s : Site R Q N) (t : Task) (n : Notification) (rest : List Task)
      → Picks t s.tasks rest
      → subject t ≡ some n.id
      → AllKept (L.view s.world.repo) (ready s) s.tasks s.lost
      → AllKept (L.view s.world.repo) (n.id ∷ ready s) rest s.lost
  crash_worker s t n rest p about k =
      picked json repo queue notifier parse_address L s
        (record s { world = redeliver n.id s.world; tasks = rest }) t p (λ j m w _. w)
        (λ j m w _ e. waiting (here_at n.id j (ready s) (sym about ∙ e))) (λ j m. there m)
        (λ u m. m) (λ j m. m) k

  -- One that had stored or published needs nothing more.
  crash_settled :
      (s : Site R Q N) (t : Task) (id : Uuid) (rest : List Task)
      → Picks t s.tasks rest
      → subject t ≡ none
      → AllKept (L.view s.world.repo) (ready s) s.tasks s.lost
      → AllKept (L.view s.world.repo) (id ∷ ready s) rest s.lost
  crash_settled s t id rest p about k =
      picked json repo queue notifier parse_address L s
        (record s { world = redeliver id s.world; tasks = rest }) t p (λ j m w _. w)
        (λ j m w _ e. cc) (λ j m. there m) (λ u m. m) (λ j m. m) k

  pub crash-Accounted :
      (s : Site R Q N) (t : Task) (rest : List Task)
      → Picks t s.tasks rest
      → Accounted json repo queue notifier parse_address L s
      → Accounted json repo queue notifier parse_address L (crash t rest s)
  crash-Accounted s (publishing c) rest p (v, k) = (
    v,
    picked json repo queue notifier parse_address L s (crash (publishing c) rest s) (publishing c) p
        (λ j n w _. w) (λ j n w _ e. gone (here_at c.id j s.lost e)) (λ j m. m) (λ u m. m)
        (λ j m. there m) k,
  )
  crash-Accounted s (cancelling id seen) rest p (v, k) = (
    v,
    picked json repo queue notifier parse_address L s (crash (cancelling id seen) rest s)
        (cancelling id seen) p (λ j n w _. w) (λ j n w _ e. cc) (λ j m. m) (λ u m. m) (λ j m. m) k,
  )
  crash-Accounted s (received n) rest p (v, k) = (v, crash_worker s (received n) n rest p refl k)
  crash-Accounted s (sending n) rest p (v, k) = (v, crash_worker s (sending n) n rest p refl k)
  crash-Accounted s (answered n x) rest p (v, k) =
      (v, crash_worker s (answered n x) n rest p refl k)
  crash-Accounted s (settling n (nacked true)) rest p (v, k) =
      (v, crash_worker s (settling n (nacked true)) n rest p refl k)
  crash-Accounted s (settling n (nacked false)) rest p (v, k) =
      (v, crash_settled s (settling n (nacked false)) n.id rest p refl k)
  crash-Accounted s (settling n acked) rest p (v, k) =
      (v, crash_settled s (settling n acked) n.id rest p refl k)

  -- A message leaves the queue for good.
  pub lost-Accounted :
      (s : Site R Q N) (id : Uuid) (left : List Uuid) (l : List Settlement)
      → Picks id (ready s) left
      → Accounted json repo queue notifier parse_address L s
      → Accounted json repo queue notifier parse_address L (record s {
        world = record s.world { queue = (left, s.world.queue.1); settled = l };
        lost = id ∷ s.lost;
      })
  lost-Accounted s id left l p (valid, k) = (
    valid,
    λ j m was sch. elim (k j m was sch) [
      | waiting i ↦ elim (Picks-Member p i) [
        | inl e ↦ gone (here_at id j s.lost (ap some (sym e)))
        | inr w ↦ waiting w
      ]
      | carried u i c ↦ carried u i c
      | gone i ↦ gone (there i)
    ],
  )

  -- The broker has the answer of a worker.
  pub settles-Accounted :
      (s : Site R Q N) (n : Notification) (a : Settlement) (rest : List Task)
      → Picks (settling n a) s.tasks rest
      → Accounted json repo queue notifier parse_address L s
      → Accounted json repo queue notifier parse_address L (record s {
        world = returned n.id (a ∷ s.world.settled) (settle a s.world);
        tasks = rest;
      })
  settles-Accounted s n acked rest p (v, k) = (
    v,
    picked json repo queue notifier parse_address L s
        (record s { world = settle acked s.world; tasks = rest }) (settling n acked) p
        (λ j m w _. w) (λ j m w _ e. cc) (λ j m. m) (λ u m. m) (λ j m. m) k,
  )
  settles-Accounted s n (nacked false) rest p (v, k) = (
    v,
    picked json repo queue notifier parse_address L s
        (record s { world = settle (nacked false) s.world; tasks = rest })
        (settling n (nacked false)) p (λ j m w _. w) (λ j m w _ e. cc) (λ j m. m) (λ u m. m)
        (λ j m. m) k,
  )
  settles-Accounted s n (nacked true) rest p (v, k) =
      (v, crash_worker s (settling n (nacked true)) n rest p refl k)

  pub receives-Accounted :
      (s : Site R Q N) (n : Notification) (left : List Uuid)
      → Picks n.id (ready s) left
      → Accounted json repo queue notifier parse_address L s
      → Accounted json repo queue notifier parse_address L (record s {
        world = record s.world { queue = (left, s.world.queue.1) };
        tasks = received n ∷ s.tasks;
      })
  receives-Accounted s n left p (valid, k) = (
    valid,
    λ j m was sch. elim (k j m was sch) [
      | waiting i ↦ elim (Picks-Member p i) [
        | inl e ↦ carried (received n) here (ap some (sym e))
        | inr l ↦ waiting l
      ]
      | carried u i c ↦ carried u (there i) c
      | gone i ↦ gone i
    ],
  )

  pub finds-Accounted :
      (s : Site R Q N) (n m : Notification) (rest : List Task) (r : R)
      → Picks (received n) s.tasks rest
      → repo.get_by_id n.id s.world.repo ≡ (ok m, r)
      → m.status ≡ status_scheduled
      → Accounted json repo queue notifier parse_address L s
      → Accounted json repo queue notifier parse_address L
          (record s { world = with_repo r s.world; tasks = sending n ∷ rest })
  finds-Accounted s n m rest r p good sch (valid, k) =
      let (v, read) = (rw good at (L.get_law s.world.repo n.id valid)) in
      (
        v,
        picked json repo queue notifier parse_address L s
            (record s { world = with_repo r s.world; tasks = sending n ∷ rest }) (received n) p
            (Same-NoneNew read.same) (λ j _ w _ e. carried (sending n) here e) (λ j m. m)
            (λ u m. there m) (λ j m. m) k,
      )

  pub skips-Accounted :
      (s : Site R Q N) (n m : Notification) (rest : List Task) (r : R)
      → Picks (received n) s.tasks rest
      → repo.get_by_id n.id s.world.repo ≡ (ok m, r)
      → m.status ≢ status_scheduled
      → Accounted json repo queue notifier parse_address L s
      → Accounted json repo queue notifier parse_address L
          (record s { world = settle acked (with_repo r s.world); tasks = rest })
  skips-Accounted s n m rest r p good final (valid, k) =
      let (v, read) = (rw good at (L.get_law s.world.repo n.id valid)) in
      (
        v,
        picked json repo queue notifier parse_address L s
            (record s { world = settle acked (with_repo r s.world); tasks = rest }) (received n) p
            (Same-NoneNew read.same)
            (λ j o w sch e. absurd (
              not_over (L.view r) n.id m (read.same n.id ∙ read.found) final j o w sch
                (sym (some-injective n.id j e))))
            (λ j m. m) (λ u m. m) (λ j m. m) k,
      )

  pub gives_up-Accounted :
      (s : Site R Q N) (n : Notification) (rest : List Task) (e : Error) (r : R)
      → Picks (received n) s.tasks rest
      → repo.get_by_id n.id s.world.repo ≡ (err e, r)
      → Accounted json repo queue notifier parse_address L s
      → Accounted json repo queue notifier parse_address L (record s {
        world = settle acked (with_repo r s.world);
        tasks = rest;
        lost = n.id ∷ s.lost;
      })
  gives_up-Accounted s n rest b r p bad (valid, k) =
      let (v, refused) = (rw bad at (L.get_law s.world.repo n.id valid)) in
      (
        v,
        picked json repo queue notifier parse_address L s
            (record s {
              world = settle acked (with_repo r s.world);
              tasks = rest;
              lost = n.id ∷ s.lost;
            })
            (received n) p (Same-NoneNew refused.same) (λ j _ w _ e. gone (here_at n.id j s.lost e))
            (λ j m. m) (λ u m. m) (λ j m. there m) k,
      )

  pub sends-Accounted :
      (s : Site R Q N) (n : Notification) (rest : List Task) (x : Result ⊤) (t : N)
      → Picks (sending n) s.tasks rest
      → notifier.send n s.world.notifier ≡ (x, t)
      → Accounted json repo queue notifier parse_address L s
      → Accounted json repo queue notifier parse_address L
          (record s { world = record s.world { notifier = t }; tasks = answered n x ∷ rest })
  sends-Accounted s n rest x t p answer (valid, k) = (
    valid,
    picked json repo queue notifier parse_address L s
        (record s { world = record s.world { notifier = t }; tasks = answered n x ∷ rest })
        (sending n) p (λ j o w _. w) (λ j _ w _ e. carried (answered n x) here e) (λ j m. m)
        (λ u m. there m) (λ j m. m) k,
  )
