-- ===== src/Threads/Concluded.antt =====
-- A worker that concludes, and the invariant.
use mathlib.Core.Option.{some-injective}
use delayed_notifier.Prelude.{◌≡◌, true, String, List, ◌∷◌, ⊤, some, inl, inr, ap, sym, ◌∙◌}
use delayed_notifier.Prelude.Membership.{here, there}
use delayed_notifier.Go.Errors.{Result}
use delayed_notifier.Go.Clock.{Time}
use delayed_notifier.Domain.Model.{Uuid, Notification}
use delayed_notifier.Domain.Ports.{NotificationRepository, NotificationQueue, Notifier}
use delayed_notifier.Domain.Json.{JsonCodec}
use delayed_notifier.Domain.Contract.{LawfulRepository}
use delayed_notifier.Consumer.Handler.{acked, nacked, World, after_send}
use delayed_notifier.Consumer.NotLost.{NotLost, over, retried, requeued, after_send-NotLost}
use delayed_notifier.Interleaved.{Part, Part-Fine}
use delayed_notifier.Mail.{holding}
use delayed_notifier.Mail.Held.{added-ok, added-err}
use delayed_notifier.Consumer.Stages.{last_answer}
use delayed_notifier.Threads.{Task, answered, settling, Picks, Site, ready}
use delayed_notifier.Threads.Invariant.{Accounted, picked}
use delayed_notifier.Threads.Kept.{
  here_at, waiting, carried, AllKept, Same-NoneNew, not_over, SameBut-NoneNew,
}

module _ {R Q N : Type 0} (json : JsonCodec) (repo : NotificationRepository R)
    (queue : NotificationQueue Q) (notifier : Notifier N) (parse_address : String → Result ⊤)
    (L : LawfulRepository repo) where
  -- What a worker leaves once it has concluded.
  concluded :
      (s : Site R Q N) (n : Notification) (x : Result ⊤) (rest : List Task)
      (w' : World R (List Uuid × Q) N)
      → Picks (answered n x) s.tasks rest
      → NotLost json repo (holding queue) notifier L n.id s.world w'
      → AllKept (L.view s.world.repo) (ready s) s.tasks s.lost
      → AllKept (L.view w'.repo) w'.queue.0 (settling n (last_answer w'.settled) ∷ rest) s.lost
  concluded s n x rest w' p (over m others is final same settled) k = rw settled (
      picked json repo queue notifier parse_address L s
        (record s { world = w'; tasks = settling n acked ∷ rest }) (answered n x) p
        (SameBut-NoneNew n.id m others is final)
        (λ j o was sch e.
          absurd
            (not_over (L.view w'.repo) n.id m is final j o was sch (sym (some-injective n.id j e))))
        (λ j i. rw same i) (λ u i. there i) (λ j i. i) k)
  concluded s n x rest w' p (retried c d same id_same took settled) k =
      let ids : w'.queue.0 ≡ c.id ∷ ready s =
        added-ok c.id (ready s) (queue.publish_retry c d s.world.queue.1) w'.queue took in
      rw settled (
        picked json repo queue notifier parse_address L s
          (record s { world = w'; tasks = settling n acked ∷ rest }) (answered n x) p
          (Same-NoneNew same)
          (λ j o was sch e. waiting (rw ids (here_at c.id j (ready s) (ap some id_same ∙ e))))
          (λ j i. rw ids (there i)) (λ u i. there i) (λ j i. i) k)
  concluded s n x rest w' p (requeued same nothing settled) k =
      let kept : w'.queue.0 ≡ ready s = elim nothing [
        | inl e ↦ ap (λ (q : List Uuid × Q). q.0) e
        | inr (c, d, b, bad) ↦
            added-err c.id (ready s) (queue.publish_retry c d s.world.queue.1) b w'.queue bad
      ] in
      rw settled (
        picked json repo queue notifier parse_address L s
          (record s { world = w'; tasks = settling n (nacked true) ∷ rest }) (answered n x) p
          (Same-NoneNew same) (λ j o was sch e. carried (settling n (nacked true)) here e)
          (λ j i. rw kept i) (λ u i. there i) (λ j i. i) k)

  pub concludes-Accounted :
      (s : Site R Q N) (n : Notification) (x : Result ⊤) (rest : List Task) (now : Time)
      → Picks (answered n x) s.tasks rest
      → Accounted json repo queue notifier parse_address L s
      → let w = after_send json repo (holding queue) notifier now n s.world (x, s.world.notifier) in
        Accounted json repo queue notifier parse_address L (record s {
          world = record w { settled = s.world.settled };
          tasks = settling n (last_answer w.settled) ∷ rest;
        })
  concludes-Accounted s n x rest now p (valid, k) = (
    (Part-Fine json repo (holding queue) notifier parse_address L (Part.works s.world now n x)
        valid).0,
    concluded s n x rest
        (after_send json repo (holding queue) notifier now n s.world (x, s.world.notifier)) p
        (after_send-NotLost json repo (holding queue) notifier L now n s.world x s.world.notifier
          valid)
        k,
  )
