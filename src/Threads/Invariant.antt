-- ===== src/Threads/Invariant.antt =====
-- The invariant of the goroutines' moves.
use delayed_notifier.Prelude.{◌≡◌, String, List, ⊤, some, inl, inr}
use delayed_notifier.Prelude.Membership.{Member}
use delayed_notifier.Go.Errors.{Result}
use delayed_notifier.Domain.Model.{Uuid, Notification, status_scheduled}
use delayed_notifier.Domain.Ports.{NotificationRepository, NotificationQueue, Notifier}
use delayed_notifier.Domain.Json.{JsonCodec}
use delayed_notifier.Domain.Contract.{Same, Ensures-cases, LawfulRepository}
use delayed_notifier.Threads.{Task, Picks, Site, ready}
use delayed_notifier.Threads.Kept.{Carries, Kept, AllKept, NoneNew, Picks-Kept, Kept-more}

module _ {R Q N : Type 0} (json : JsonCodec) (repo : NotificationRepository R)
    (queue : NotificationQueue Q) (notifier : Notifier N) (parse_address : String → Result ⊤)
    (L : LawfulRepository repo) where
  -- The state is valid, and each scheduled notification is looked after.
  abbrev pub Accounted : Site R Q N → Type 0
  Accounted s = L.Valid s.world.repo × AllKept (L.view s.world.repo) (ready s) s.tasks s.lost

  -- A goroutine moves and leaves the store's scheduled entries, or some of them.
  pub picked :
      (s s' : Site R Q N) (t : Task) {rest : List Task}
      → Picks t s.tasks rest
      → NoneNew (L.view s.world.repo) (L.view s'.world.repo)
      → ((j : Uuid) (n : Notification)
          → L.view s'.world.repo j ≡ some n
          → n.status ≡ status_scheduled
          → Carries j t
          → Kept j (ready s') s'.tasks s'.lost)
      → ((j : Uuid) → Member j (ready s) → Member j (ready s'))
      → ((u : Task) → Member u rest → Member u s'.tasks)
      → ((j : Uuid) → Member j s.lost → Member j s'.lost)
      → AllKept (L.view s.world.repo) (ready s) s.tasks s.lost
      → AllKept (L.view s'.world.repo) (ready s') s'.tasks s'.lost
  picked s s' t p none_new moved f g h k j n was scheduled =
      Picks-Kept j t p (moved j n was scheduled) (f j) g (h j)
        (k j n (none_new j n was scheduled) scheduled)

  pub more :
      (s s' : Site R Q N)
      → NoneNew (L.view s.world.repo) (L.view s'.world.repo)
      → ((j : Uuid) → Member j (ready s) → Member j (ready s'))
      → ((u : Task) → Member u s.tasks → Member u s'.tasks)
      → ((j : Uuid) → Member j s.lost → Member j s'.lost)
      → AllKept (L.view s.world.repo) (ready s) s.tasks s.lost
      → AllKept (L.view s'.world.repo) (ready s') s'.tasks s'.lost
  more s s' none_new f g h k j n was scheduled =
      Kept-more j (f j) g (h j) (k j n (none_new j n was scheduled) scheduled)

  -- A lookup, whatever it answers.
  pub looked :
      (r : R) (id : Uuid)
      → L.Valid r
      → L.Valid (repo.get_by_id id r).1 × Same (L.view r) (L.view (repo.get_by_id id r).1)
  looked r id valid = elim (Ensures-cases (repo.get_by_id id r) (L.get_law r id valid)) [
    | inl (n, s, e, (v, read)) ↦ rw e (v, read.same)
    | inr (b, s, e, (v, refused)) ↦ rw e (v, refused.same)
  ]
