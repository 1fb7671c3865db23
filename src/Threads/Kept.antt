-- ===== src/Threads/Kept.antt =====
-- Where the notification of an id is still looked after, by the goroutines, the broker or the ids lost.
use mathlib.Core.Option.{some-injective}
use delayed_notifier.Prelude.{
  true, Option, none, ◌≡◌, ◌≢◌, refl, List, ◌∷◌, some, sym, ap, ◌∙◌, ◌⊎◌, inl, inr, subst,
}
use delayed_notifier.Prelude.Membership.{Member, here, there}
use delayed_notifier.Domain.Model.{Uuid, Notification, status_scheduled}
use delayed_notifier.Domain.Contract.{View, Same, SameBut}
use delayed_notifier.Domain.Status.{status_of}
use delayed_notifier.Consumer.Handler.{nacked}
use delayed_notifier.Threads.{
  Task, publishing, cancelling, received, sending, answered, settling, Picks, this, other,
}

-- The id of the notification that a goroutine goes on to publish, or has a message of to answer.
abbrev pub subject : Task → Option Uuid
subject (publishing c) = some c.id
subject (cancelling _ _) = none
subject (received n) = some n.id
subject (sending n) = some n.id
subject (answered n _) = some n.id
subject (settling n (nacked true)) = some n.id
subject (settling _ _) = none

abbrev pub Carries : Uuid → Task → Type 0
Carries j t = subject t ≡ some j

pub here_at :
    (i j : Uuid) (ids : List Uuid) → ◌≡◌ {A = Option Uuid} (some i) (some j) → Member j (i ∷ ids)
here_at i j ids e = subst (λ k. Member k (i ∷ ids)) (some-injective i j e) here

-- The broker may deliver a message of the id, a goroutine carries one, or the id is among the lost.
pub data Kept (j : Uuid) (ids : List Uuid) (tasks : List Task) (lost : List Uuid) : Type 0 where
  waiting : Member j ids → Kept j ids tasks lost
  carried : (t : Task) → Member t tasks → Carries j t → Kept j ids tasks lost
  gone : Member j lost → Kept j ids tasks lost

-- Every scheduled notification is looked after.
abbrev pub AllKept : View → List Uuid → List Task → List Uuid → Type 0
AllKept v ids tasks lost =
    (j : Uuid) (n : Notification)
    → v j ≡ some n
    → n.status ≡ status_scheduled
    → Kept j ids tasks lost

-- What is scheduled was so before.
abbrev pub NoneNew : View → View → Type 0
NoneNew v v' =
    (j : Uuid) (n : Notification) → v' j ≡ some n → n.status ≡ status_scheduled → v j ≡ some n

pub Same-NoneNew : {v v' : View} → Same v v' → NoneNew v v'
Same-NoneNew same j n was scheduled = sym (same j) ∙ was

-- A scheduled notification is not the one whose entry is over.
pub not_over :
    (v' : View) (id : Uuid) (m : Notification)
    → v' id ≡ some m
    → m.status ≢ status_scheduled
    → (j : Uuid) (n : Notification) → v' j ≡ some n
    → n.status ≡ status_scheduled
    → j ≢ id
not_over v' id m is final j n was scheduled same =
    final (status_of was (ap v' same ∙ is) ∙ scheduled)

pub SameBut-NoneNew :
    {v v' : View} (id : Uuid) (m : Notification)
    → SameBut id v v'
    → v' id ≡ some m
    → m.status ≢ status_scheduled
    → NoneNew v v'
SameBut-NoneNew {v} {v'} id m others is final j n was scheduled =
    sym (others j (not_over v' id m is final j n was scheduled)) ∙ was

-- An element is the one that was picked, or still there.
pub Picks-Member {ℓ} :
    {A : Type ℓ} {a b : A} {l rest : List A} → Picks a l rest → Member b l → (b ≡ a) ⊎ Member b rest
Picks-Member this here = inl refl
Picks-Member this (there m) = inr m
Picks-Member (other p) here = inr here
Picks-Member (other p) (there m) = elim (Picks-Member p m) [ inl e ↦ inl e | inr k ↦ inr (there k) ]

module _ {ids ids' lost lost' : List Uuid} {tasks rest tasks' : List Task} where
  -- A goroutine moves: what it carried is looked after, and nothing else is dropped.
  pub Picks-Kept :
      (j : Uuid) (t : Task)
      → Picks t tasks rest
      → (Carries j t → Kept j ids' tasks' lost')
      → (Member j ids → Member j ids')
      → ((u : Task) → Member u rest → Member u tasks')
      → (Member j lost → Member j lost')
      → Kept j ids tasks lost
      → Kept j ids' tasks' lost'
  Picks-Kept j t p moved f g h (waiting m) = waiting (f m)
  Picks-Kept j t p moved f g h (gone m) = gone (h m)
  Picks-Kept j t p moved f g h (carried u m c) = elim (Picks-Member p m) [
    | inl e ↦ moved (subst (Carries j) e c)
    | inr k ↦ carried u (g u k) c
  ]

-- More messages, goroutines or lost ids.
pub Kept-more :
    {ids ids' lost lost' : List Uuid} {tasks tasks' : List Task} (j : Uuid)
    → (Member j ids → Member j ids')
    → ((u : Task) → Member u tasks → Member u tasks')
    → (Member j lost → Member j lost')
    → Kept j ids tasks lost
    → Kept j ids' tasks' lost'
Kept-more j f g h (waiting m) = waiting (f m)
Kept-more j f g h (carried u m c) = carried u (g u m) c
Kept-more j f g h (gone m) = gone (h m)
