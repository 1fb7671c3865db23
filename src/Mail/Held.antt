-- ===== src/Mail/Held.antt =====
-- The ids of the messages that the broker holds, beside the scheduled notifications of a view.
use delayed_notifier.Prelude.{
  ◌==◌, ◌≡◌, ◌≢◌, List, [], ◌∷◌, ⊤, some, inl, inr, ap, sym, ◌∙◌, arith, Bool-cases,
}
use delayed_notifier.Prelude.Membership.{Member, here, there}
use delayed_notifier.Go.Errors.{Error, Result, ok, err}
use delayed_notifier.Domain.Model.{Uuid, Notification, status_scheduled}
use delayed_notifier.Domain.Contract.{View, Same, SameBut}
use delayed_notifier.Domain.Status.{status_of}
use delayed_notifier.Mail.{add_published, take_away}

-- A message of another id stays.
Member-take_away :
    (j id : Uuid) (ids : List Uuid) → j ≢ id → Member j ids → Member j (take_away id ids)
Member-take_away j id [] ne i = elim i [ ]
Member-take_away j id (x ∷ xs) ne here = elim (Bool-cases (x == id)) [
  | inl same ↦ absurd (ne (ground arith))
  | inr other ↦ rw other here
]
Member-take_away j id (x ∷ xs) ne (there i) = elim (Bool-cases (x == id)) [
  | inl same ↦ rw same i
  | inr other ↦ rw other (there (Member-take_away j id xs ne i))
]

pub take_away_head : (id : Uuid) (ids : List Uuid) → take_away id (id ∷ ids) ≡ ids
take_away_head id ids = ground arith

-- Every scheduled notification has a message.
abbrev pub AllHeld : View → List Uuid → Type 0
AllHeld v ids =
    (j : Uuid) (n : Notification) → v j ≡ some n → n.status ≡ status_scheduled → Member j ids

pub Same-AllHeld : {v v' : View} {ids : List Uuid} → Same v v' → AllHeld v ids → AllHeld v' ids
Same-AllHeld same h j n was scheduled = h j n (sym (same j) ∙ was) scheduled

-- The entry of one id is over, so that its message may go.
pub SameBut-AllHeld :
    {v v' : View} {ids : List Uuid} (id : Uuid) (m : Notification)
    → SameBut id v v'
    → v' id ≡ some m
    → m.status ≢ status_scheduled
    → AllHeld v ids
    → AllHeld v' ids × AllHeld v' (take_away id ids)
SameBut-AllHeld {v} {v'} {ids} id m others is final h = (
  λ j n was scheduled. h j n (sym (others j (away j n was scheduled)) ∙ was) scheduled,
  λ j n was scheduled.
      Member-take_away j id ids (away j n was scheduled)
        (h j n (sym (others j (away j n was scheduled)) ∙ was) scheduled),
)
  where
    away : (j : Uuid) (n : Notification) → v' j ≡ some n → n.status ≡ status_scheduled → j ≢ id
    away j n was scheduled same = final (status_of was (ap v' same ∙ is) ∙ scheduled)

module _ {Q : Type 0} where
  pub added-ok :
      (id : Uuid) (ids : List Uuid) (x : Result ⊤ × Q) (y : List Uuid × Q)
      → add_published id ids x ≡ (ok tt, y)
      → y.0 ≡ id ∷ ids
  added-ok id ids (ok u, q) y e = sym (ap (λ (z : Result ⊤ × (List Uuid × Q)). z.1.0) e)
  added-ok id ids (err b, q) y e = cc

  pub added-err :
      (id : Uuid) (ids : List Uuid) (x : Result ⊤ × Q) (b : Error) (y : List Uuid × Q)
      → add_published id ids x ≡ (err b, y)
      → y.0 ≡ ids
  added-err id ids (ok u, q) b y e = cc
  added-err id ids (err a, q) b y e = sym (ap (λ (z : Result ⊤ × (List Uuid × Q)). z.1.0) e)
