-- ===== src/Domain/Status.antt =====
-- The life of a notification: what one step of the system may do to the entry of an id.
use native.Mathlib.Decide.{ℕ_discrete}
use mathlib.Core.Option.{some-injective}
use delayed_notifier.Prelude.{
  ◌≡◌, ◌≢◌, refl, inl, inr, Option, none, some, ◌∙◌, sym, ap, eq_iff, arith, subst,
}
use delayed_notifier.Domain.Model.{
  Uuid, Status, Notification, status_scheduled, status_sent, status_failed, status_cancelled,
}
use delayed_notifier.Domain.Ports.{NotificationRepository}
use delayed_notifier.Domain.Contract.{View, Same, core, Ensures-cases, LawfulRepository}

-- The statuses of domain/model/notification.go but `scheduled`.
pub data IsFinal (s : Status) : Type 0 where
  sent : s ≡ status_sent → IsFinal s
  failed : s ≡ status_failed → IsFinal s
  cancelled : s ≡ status_cancelled → IsFinal s

pub data Moves (o o' : Option Notification) : Type 0 where
  stays : o' ≡ o → Moves o o'
  starts : (n : Notification) → o ≡ none → o' ≡ some n → n.status ≡ status_scheduled → Moves o o'
  ends :
      (old new : Notification)
      → o ≡ some old
      → o' ≡ some new
      → old.status ≡ status_scheduled
      → IsFinal new.status
      → core new ≡ core old
      → Moves o o'

-- Every id moves, or stays.
abbrev pub AllMove : View → View → Type 0
AllMove v v' = (j : Uuid) → Moves (v j) (v' j)

pub IsFinal-ne-scheduled : {s : Status} → IsFinal s → s ≢ status_scheduled
IsFinal-ne-scheduled (sent e) h = ground (arith, eq_iff status_sent status_scheduled)
IsFinal-ne-scheduled (failed e) h = ground (arith, eq_iff status_failed status_scheduled)
IsFinal-ne-scheduled (cancelled e) h = ground (arith, eq_iff status_cancelled status_scheduled)

-- A final entry does not move.
pub Moves-final :
    {o o' : Option Notification} (n : Notification)
    → Moves o o'
    → o ≡ some n
    → n.status ≢ status_scheduled
    → o' ≡ o
Moves-final n (stays e) h final = e
Moves-final n (starts m absent _ _) h final = cc
Moves-final n (ends old new was _ scheduled _ _) h final =
    let same : old ≡ n = cc in
    absurd (final (ap (λ (m : Notification). m.status) (sym same) ∙ scheduled))

-- An entry that moves keeps its content.
pub Moves-core :
    {o o' : Option Notification} (n : Notification)
    → Moves o o'
    → o ≡ some n
    → (m : Notification) × (o' ≡ some m) × (core m ≡ core n)
Moves-core n (stays e) h = (n, e ∙ h, refl)
Moves-core n (starts m absent _ _) h = cc
Moves-core n (ends old new was is _ _ kept) h =
    (new, is, kept ∙ ap core (some-injective old n (sym was ∙ h)))

-- A move after a read.
pub AllMove-Same : {v v' v'' : View} → Same v v' → AllMove v' v'' → AllMove v v''
AllMove-Same same moves j = rw (same j) at (moves j)

-- One entry has one status.
pub status_of :
    {o : Option Notification} {n m : Notification} → o ≡ some n → o ≡ some m → m.status ≡ n.status
status_of {o} {n} {m} p q = ap (λ (k : Notification). k.status) (some-injective m n (sym q ∙ p))

module _ {S : Type 0} (repo : NotificationRepository S) (R : LawfulRepository repo) where
  -- An update of a scheduled notification to a final status.
  pub update_moves :
      (s : S) (n old : Notification)
      → R.Valid s
      → R.view s n.id ≡ some old
      → old.status ≡ status_scheduled
      → IsFinal n.status
      → R.Valid (repo.update n s).1 × AllMove (R.view s) (R.view (repo.update n s).1)
  update_moves s n old valid was scheduled final =
      elim (Ensures-cases (repo.update n s) (R.update_law s n valid)) [
        | inr (e, s', bad, (valid', refused)) ↦ rw bad (valid', λ j. stays (refused.same j))
        | inl (u, s', done, (valid', changed)) ↦ rw done (
          valid',
          λ j. elim (ℕ_discrete j n.id) [
            | no ne ↦ stays (changed.others j ne)
            | yes here ↦ rw here (
                ends changed.old changed.new changed.before changed.after
                  (status_of was changed.before ∙ scheduled)
                  (subst IsFinal (sym changed.related.status) final) changed.related.kept)
          ],
        )
      ]

  pub delete_moves :
      (s : S) (id : Uuid) (old : Notification)
      → R.Valid s
      → R.view s id ≡ some old
      → old.status ≡ status_scheduled
      → R.Valid (repo.delete id s).1 × AllMove (R.view s) (R.view (repo.delete id s).1)
  delete_moves s id old valid was scheduled =
      elim (Ensures-cases (repo.delete id s) (R.delete_law s id valid)) [
        | inr (e, s', bad, (valid', refused)) ↦ rw bad (valid', λ j. stays (refused.same j))
        | inl (u, s', done, (valid', changed)) ↦ rw done (
          valid',
          λ j. elim (ℕ_discrete j id) [
            | no ne ↦ stays (changed.others j ne)
            | yes here ↦ rw here (
                ends changed.old changed.new changed.before changed.after
                  (status_of was changed.before ∙ scheduled) (cancelled changed.related.status)
                  changed.related.kept)
          ],
        )
      ]
