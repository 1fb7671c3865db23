-- ===== src/Redis/Coherence.antt =====
-- `CachedNotificationRepository` over a repository and a cache that keep their contracts: a cache
-- that holds no stale entry stays so, and is then invisible.
use native.Mathlib.Decide.{ℕ_discrete}
use delayed_notifier.Prelude.{◌≡◌, ◌≢◌, ◌⊎◌, inl, inr, none, some, ◌∙◌}
use delayed_notifier.Domain.Model.{Uuid, Notification}
use delayed_notifier.Domain.Contract.{View, Same, SameBut, Within, WithinOr}

-- Every entry of the cache is what the repository holds.
abbrev pub Coherent : View → View → Type 0
Coherent stored entry = (id : Uuid) (n : Notification) → entry id ≡ some n → stored id ≡ some n

pub Coherent-Within : {v v' e e' : View} → Coherent v e → Same v v' → Within e e' → Coherent v' e'
Coherent-Within h same within id n x = same id ∙ h id n (within id n x)

-- The entry that was set may be new, where the repository holds it.
pub Coherent-set :
    {v v' e e' : View} (n : Notification)
    → Coherent v e
    → ((j : Uuid) → j ≢ n.id → v' j ≡ v j)
    → v' n.id ≡ some n
    → (v n.id ≡ none) ⊎ (v n.id ≡ some n)
    → WithinOr n e e'
    → Coherent v' e'
Coherent-set {v} {v'} {e} {e'} n h others now before within id m x = elim (within id m x) [
  | inr (here, same) ↦ cc
  | inl old ↦ elim (ℕ_discrete id n.id) [
    | no ne ↦ others id ne ∙ h id m old
    | yes here ↦ elim before [ inl absent ↦ cc (h id m old) | inr present ↦ cc (h id m old) ]
  ]
]

-- One entry is gone.
pub Coherent-delete :
    {v v' e e' : View} (id : Uuid)
    → Coherent v e
    → SameBut id v v'
    → Within e e'
    → e' id ≡ none
    → Coherent v' e'
Coherent-delete {v} {v'} {e} {e'} id h others within gone j m x =
    others j distinct ∙ h j m (within j m x)
  where
    distinct : j ≢ id
    distinct same = cc
