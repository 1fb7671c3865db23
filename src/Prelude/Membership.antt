-- ===== src/Prelude/Membership.antt =====
-- Membership in a list.
use mathlib.Core.List.{List, ◌∷◌}

-- Membership, by position.
pub data Member {ℓ} {A : Type ℓ} (a : A) : List A → Type ℓ where
  here : {l : List A} → Member a (a ∷ l)
  there : {b : A} {l : List A} → Member a l → Member a (b ∷ l)
