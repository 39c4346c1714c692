-- ===== src/Base/Replacing.antt =====
-- One element of a list is replaced by another.
use Prim.Native.Nat.{ℕ, ◌+◌}
use mathlib.Core.Path.{◌≡◌}
use mathlib.Core.List.{List, ◌∷◌}
use native.Mathlib.Omega.{arith}
use friendlyrabbit.Base.Lists.{total, All}

module _ {A : Type 0} where
  -- One element of the list is another in the second list.
  pub data Replace (x y : A) : List A → List A → Type 0 where
    here : {rest : List A} → Replace x y (x ∷ rest) (y ∷ rest)
    there : {z : A} {xs ys : List A} → Replace x y xs ys → Replace x y (z ∷ xs) (z ∷ ys)

  pub Replace-total :
      (w : A → ℕ) {x y : A} {xs ys : List A}
      → Replace x y xs ys
      → total w ys + w x ≡ total w xs + w y
  Replace-total w here = omega arith
  Replace-total w (there r) = omega (arith, Replace-total w r)

  pub Replace-All :
      (P : A → Type 0) {x y : A} {xs ys : List A}
      → Replace x y xs ys
      → (P x → P y)
      → All P xs
      → All P ys
  Replace-All P here f h = (f h.0, h.1)
  Replace-All P (there r) f h = (h.0, Replace-All P r f h.1)

  pub Replace-first :
      (P : A → Type 0) {x y : A} {xs ys : List A} → Replace x y xs ys → All P xs → P x
  Replace-first P here h = h.0
  Replace-first P (there r) h = Replace-first P r h.1
