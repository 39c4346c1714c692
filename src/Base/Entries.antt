-- ===== src/Base/Entries.antt =====
-- A Go map with keys that are texts, as the list of its entries.
use Prim.Native.String.{String}
use mathlib.Core.Path.{◌≡◌, refl, sym, ◌∙◌}
use mathlib.Core.Logic.{inl, inr}
use mathlib.Core.Bool.{Bool, true, false}
use mathlib.Core.Option.{Option, none, some}
use mathlib.Core.List.{List, [], ◌∷◌}
use text.Mathlib.TextEquality.{eq_iff}
use friendlyrabbit.Base.Tests.{str_eq, if◌then◌else◌, Bool-cases}

-- A test that has been made gives the same again.
if_again :
    {A : Type 0} (b : Bool) (x y z : A)
    → (if b then x else y) ≡ (if b then x else (if b then z else y))
if_again true x y z = refl
if_again false x y z = refl

-- Two tests that are not both true may change places.
if_swap :
    {A : Type 0} (b c : Bool) (x y z : A)
    → (b ≡ true → c ≡ true → ⊥)
    → (if b then x else (if c then y else z)) ≡ (if c then y else (if b then x else z))
if_swap true true x y z apart = absurd (apart refl refl)
if_swap true false x y z apart = refl
if_swap false true x y z apart = refl
if_swap false false x y z apart = refl

-- Two keys that are both a third are the same.
keys_apart : (i j key : String) → str_eq i key ≡ false → str_eq i j ≡ true → str_eq key j ≡ true → ⊥
keys_apart i j key differ left right =
    let same : i ≡ key = (eq_iff i j).0 left ∙ sym ((eq_iff key j).0 right) in
    let equal : str_eq i key ≡ true = (eq_iff i key).1 same in absurd cc

module _ {A : Type 0} where
  -- `v, ok := m[key]`
  unfoldable pub lookup : String → List (String × A) → Option A
  lookup key [] = none
  lookup key ((j, w) ∷ rest) = if str_eq j key then some w else lookup key rest

  -- `m[key] = v`
  unfoldable pub insert : String → A → List (String × A) → List (String × A)
  insert key v [] = (key, v) ∷ []
  insert key v ((j, w) ∷ rest) =
      if str_eq j key then (key, v) ∷ rest else (j, w) ∷ insert key v rest

  pub lookup-insert :
      (key j : String) (v : A) (t : List (String × A))
      → lookup j (insert key v t) ≡ (if str_eq key j then some v else lookup j t)
  unfolding lookup insert
  lookup-insert key j v [] = refl
  lookup-insert key j v ((i, w) ∷ rest) = elim (Bool-cases (str_eq i key)) [
    | inl is ↦
        let same : i ≡ key = (eq_iff i key).0 is in
        rw (is, same) (if_again (str_eq key j) (some v) (lookup j rest) (some w))
    | inr is ↦
        rw (is, lookup-insert key j v rest)
          (if_swap (str_eq i j) (str_eq key j) (some w) (some v) (lookup j rest)
            (keys_apart i j key is))
  ]
