-- ===== src/Base/Sorting.antt =====
-- `sort` with a comparator, which the language says is stable.
use mathlib.Core.Path.{◌≡◌, refl}
use mathlib.Core.List.{List, [], ◌∷◌}
use native.Mathlib.Omega.{arith}
use mathlib.Core.Path.{ap, ◌∙◌}
use mathlib.Core.Bool.{Bool, ◌||◌}
use logdeck.Base.Lists.{length, any}

-- The sign of what the comparator returns.
pub data Compared : Type 0 where
  before same after : Compared

module _ {A : Type 0} (compare : A → A → Compared) where
  -- An entry goes behind those that it comes after, and before those that are the same.
  abbrev pub insert_before : A → List A → List A
  insert_before x [] = x ∷ []
  insert_before x (y ∷ ys) =
      let rest = insert_before x ys in
      elim (compare x y) [ after ↦ y ∷ rest | before ↦ x ∷ y ∷ ys | same ↦ x ∷ y ∷ ys ]

  -- From the last to the first, so that entries that are the same keep their order.
  abbrev pub stable_sort : List A → List A
  stable_sort [] = []
  stable_sort (x ∷ xs) = insert_before x (stable_sort xs)

  length-insert_before : (x : A) (ys : List A) → length (insert_before x ys) ≡ length (x ∷ ys)
  length-insert_before x [] = refl
  length-insert_before x (y ∷ ys) =
      elim (compare x y)
        as (λ c.
          length
            (elim c [ after ↦ y ∷ insert_before x ys | before ↦ x ∷ y ∷ ys | same ↦ x ∷ y ∷ ys ])
          ≡ length (x ∷ y ∷ ys)) [
            | after ↦ omega (arith, length-insert_before x ys)
            | before ↦ refl
            | same ↦ refl
          ]

  pub length-stable_sort : (xs : List A) → length (stable_sort xs) ≡ length xs
  length-stable_sort [] = refl
  length-stable_sort (x ∷ xs) =
      omega (arith, length-insert_before x (stable_sort xs), length-stable_sort xs)

-- A sort keeps what there is.
module _ {A : Type 0} (compare : A → A → Compared) (p : A → Bool) where
  any-insert_before : (x : A) (ys : List A) → any p (insert_before compare x ys) ≡ any p (x ∷ ys)
  any-insert_before x [] = refl
  any-insert_before x (y ∷ ys) =
      elim (compare x y)
        as (λ c.
          any p (elim c [
            | after ↦ y ∷ insert_before compare x ys
            | before ↦ x ∷ y ∷ ys
            | same ↦ x ∷ y ∷ ys
          ])
          ≡ any p (x ∷ y ∷ ys)) [
            | after ↦ ground (arith, any-insert_before x ys)
            | before ↦ refl
            | same ↦ refl
          ]

  pub any-stable_sort : (xs : List A) → any p (stable_sort compare xs) ≡ any p xs
  any-stable_sort [] = refl
  any-stable_sort (x ∷ xs) =
      any-insert_before x (stable_sort compare xs) ∙ ap (λ b. p x || b) (any-stable_sort xs)
