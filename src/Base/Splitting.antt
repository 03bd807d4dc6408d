-- ===== src/Base/Splitting.antt =====
-- Splitting a text at a unit, in one piece and in several.
use Prim.Native.Nat.{ℕ}
use mathlib.Core.Path.{◌≡◌, refl, sym, ap, ◌∙◌}
use mathlib.Core.Logic.{inl, inr}
use mathlib.Core.Bool.{Bool, true, false}
use mathlib.Core.List.{List, [], ◌∷◌, ◌++◌, append-nil, append_assoc}
use native.Mathlib.Omega.{arith}
use logdeck.Base.Tests.{nat_eq, Bool-cases}
use logdeck.Base.Lists.{any}
use logdeck.Base.Text.{Text, split_last, split, newline}

abbrev pub has_unit : ℕ → Text → Bool
has_unit sep s = any (λ c. nat_eq c sep) s

abbrev pub has_newline : Text → Bool
has_newline s = has_unit newline s

module _ (sep : ℕ) where
  pub split_last-append :
      (done : List Text) (cur s t : Text)
      → split_last sep done cur (s ++ t)
        ≡ split_last sep (split_last sep done cur s).0 (split_last sep done cur s).1 t
  split_last-append done cur [] t = refl
  split_last-append done cur (c ∷ s) t = elim (Bool-cases (nat_eq c sep)) [
    | inl e ↦ rw (split_last, e) (split_last-append (done ++ cur ∷ []) [] s t)
    | inr e ↦ rw (split_last, e) (split_last-append done (cur ++ c ∷ []) s t)
  ]

  -- What was split off before only stands in front.
  pub split_last-done :
      (done : List Text) (cur s : Text)
      → split_last sep done cur s
        ≡ (done ++ (split_last sep [] cur s).0, (split_last sep [] cur s).1)
  split_last-done done cur [] = ap (λ d. (d, cur)) (sym (append-nil done))
  split_last-done done cur (c ∷ s) = elim (Bool-cases (nat_eq c sep)) [
    | inl e ↦
        rw (split_last, e)
          (rw (split_last-done (done ++ cur ∷ []) [] s, split_last-done (cur ∷ []) [] s)
            (ap (λ d. (d, (split_last sep [] [] s).1))
              (append_assoc done (cur ∷ []) (split_last sep [] [] s).0)))
    | inr e ↦ rw (split_last, e) (split_last-done done (cur ++ c ∷ []) s)
  ]

  -- A text without a sep is not split.
  pub split_last_plain :
      (done : List Text) (cur s : Text)
      → has_unit sep s ≡ false
      → split_last sep done cur s ≡ (done, cur ++ s)
  split_last_plain done cur [] h = ap (λ d. (done, d)) (sym (append-nil cur))
  split_last_plain done cur (c ∷ s) h =
      let e : nat_eq c sep ≡ false = ground arith in
      let h' : has_unit sep s ≡ false = ground arith in
      rw (split_last, e)
        (split_last_plain done (cur ++ c ∷ []) s h'
          ∙ ap (λ d. (done, d)) (append_assoc cur (c ∷ []) s))

  pub has_unit-append :
      (s t : Text) → has_unit sep s ≡ false → has_unit sep t ≡ false → has_unit sep (s ++ t) ≡ false
  has_unit-append [] t h k = k
  has_unit-append (c ∷ s) t h k =
      let e : nat_eq c sep ≡ false = ground arith in
      let h' : has_unit sep s ≡ false = ground arith in rw e (has_unit-append s t h' k)

  -- The rest behind the last sep has none.
  pub has_unit-split_last :
      (done : List Text) (cur s : Text)
      → has_unit sep cur ≡ false
      → has_unit sep (split_last sep done cur s).1 ≡ false
  has_unit-split_last done cur [] h = h
  has_unit-split_last done cur (c ∷ s) h = elim (Bool-cases (nat_eq c sep)) [
    | inl e ↦ rw (split_last, e) (has_unit-split_last (done ++ cur ∷ []) [] s refl)
    | inr e ↦
        let one : has_unit sep (c ∷ []) ≡ false = ground arith in
        rw (split_last, e)
          (has_unit-split_last done (cur ++ c ∷ []) s (has_unit-append cur (c ∷ []) h one))
  ]

  split_last-sep :
      (done : List Text) (cur t : Text)
      → split_last sep done cur (sep ∷ t) ≡ split_last sep (done ++ cur ∷ []) [] t
  split_last-sep done cur t =
      let self : nat_eq sep sep ≡ true = ground arith in rw (split_last, self) refl

  pub split-cons :
      (l t : Text) → has_unit sep l ≡ false → split sep (l ++ sep ∷ t) ≡ l ∷ split sep t
  split-cons l t h =
      rw
        (
          split_last-append [] [] l (sep ∷ t),
          split_last_plain [] [] l h,
          split_last-sep [] l t,
          split_last-done (l ∷ []) [] t,
        )
        refl

  pub split-one : (l : Text) → has_unit sep l ≡ false → split sep l ≡ l ∷ []
  split-one l h = rw (split_last_plain [] [] l h) refl
