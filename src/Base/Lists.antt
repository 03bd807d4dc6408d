-- ===== src/Base/Lists.antt =====
-- Lists measured and indexed by the native numbers, and the end of a list.
use Prim.Native.Nat.{ℕ, zero, suc, ◌+◌, ◌-◌, ◌<◌, ◌≤◌, min}
use mathlib.Core.Path.{◌≡◌, refl, sym, ap, ap₂, ◌∙◌, ◌≡⟨◌⟩◌, ◌∎}
use mathlib.Core.Bool.{Bool, true, false, ◌&&◌, ◌||◌}
use mathlib.Core.Option.{Option, none, some}
use mathlib.Core.List.{List, [], ◌∷◌, ◌++◌, map}
use native.Mathlib.Omega.{arith}
use native.Mathlib.Decide.{dec_lt}
use mathlib.Core.Logic.{◌⊎◌, ◌↔◌, inl, inr}
use logdeck.Base.Tests.{if◌then◌else◌, Bool-cases, true-ne-false}

module _ {ℓ} {A : Type ℓ} where
  abbrev pub length : List A → ℕ
  length [] = 0
  length (_ ∷ xs) = suc (length xs)

  abbrev pub get_elem? : List A → ℕ → Option A
  get_elem? [] _ = none
  get_elem? (x ∷ _) zero = some x
  get_elem? (_ ∷ xs) (suc i) = get_elem? xs i

  abbrev pub drop : ℕ → List A → List A
  drop zero xs = xs
  drop (suc n) [] = []
  drop (suc n) (_ ∷ xs) = drop n xs

  abbrev pub take : ℕ → List A → List A
  take zero xs = []
  take (suc n) [] = []
  take (suc n) (x ∷ xs) = x ∷ take n xs

  -- What `xs.slice(xs.length - max)` and `xs.slice(-max)` leave of a list longer than `max`.
  abbrev pub last_n : ℕ → List A → List A
  last_n max xs = drop (length xs - max) xs

  abbrev pub any : (A → Bool) → List A → Bool
  any p [] = false
  any p (x ∷ xs) = p x || any p xs

  abbrev pub all : (A → Bool) → List A → Bool
  all p [] = true
  all p (x ∷ xs) = p x && all p xs

  -- `Array.prototype.filter`.
  abbrev pub filter : (A → Bool) → List A → List A
  filter p [] = []
  filter p (x ∷ xs) = if p x then x ∷ filter p xs else filter p xs

  abbrev pub All {κ} : (A → Type κ) → List A → Type κ
  All P [] = Unit
  All P (x ∷ xs) = P x × All P xs

module _ {ℓ} {A : Type ℓ} where
  pub length-append : (xs ys : List A) → length (xs ++ ys) ≡ length xs + length ys
  length-append [] ys = omega arith
  length-append (x ∷ xs) ys = omega (arith, length-append xs ys)

  pub length-drop : (n : ℕ) (xs : List A) → length (drop n xs) ≡ length xs - n
  length-drop zero xs = omega arith
  length-drop (suc n) [] = omega arith
  length-drop (suc n) (x ∷ xs) = omega (arith, length-drop n xs)

  pub drop_all : (n : ℕ) (xs : List A) → length xs ≤ n → drop n xs ≡ []
  drop_all zero [] h = refl
  drop_all zero (x ∷ xs) h = absurd (omega arith)
  drop_all (suc n) [] h = refl
  drop_all (suc n) (x ∷ xs) h = drop_all n xs (omega arith)

  pub drop-drop : (m n : ℕ) (xs : List A) → drop m (drop n xs) ≡ drop (n + m) xs
  drop-drop m zero xs = ap (λ k. drop k xs) (omega arith)
  drop-drop m (suc n) [] = drop_all m [] (omega arith) ∙ sym (drop_all (suc n + m) [] (omega arith))
  drop-drop m (suc n) (x ∷ xs) =
      let e : suc n + m ≡ suc (n + m) = omega arith in rw e (drop-drop m n xs)

  pub drop-append_le :
      (n : ℕ) (xs ys : List A) → n ≤ length xs → drop n (xs ++ ys) ≡ drop n xs ++ ys
  drop-append_le zero xs ys h = refl
  drop-append_le (suc n) [] ys h = absurd (omega arith)
  drop-append_le (suc n) (x ∷ xs) ys h = drop-append_le n xs ys (omega arith)

  pub drop-append_ge :
      (n : ℕ) (xs ys : List A) → length xs ≤ n → drop n (xs ++ ys) ≡ drop (n - length xs) ys
  drop-append_ge n [] ys h = ap (λ k. drop k ys) (omega arith)
  drop-append_ge zero (x ∷ xs) ys h = absurd (omega arith)
  drop-append_ge (suc n) (x ∷ xs) ys h =
      drop-append_ge n xs ys (omega arith) ∙ ap (λ k. drop k ys) (omega arith)

  pub get_elem?-drop : (n i : ℕ) (xs : List A) → get_elem? (drop n xs) i ≡ get_elem? xs (n + i)
  get_elem?-drop zero i xs = ap (λ k. get_elem? xs k) (omega arith)
  get_elem?-drop (suc n) i [] = refl
  get_elem?-drop (suc n) i (x ∷ xs) =
      let e : suc n + i ≡ suc (n + i) = omega arith in rw e (get_elem?-drop n i xs)

  pub get_elem?-append_left :
      (xs ys : List A) (i : ℕ) → i < length xs → get_elem? (xs ++ ys) i ≡ get_elem? xs i
  get_elem?-append_left [] ys i h = absurd (omega arith)
  get_elem?-append_left (x ∷ xs) ys zero h = refl
  get_elem?-append_left (x ∷ xs) ys (suc i) h = get_elem?-append_left xs ys i (omega arith)

  pub length-last_n : (max : ℕ) (xs : List A) → length (last_n max xs) ≡ min max (length xs)
  length-last_n max xs = omega (arith, length-drop (length xs - max) xs)

  -- Capping early drops nothing that capping late would keep.
  pub last_n-append_last_n :
      (max : ℕ) (xs ys : List A) → last_n max (last_n max xs ++ ys) ≡ last_n max (xs ++ ys)
  last_n-append_last_n max xs ys =
      let k = length xs - max in
      let e : length (last_n max xs ++ ys) ≡ length (xs ++ ys) - k =
        omega (arith, length-append (last_n max xs) ys, length-append xs ys, length-drop k xs) in
      let cut : drop k xs ++ ys ≡ drop k (xs ++ ys) = sym (drop-append_le k xs ys (omega arith)) in
      let n : k + (length (xs ++ ys) - k - max) ≡ length (xs ++ ys) - max =
        omega (arith, length-append xs ys) in
      drop (length (last_n max xs ++ ys) - max) (last_n max xs ++ ys)
      ≡⟨ ap₂ drop (ap (λ j. j - max) e) cut ⟩ drop (length (xs ++ ys) - k - max) (drop k (xs ++ ys))
      ≡⟨ drop-drop (length (xs ++ ys) - k - max) k (xs ++ ys) ⟩
        drop (k + (length (xs ++ ys) - k - max)) (xs ++ ys)
      ≡⟨ ap (λ j. drop j (xs ++ ys)) n ⟩ last_n max (xs ++ ys) ∎

  pub last_n-eq_self : (max : ℕ) (xs : List A) → length xs ≤ max → last_n max xs ≡ xs
  last_n-eq_self max xs h = let e : length xs - max ≡ 0 = omega arith in rw e refl

  -- So does capping the tail first.
  pub last_n-append_right :
      (max : ℕ) (xs ys : List A) → last_n max (xs ++ last_n max ys) ≡ last_n max (xs ++ ys)
  last_n-append_right max xs ys = elim (dec_lt max (length ys)) [
    | no few ↦ ap (λ zs. last_n max (xs ++ zs)) (last_n-eq_self max ys (omega arith))
    | yes many ↦
        let kept = last_n max ys in
        let size : length kept ≡ max = omega (arith, length-last_n max ys) in
        let n : length (xs ++ kept) - max ≡ length xs = omega (arith, length-append xs kept) in
        let m : length (xs ++ ys) - max - length xs ≡ length ys - max =
          omega (arith, length-append xs ys) in
        drop (length (xs ++ kept) - max) (xs ++ kept)
        ≡⟨ ap (λ k. drop k (xs ++ kept)) n ⟩ drop (length xs) (xs ++ kept)
        ≡⟨ drop-append_ge (length xs) xs kept (omega arith) ⟩ drop (length xs - length xs) kept
        ≡⟨ (let z : length xs - length xs ≡ 0 = omega arith in rw z refl) ⟩ kept
        ≡⟨ ap (λ k. drop k ys) (sym m) ⟩ drop (length (xs ++ ys) - max - length xs) ys
        ≡⟨ sym
            (drop-append_ge (length (xs ++ ys) - max) xs ys (omega (arith, length-append xs ys))) ⟩
          last_n max (xs ++ ys) ∎
  ]

module _ {A : Type 0} where
  abbrev pub In : A → List A → Type 0
  In x [] = ⊥
  In x (y ∷ ys) = (x ≡ y) ⊎ In x ys

  pub In-filter :
      (p : A → Bool) (x : A) (xs : List A) → In x (filter p xs) ↔ (In x xs × (p x ≡ true))
  In-filter p x [] = (λ h. absurd h, λ h. h.0)
  In-filter p x (y ∷ ys) = elim (Bool-cases (p y)) [
    | inl kept ↦ rw kept (
      λ h. elim h [
        | inl e ↦ (inl e, ap p e ∙ kept)
        | inr t ↦ let (i, q) = (In-filter p x ys).0 t in (inr i, q)
      ],
      λ h. elim h.0 [ inl e ↦ inl e | inr t ↦ inr ((In-filter p x ys).1 (t, h.1)) ],
    )
    | inr left_out ↦ rw left_out (
      λ h. let (i, q) = (In-filter p x ys).0 h in (inr i, q),
      λ h. elim h.0 [
        | inl e ↦ absurd (true-ne-false (sym h.1 ∙ ap p e ∙ left_out))
        | inr t ↦ (In-filter p x ys).1 (t, h.1)
      ],
    )
  ]

  pub In-get_elem? : (x : A) (xs : List A) (k : ℕ) → get_elem? xs k ≡ some x → In x xs
  In-get_elem? x [] k e = cc
  In-get_elem? x (y ∷ ys) zero e = inl (cc)
  In-get_elem? x (y ∷ ys) (suc k) e = inr (In-get_elem? x ys k e)

  pub any-In : (p : A → Bool) (xs : List A) → any p xs ≡ true → (x : A) × In x xs × (p x ≡ true)
  any-In p [] h = cc
  any-In p (x ∷ xs) h = elim (Bool-cases (p x)) [
    | inl e ↦ (x, inl refl, e)
    | inr e ↦ let (y, i, q) = any-In p xs (ground arith) in (y, inr i, q)
  ]

  pub all-In : (p : A → Bool) (x : A) (xs : List A) → all p xs ≡ true → In x xs → p x ≡ true
  all-In p x [] h i = absurd i
  all-In p x (y ∷ ys) h (inl e) = let q : p y ≡ true = ground arith in ap p e ∙ q
  all-In p x (y ∷ ys) h (inr i) = all-In p x ys (ground arith) i

  pub any_of_In : (p : A → Bool) (x : A) (xs : List A) → In x xs → p x ≡ true → any p xs ≡ true
  any_of_In p x [] h e = absurd h
  any_of_In p x (y ∷ ys) h e = elim h [
    | inl q ↦ let r : p y ≡ true = ap p (sym q) ∙ e in rw r refl
    | inr t ↦ let r = any_of_In p x ys t e in ground arith
  ]

module _ {A B : Type 0} where
  pub In-map : (f : A → B) (y : B) (xs : List A) → In y (map f xs) ↔ ((x : A) × In x xs × (y ≡ f x))
  In-map f y [] = (λ h. absurd h, λ h. absurd h.1)
  In-map f y (x ∷ xs) =
      let ih = In-map f y xs in
      (
        λ h. elim h [ inl e ↦ (x, inl refl, e) | inr t ↦ let (z, i, e) = ih.0 t in (z, inr i, e) ],
        λ h.
            let (z, i, e) = h in elim i [ inl q ↦ inl (e ∙ ap f q) | inr t ↦ inr (ih.1 (z, t, e)) ],
      )
