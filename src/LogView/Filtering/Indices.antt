-- ===== src/LogView/Filtering/Indices.antt =====
-- The two maps between the rows that are shown and the rows of the log.
use logdeck.Base.{
  nat_Key, ℕ, zero, suc, ◌+◌, ◌≤◌, ◌<◌, Bool, true, false, ◌≡◌, ◌⊎◌, ◌↔◌, refl, sym, ap, ◌∙◌, some,
  List, [], ◌∷◌, filter, get_elem?, nat_eq, nat_eq_iff, Bool-cases, inl, inr, arith,
}
use logdeck.Base.Text.{Text}
use logdeck.Base.JsMap.{JsMap, get, set, get-set}
use logdeck.LogEntries.{LogEntry}
use logdeck.LogView.Filtering.{
  FilteredLogItem, LogFilterOptions, indexed, keeps, compute_filtered_log_items,
  filtered_to_original_index, fill_index, original_to_filtered_index,
}

-- Numbers that ascend, from `n` on.
abbrev Above : ℕ → List ℕ → Type 0
Above n [] = Unit
Above n (o ∷ os) = (n ≤ o) × Above (o + 1) os

Above-weaken : (m n : ℕ) (os : List ℕ) → m ≤ n → Above n os → Above m os
Above-weaken m n [] h a = tt
Above-weaken m n (o ∷ os) h a = (omega (arith, a.0), a.1)

Above-indexed :
    (p : FilteredLogItem → Bool) (i : ℕ) (es : List LogEntry)
    → Above i (filtered_to_original_index (filter p (indexed i es)))
Above-indexed p i [] = tt
Above-indexed p i (e ∷ es) =
    let rest = Above-indexed p (i + 1) es in
    elim (Bool-cases (p (record { entry = e; original_index = i }))) [
      | inl q ↦ rw q (omega arith, rest)
      | inr q ↦ rw q (Above-weaken i (i + 1) _ (omega arith) rest)
    ]

-- What comes later is about other rows.
get-fill_index_below :
    (o n i : ℕ) (os : List ℕ) (m : JsMap ℕ ℕ)
    → o < n
    → Above n os
    → get o (fill_index i os m) ≡ get o m
unfolding fill_index
get-fill_index_below o n i [] m h a = refl
get-fill_index_below o n i (k ∷ os) m h a =
    let a0 = a.0 in
    let other : nat_eq k o ≡ false = ground arith in
    get-fill_index_below o (k + 1) (i + 1) os (set k i m) (omega arith) a.1
    ∙ get-set k o i m
    ∙ (rw other refl)

get-fill_index :
    (o n i k : ℕ) (os : List ℕ) (m : JsMap ℕ ℕ)
    → Above n os
    → get_elem? os k ≡ some o
    → get o (fill_index i os m) ≡ some (i + k)
unfolding fill_index
get-fill_index o n i k [] m a h = cc
get-fill_index o n i zero (x ∷ os) m a h =
    let here : x ≡ o = cc in
    let self : nat_eq x o ≡ true = (nat_eq_iff x o).1 here in
    get-fill_index_below o (x + 1) (i + 1) os (set x i m) (omega (arith, here)) a.1
    ∙ get-set x o i m
    ∙ (rw self (ap some (omega arith)))
get-fill_index o n i (suc k) (x ∷ os) m a h =
    get-fill_index o (x + 1) (i + 1) k os (set x i m) a.1 h ∙ ap some (omega arith)

-- What is found was there or was filled in.
fill_index-source :
    (o i j : ℕ) (os : List ℕ) (m : JsMap ℕ ℕ)
    → get o (fill_index i os m) ≡ some j
    → (get o m ≡ some j) ⊎ ((k : ℕ) × (j ≡ i + k) × (get_elem? os k ≡ some o))
unfolding fill_index
fill_index-source o i j [] m h = inl h
fill_index-source o i j (x ∷ os) m h = elim (fill_index-source o (i + 1) j os (set x i m) h) [
  | inr (k, e, g) ↦ inr (suc k, omega arith, g)
  | inl g ↦ elim (Bool-cases (nat_eq x o)) [
    | inl q ↦
        let found : some i ≡ some j = sym (get-set x o i m ∙ (rw q refl)) ∙ g in
        let same : i ≡ j = cc in inr (0, omega arith, ap some ((nat_eq_iff x o).0 q))
    | inr q ↦ inl (sym (get-set x o i m ∙ (rw q refl)) ∙ g)
  ]
]

-- The two maps of the filter are inverse to each other: a row of the log is shown in a place exactly if
-- that place shows it, also where rows are left out.
pub original_to_filtered_index-inverse :
    (to_lower_case : Text → Text) (logs : List LogEntry) (options : LogFilterOptions)
    (original i : ℕ)
    → let originals =
        filtered_to_original_index (compute_filtered_log_items to_lower_case logs options) in
      (get original (original_to_filtered_index originals) ≡ some i)
      ↔ (get_elem? originals i ≡ some original)
unfolding original_to_filtered_index compute_filtered_log_items get
original_to_filtered_index-inverse to_lower_case logs options original i =
    let originals =
      filtered_to_original_index (compute_filtered_log_items to_lower_case logs options) in
    let above = Above-indexed (λ item. keeps to_lower_case options item.entry) 0 logs in
    (
      λ h. elim (fill_index-source original 0 i originals [] h) [
        | inl g ↦ cc
        | inr (k, e, g) ↦ ap (get_elem? originals) (omega arith) ∙ g
      ],
      λ h. get-fill_index original 0 0 i originals [] above h ∙ ap some (omega arith),
    )
