-- ===== src/LogView/Selection/Pinned.antt =====
-- Pinning and unpinning the selected lines.
use logdeck.Base.{
  ℕ, Bool, true, false, not, ◌&&◌, ◌||◌, ◌≡◌, refl, ap, ◌∙◌, none, some, List, [], ◌∷◌, ◌++◌, any,
  all, length, get_elem?, Option-cases, inl, inr, nat_eq, nat_eq_iff, arith, if◌then◌else◌,
}
use logdeck.LogView.Selection.{
  Selection, contains, add, remove, selected_original_indices, all_selected_are_pinned, toggle_pins,
  handle_toggle_pin_selected,
}

contains-append :
    (o : ℕ) (is js : List ℕ) → contains o (is ++ js) ≡ (contains o is || contains o js)
contains-append o [] js = refl
contains-append o (i ∷ is) js = ground (arith, contains-append o is js)

contains-add : (o i : ℕ) (is : List ℕ) → contains o (add i is) ≡ (contains o is || nat_eq o i)
contains-add o i is = ground (arith, contains-append o is (i ∷ []), nat_eq_iff o i)

contains-remove :
    (o i : ℕ) (is : List ℕ) → contains o (remove i is) ≡ (contains o is && not (nat_eq o i))
contains-remove o i [] = refl
contains-remove o i (j ∷ is) =
    ground (arith, contains-remove o i is, nat_eq_iff o i, nat_eq_iff i j, nat_eq_iff o j)

contains-toggle_pins :
    (o : ℕ) (all_pinned : Bool) (is pinned : List ℕ)
    → contains o (toggle_pins all_pinned is pinned)
      ≡ (if contains o is then not all_pinned else contains o pinned)
unfolding toggle_pins
contains-toggle_pins o b [] pinned = refl
contains-toggle_pins o true (i ∷ is) pinned =
    contains-toggle_pins o true is (remove i pinned)
    ∙ (rw (contains-remove o i pinned) (ground arith))
contains-toggle_pins o false (i ∷ is) pinned =
    contains-toggle_pins o false is (add i pinned) ∙ (rw (contains-add o i pinned) (ground arith))

-- All of some indices are pinned alike.
all-alike :
    (b : Bool) (is pinned : List ℕ)
    → ((o : ℕ) → contains o is ≡ true → contains o pinned ≡ b)
    → all (λ o. contains o pinned) is ≡ (b || nat_eq (length is) 0)
all-alike b [] pinned same = ground arith
all-alike true (i ∷ is) pinned same =
    let self : nat_eq i i ≡ true = (nat_eq_iff i i).1 refl in
    let here : contains i pinned ≡ true = same i (rw self refl) in
    let rest = all-alike true is pinned (λ o h. same o (rw h (ground arith))) in rw here rest
all-alike false (i ∷ is) pinned same =
    let self : nat_eq i i ≡ true = (nat_eq_iff i i).1 refl in
    let here : contains i pinned ≡ false = same i (rw self refl) in rw here (ground arith)

-- Whether one of the selected rows shows the line at an index of the log.
abbrev pub line_selected : List ℕ → List ℕ → ℕ → Bool
line_selected filtered_to_original selected o =
    any (λ row. elim (get_elem? filtered_to_original row) [ none ↦ false | some p ↦ nat_eq o p ])
      selected

-- Whether a selected row shows a line, and each that does shows a pinned one.
abbrev pub every_line_pinned : List ℕ → List ℕ → List ℕ → Bool
every_line_pinned filtered_to_original selected pinned =
    any (λ row. elim (get_elem? filtered_to_original row) [ none ↦ false | some p ↦ true ]) selected
    && all
        (λ row. elim (get_elem? filtered_to_original row) [
          | none ↦ true
          | some p ↦ any (nat_eq p) pinned
        ])
        selected

contains-selected_original_indices :
    (rows selected : List ℕ) (o : ℕ)
    → contains o (selected_original_indices rows selected) ≡ line_selected rows selected o
unfolding selected_original_indices
contains-selected_original_indices rows [] o = refl
contains-selected_original_indices rows (i ∷ is) o = elim (Option-cases (get_elem? rows i)) [
  | inl e ↦ rw (e, selected_original_indices) (contains-selected_original_indices rows is o)
  | inr (p, e) ↦
      rw (e, selected_original_indices)
        (ap (λ b. nat_eq o p || b) (contains-selected_original_indices rows is o))
]

all-selected_original_indices :
    (rows selected : List ℕ) (test : ℕ → Bool)
    → all test (selected_original_indices rows selected)
      ≡ all (λ row. elim (get_elem? rows row) [ none ↦ true | some p ↦ test p ]) selected
unfolding selected_original_indices
all-selected_original_indices rows [] test = refl
all-selected_original_indices rows (i ∷ is) test = elim (Option-cases (get_elem? rows i)) [
  | inl e ↦ rw (e, selected_original_indices) (all-selected_original_indices rows is test)
  | inr (p, e) ↦
      rw (e, selected_original_indices)
        (ap (λ b. test p && b) (all-selected_original_indices rows is test))
]

some-selected_original_indices :
    (rows selected : List ℕ)
    → not (nat_eq (length (selected_original_indices rows selected)) 0)
      ≡ any (λ row. elim (get_elem? rows row) [ none ↦ false | some p ↦ true ]) selected
unfolding selected_original_indices
some-selected_original_indices rows [] = refl
some-selected_original_indices rows (i ∷ is) = elim (Option-cases (get_elem? rows i)) [
  | inl e ↦ rw (e, selected_original_indices) (some-selected_original_indices rows is)
  | inr (p, e) ↦ rw (e, selected_original_indices) (ground arith)
]

all_selected_are_pinned_lem :
    (rows selected pinned : List ℕ)
    → all_selected_are_pinned (selected_original_indices rows selected) pinned
      ≡ every_line_pinned rows selected pinned
unfolding all_selected_are_pinned
all_selected_are_pinned_lem rows selected pinned =
    rw
      (
        some-selected_original_indices rows selected,
        all-selected_original_indices rows selected (λ i. contains i pinned),
      )
      refl

-- By the index of its line in the log, toggled in two steps.
toggled_twice :
    (filtered_to_original : List ℕ) (s : Selection) (pinned : List ℕ) (o : ℕ)
    → let originals = selected_original_indices filtered_to_original s.selected_indices in
      let all_pinned = all_selected_are_pinned originals pinned in
      let once = handle_toggle_pin_selected filtered_to_original s pinned in
      let twice = handle_toggle_pin_selected filtered_to_original s once in
      (contains o once ≡ (if contains o originals then not all_pinned else contains o pinned))
      × (contains o twice ≡ (if contains o originals then all_pinned else contains o pinned))
unfolding handle_toggle_pin_selected all_selected_are_pinned
toggled_twice filtered_to_original s pinned o =
    let originals = selected_original_indices filtered_to_original s.selected_indices in
    let all_pinned = all_selected_are_pinned originals pinned in
    let once = toggle_pins all_pinned originals pinned in
    let first = λ (i : ℕ). contains-toggle_pins i all_pinned originals pinned in
    let alike = all-alike (not all_pinned) originals once (λ i h. first i ∙ (rw h refl)) in
    (
      first o,
      contains-toggle_pins o (all_selected_are_pinned originals once) originals once
          ∙ again o originals all_pinned once pinned alike (first o),
    )
  where
    again :
        (o : ℕ) (is : List ℕ) (b : Bool) (once pinned : List ℕ)
        → all (λ i. contains i once) is ≡ (not b || nat_eq (length is) 0)
        → contains o once ≡ (if contains o is then not b else contains o pinned)
        → (if contains o is
            then not (not (nat_eq (length is) 0) && all (λ i. contains i once) is)
            else contains o once)
          ≡ (if contains o is then b else contains o pinned)
    again o [] b once pinned alike first = first
    again o (i ∷ is) b once pinned alike first = rw alike (ground (arith, first))

-- Toggling the pins of the selected lines pins them all, unless all of them are pinned: then none is
-- afterwards. The lines meant are those that the selected rows show. The pins of other lines stay. A
-- second time it is the other way round: of those lines all are pinned if they all were before, else
-- none.
pub handle_toggle_pin_selected-twice :
    (filtered_to_original : List ℕ) (s : Selection) (pinned : List ℕ) (o : ℕ)
    → let selected = line_selected filtered_to_original s.selected_indices o in
      let all_pinned = every_line_pinned filtered_to_original s.selected_indices pinned in
      let once = handle_toggle_pin_selected filtered_to_original s pinned in
      let twice = handle_toggle_pin_selected filtered_to_original s once in
      (contains o once ≡ (if selected then not all_pinned else contains o pinned))
      × (contains o twice ≡ (if selected then all_pinned else contains o pinned))
handle_toggle_pin_selected-twice filtered_to_original s pinned o =
    let h = toggled_twice filtered_to_original s pinned o in
    let line = contains-selected_original_indices filtered_to_original s.selected_indices o in
    let every = all_selected_are_pinned_lem filtered_to_original s.selected_indices pinned in
    (rw (line, every) at h.0, rw (line, every) at h.1)
