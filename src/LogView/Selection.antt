-- ===== src/LogView/Selection.antt =====
-- The selection of rows in log-viewer.tsx: clicks, the lines that are pinned or copied by it, and the steps
-- through the matches of a search. Rows are counted as they are shown, pins as they are in the log.
pub mod Pinned
use logdeck.Base.{
  ℕ, zero, suc, ◌+◌, ◌-◌, min, max, Bool, true, false, not, ◌&&◌, Option, none, some, List, [], ◌∷◌,
  ◌++◌, any, all, filter, get_elem?, length, ltb, nat_eq, if◌then◌else◌,
}
use logdeck.Base.Sorting.{Compared, before, same, after, stable_sort}
use logdeck.LogEntries.{LogEntry}

pub record Selection : Type 0 where
  pub selected_indices : List ℕ
  pub expanded_json_rows : List ℕ
  pub last_clicked_index : Option ℕ

-- A `Set` of numbers in the order in which they were added.
abbrev pub contains : ℕ → List ℕ → Bool
contains i is = any (nat_eq i) is

abbrev pub add : ℕ → List ℕ → List ℕ
add i is = if contains i is then is else is ++ i ∷ []

abbrev pub remove : ℕ → List ℕ → List ℕ
remove i is = filter (λ j. not (nat_eq i j)) is

abbrev pub toggle : ℕ → List ℕ → List ℕ
toggle i is = if contains i is then remove i is else add i is

unfoldable pub clear_selection : Selection → Selection
clear_selection s = record s { selected_indices = []; last_clicked_index = none }

unfoldable pub toggle_json_expanded : ℕ → Selection → Selection
toggle_json_expanded index s = record s { expanded_json_rows = toggle index s.expanded_json_rows }

-- `for (let i = start; i <= end; i++)`, over so many numbers.
abbrev pub numbers_from : ℕ → ℕ → List ℕ
numbers_from start zero = []
numbers_from start (suc count) = start ∷ numbers_from (start + 1) count

abbrev pub select_range : ℕ → ℕ → List ℕ
select_range last index =
    let start = min last index in numbers_from start (max last index + 1 - start)

unfoldable pub handle_log_click : (shift : Bool) → ℕ → Selection → Selection
handle_log_click true index s = elim s.last_clicked_index [
  | some last ↦ record s { selected_indices = select_range last index }
  | none ↦ record s {
    selected_indices = toggle index s.selected_indices;
    last_clicked_index = some index;
  }
]
handle_log_click false index s = record s {
  selected_indices = toggle index s.selected_indices;
  last_clicked_index = some index;
}

-- The effect on a change of the filters.
unfoldable pub filters_changed : Selection → Selection
unfolding clear_selection
filters_changed s = record (clear_selection s) { expanded_json_rows = [] }

-- `filteredToOriginalIndex[index] ?? -1`, those below 0 left out.
unfoldable pub selected_original_indices : List ℕ → List ℕ → List ℕ
selected_original_indices filtered_to_original [] = []
selected_original_indices filtered_to_original (index ∷ rest) =
    let originals = selected_original_indices filtered_to_original rest in
    elim (get_elem? filtered_to_original index) [
      | none ↦ originals
      | some original ↦ original ∷ originals
    ]

unfoldable pub all_selected_are_pinned : List ℕ → List ℕ → Bool
all_selected_are_pinned originals pinned =
    not (nat_eq (length originals) 0) && all (λ i. contains i pinned) originals

-- The `forEach`, with what was computed before it.
unfoldable pub toggle_pins : (all_pinned : Bool) → List ℕ → List ℕ → List ℕ
toggle_pins all_pinned [] pinned = pinned
toggle_pins all_pinned (index ∷ rest) pinned =
    toggle_pins all_pinned rest (if all_pinned then remove index pinned else add index pinned)

-- With nothing selected `forEach` has no turn, so the early return needs no clause.
unfoldable pub handle_toggle_pin_selected : List ℕ → Selection → List ℕ → List ℕ
unfolding selected_original_indices all_selected_are_pinned toggle_pins
handle_toggle_pin_selected filtered_to_original s pinned =
    let originals = selected_original_indices filtered_to_original s.selected_indices in
    toggle_pins (all_selected_are_pinned originals pinned) originals pinned

-- The steps through the matches: the new position, or none without matches.
unfoldable pub go_to_previous_match : List ℕ → ℕ → Option ℕ
go_to_previous_match [] current = none
go_to_previous_match (m ∷ ms) current =
    some (if ltb 0 current then current - 1 else length (m ∷ ms) - 1)

unfoldable pub go_to_next_match : List ℕ → ℕ → Option ℕ
go_to_next_match [] current = none
go_to_next_match (m ∷ ms) current =
    some (if ltb current (length (m ∷ ms) - 1) then current + 1 else 0)

abbrev ascending : ℕ → ℕ → Compared
ascending a b = if ltb a b then before else if ltb b a then after else same

abbrev pub entries_at : List LogEntry → List ℕ → List LogEntry
entries_at filtered [] = []
entries_at filtered (i ∷ is) = elim (get_elem? filtered i) [
  | none ↦ entries_at filtered is
  | some e ↦ e ∷ entries_at filtered is
]

-- The entries that `handleCopySelected` formats, in order.
unfoldable pub copied_entries : List LogEntry → Selection → List LogEntry
copied_entries filtered s = entries_at filtered (stable_sort ascending s.selected_indices)
