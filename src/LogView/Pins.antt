-- ===== src/LogView/Pins.antt =====
-- use-log-pins.ts: pinned rows by index, stepping through them, and moving them with the rows.
pub mod Navigation
pub mod Follow
use logdeck.Base.{
  nat_Key, ℕ, ◌+◌, ◌-◌, ◌%◌, Option, none, some, List, [], ◌∷◌, leb, nat_eq, if◌then◌else◌, length,
  get_elem?, ltb, any,
}
use logdeck.Base.Sorting.{Compared, before, same, after, stable_sort}
use logdeck.Base.Int.{ℤ, pos, negsuc}
use logdeck.Base.JsMap.{JsMap, get}

pub record PinNavigationTarget : Type 0 where
  pub pinned_index : ℕ
  pub filtered_index : ℤ

pub data Offset : Type 0 where
  forward backward : Offset

-- `currentPinnedIndex + offset + length`, which is at least 0 for a positive length.
abbrev moved : ℕ → Offset → ℕ → ℕ
moved current forward n = current + 1 + n
moved current backward n = current + n - 1

-- `map.get(...) ?? -1`
abbrev pub or_minus_one : Option ℕ → ℤ
or_minus_one none = negsuc 0
or_minus_one (some i) = pos i

-- A read out of range is `undefined`, which is no key of the map.
abbrev pub filtered_of : Option ℕ → JsMap ℕ ℕ → Option ℕ
filtered_of none m = none
filtered_of (some original) m = get original m

unfoldable pub navigate_pins : List ℕ → ℕ → Offset → JsMap ℕ ℕ → Option PinNavigationTarget
navigate_pins [] current offset m = none
navigate_pins (p ∷ ps) current offset m =
    let sorted = p ∷ ps in
    let pinned_index = moved current offset (length sorted) % length sorted in
    some (record {
      pinned_index = pinned_index;
      filtered_index = or_minus_one (filtered_of (get_elem? sorted pinned_index) m);
    })

-- The loop over the pins: those that the dropped lines took away are left out.
shift_each : ℕ → List ℕ → List ℕ
shift_each delta [] = []
shift_each delta (index ∷ pins) =
    if leb delta index then (index - delta) ∷ shift_each delta pins else shift_each delta pins

unfoldable pub shift_pins_for_dropped_lines : List ℕ → ℕ → List ℕ
unfolding shift_each
shift_pins_for_dropped_lines pins delta = if leb delta 0 then pins else shift_each delta pins

-- The state and the ref of `useLogPins`. A set of pins is a list without repetition.
pub record Pins : Type 0 where
  pub pinned_log_indices : List ℕ
  pub current_pinned_index : ℕ
  pub prev_dropped_count_ref : ℕ

-- The effect on `droppedCount`. `delta <= 0` is a count that did not grow.
unfoldable pub on_dropped_count : ℕ → Pins → Pins
unfolding shift_pins_for_dropped_lines
on_dropped_count dropped_count p =
    if leb dropped_count p.prev_dropped_count_ref
    then record p { prev_dropped_count_ref = dropped_count }
    else record p {
      prev_dropped_count_ref = dropped_count;
      pinned_log_indices =
          shift_pins_for_dropped_lines p.pinned_log_indices
            (dropped_count - p.prev_dropped_count_ref);
    }

-- The effect that keeps the current position inside the list of pins.
unfoldable pub clamp_current : Pins → Pins
clamp_current p =
    let n = length p.pinned_log_indices in
    if nat_eq n 0
    then record p { current_pinned_index = 0 }
    else if leb n p.current_pinned_index
    then record p { current_pinned_index = n - 1 }
    else p

unfoldable pub reset_pins : Pins → Pins
reset_pins p = record p { pinned_log_indices = []; current_pinned_index = 0 }

abbrev ascending : ℕ → ℕ → Compared
ascending a b = if ltb a b then before else if ltb b a then after else same

unfoldable pub sorted_pinned_indices : Pins → List ℕ
sorted_pinned_indices p = stable_sort ascending p.pinned_log_indices

-- The loop over `filteredToOriginalIndex`, from the filtered index `i` on.
unfoldable pub pinned_filtered_indices : ℕ → List ℕ → Pins → List ℕ
pinned_filtered_indices i [] p = []
pinned_filtered_indices i (original ∷ rest) p =
    let more = pinned_filtered_indices (i + 1) rest p in
    if any (nat_eq original) p.pinned_log_indices then i ∷ more else more
