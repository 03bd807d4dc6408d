-- ===== src/LogView/Filtering.antt =====
-- `computeFilteredLogItems` and the maps of `useLogFiltering`, in use-log-filtering.ts.
pub mod Shown
pub mod Exclusion
pub mod Indices
use logdeck.Base.{
  nat_Key, ℕ, ◌+◌, Bool, true, false, not, ◌&&◌, Option, none, some, List, [], ◌∷◌, ◌++◌, map,
  if◌then◌else◌, any, filter,
}
use logdeck.Base.Text.{Text, truthy}
use logdeck.Base.JsMap.{JsMap, set}
use logdeck.LogEntries.{LogLevel, LogEntry, level_eq}
use logdeck.Base.Sorting.{stable_sort}
use logdeck.LogView.ViewState.{level_name, compare_texts}
use logdeck.LogView.Search.{SearchParsed, contains_text, shown_line}

pub record LogFilterOptions : Type 0 where
  pub selected_levels : List LogLevel
  pub exclude_matches : Bool
  pub search_text : Text
  pub use_regex : Bool
  pub search_parsed : SearchParsed

pub record FilteredLogItem : Type 0 where
  pub entry : LogEntry
  pub original_index : ℕ

-- A level is a non-empty string, so `entry.level` is always truthy.
unfoldable pub level_kept : List LogLevel → LogEntry → Bool
level_kept [] e = true
level_kept (l ∷ ls) e = any (level_eq e.level) (l ∷ ls)

-- `logs.map((entry, originalIndex) => ({ entry, originalIndex }))`, from index `i` on.
abbrev pub indexed : ℕ → List LogEntry → List FilteredLogItem
indexed i [] = []
indexed i (e ∷ es) = record { entry = e; original_index = i } ∷ indexed (i + 1) es

module _ (to_lower_case : Text → Text) where
  -- An invalid expression excludes nothing.
  unfoldable pub excluded : Text → Bool → Option (Text → Bool) → LogEntry → Bool
  excluded search_text true (some test) e = test (shown_line e)
  excluded search_text true none e = false
  excluded search_text false regex e = contains_text to_lower_case search_text e

  -- The callback of `filter`.
  unfoldable pub keeps : LogFilterOptions → LogEntry → Bool
  keeps o e =
      if not (level_kept o.selected_levels e)
      then false
      else if o.exclude_matches && truthy o.search_text
      then not (excluded o.search_text o.use_regex o.search_parsed.regex e)
      else true

  unfoldable pub compute_filtered_log_items :
      List LogEntry → LogFilterOptions → List FilteredLogItem
  compute_filtered_log_items logs o = filter (λ item. keeps o item.entry) (indexed 0 logs)

abbrev pub filtered_logs : List FilteredLogItem → List LogEntry
filtered_logs items = map (λ (item : FilteredLogItem). item.entry) items

abbrev pub filtered_to_original_index : List FilteredLogItem → List ℕ
filtered_to_original_index items = map (λ (item : FilteredLogItem). item.original_index) items

-- The loop that fills `originalToFilteredIndex`, from the filtered index `i` on.
unfoldable pub fill_index : ℕ → List ℕ → JsMap ℕ ℕ → JsMap ℕ ℕ
unfolding set
fill_index i [] m = m
fill_index i (original ∷ rest) m = fill_index (i + 1) rest (set original i m)

unfoldable pub original_to_filtered_index : List ℕ → JsMap ℕ ℕ
unfolding fill_index
original_to_filtered_index originals = fill_index 0 originals []

-- The loop that collects the levels.
abbrev collect : List LogEntry → List LogLevel → List LogLevel
collect [] ls = ls
collect (e ∷ es) ls = collect es (if any (level_eq e.level) ls then ls else ls ++ e.level ∷ [])

unfoldable pub available_log_levels : List LogEntry → List LogLevel
available_log_levels logs =
    stable_sort (λ a b. compare_texts (level_name a) (level_name b)) (collect logs [])
