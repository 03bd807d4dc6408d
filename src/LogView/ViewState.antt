-- ===== src/LogView/ViewState.antt =====
-- The view state of the log viewer in the address of its page, in use-log-view-state.ts, and the time range
-- of it, in time-range.ts.
pub mod Levels
use logdeck.Base.{
  ℕ, ◌-◌, ◌*◌, Bool, true, false, Option, none, some, List, [], ◌∷◌, ◌++◌, map, any, ltb,
  if◌then◌else◌,
}
use logdeck.Base.Sorting.{Compared, before, same, after, stable_sort}
use logdeck.Base.Text.{Text, codes, text_eq, truthy, split, join}
use logdeck.LogEntries.{
  LogLevel, trace, debug, info, warn, warning, error, fatal, panic, unknown, level_eq,
}

pub data TimeRangePreset : Type 0 where
  all_time last_15m last_1h last_6h last_24h custom : TimeRangePreset

-- Times as texts, in ISO format.
pub record TimeRange : Type 0 where
  pub preset : TimeRangePreset
  pub since : Option Text
  pub until : Option Text

abbrev pub all_time_range : TimeRange
all_time_range = record { preset = all_time; since = none; until = none }

-- What the logs are asked for with.
pub record Bounds : Type 0 where
  pub since : Option Text
  pub until : Option Text

-- `toISOString` of a time in milliseconds. `now` is later than the durations.
unfoldable pub resolve_time_range : (to_iso_string : ℕ → Text) → (now : ℕ) → TimeRange → Bounds
resolve_time_range to_iso_string now range = elim range.preset [
  | all_time ↦ record { since = none; until = none }
  | custom ↦ record { since = range.since; until = range.until }
  | last_15m ↦ record { since = some (to_iso_string (now - 15 * 60 * 1000)); until = none }
  | last_1h ↦ record { since = some (to_iso_string (now - 60 * 60 * 1000)); until = none }
  | last_6h ↦ record { since = some (to_iso_string (now - 6 * 60 * 60 * 1000)); until = none }
  | last_24h ↦ record { since = some (to_iso_string (now - 24 * 60 * 60 * 1000)); until = none }
]

pub data LogSource : Type 0 where
  live history : LogSource

-- The parameters of the address, with their defaults; a date is its time.
pub record ViewParams : Type 0 where
  pub source : LogSource
  pub search : Text
  pub regex : Bool
  pub levels : List LogLevel
  pub timestamps : Bool
  pub wrap : Bool
  pub lines : ℕ
  pub range : TimeRangePreset
  pub since : Option ℕ
  pub until : Option ℕ

abbrev pub default_view : ViewParams
default_view = record {
  source = live;
  search = [];
  regex = false;
  levels = [];
  timestamps = true;
  wrap = false;
  lines = 100;
  range = all_time;
  since = none;
  until = none;
}

unfoldable pub set_source : LogSource → ViewParams → ViewParams
set_source value p = record p { source = value }

unfoldable pub set_search_text : Text → ViewParams → ViewParams
set_search_text value p = record p { search = value }

unfoldable pub set_use_regex : Bool → ViewParams → ViewParams
set_use_regex value p = record p { regex = value }

unfoldable pub set_selected_levels : List LogLevel → ViewParams → ViewParams
set_selected_levels value p = record p { levels = value }

unfoldable pub set_show_timestamps : Bool → ViewParams → ViewParams
set_show_timestamps value p = record p { timestamps = value }

unfoldable pub set_wrap_text : Bool → ViewParams → ViewParams
set_wrap_text value p = record p { wrap = value }

unfoldable pub set_log_lines : ℕ → ViewParams → ViewParams
set_log_lines value p = record p { lines = value }

module _ (to_iso_string : ℕ → Text) where
  abbrev iso : Option ℕ → Option Text
  iso none = none
  iso (some t) = some (to_iso_string t)

  unfoldable pub time_range : ViewParams → TimeRange
  time_range p = record { preset = p.range; since = iso p.since; until = iso p.until }

-- `new Date(...)` of a valid date.
module _ (get_time : Text → ℕ) where
  abbrev date_of : TimeRangePreset → Option Text → Option ℕ
  date_of custom (some text) = if truthy text then some (get_time text) else none
  date_of _ _ = none

  unfoldable pub set_time_range : TimeRange → ViewParams → ViewParams
  set_time_range value p = record p {
    range = value.preset;
    since = date_of value.preset value.since;
    until = date_of value.preset value.until;
  }

abbrev pub level_name : LogLevel → Text
level_name trace = codes "TRACE"
level_name debug = codes "DEBUG"
level_name info = codes "INFO"
level_name warn = codes "WARN"
level_name warning = codes "WARNING"
level_name error = codes "ERROR"
level_name fatal = codes "FATAL"
level_name panic = codes "PANIC"
level_name unknown = codes "UNKNOWN"

-- `LOG_LEVELS`
abbrev pub log_levels : List LogLevel
log_levels = trace ∷ debug ∷ info ∷ warn ∷ error ∷ fatal ∷ panic ∷ unknown ∷ []

abbrev pub has_level : LogLevel → List LogLevel → Bool
has_level l ls = any (level_eq l) ls

-- The level that a text names, among these.
abbrev pub level_among : Text → List LogLevel → Option LogLevel
level_among text [] = none
level_among text (m ∷ ms) = if text_eq (level_name m) text then some m else level_among text ms

abbrev pub comma : ℕ
comma = 44

abbrev pub add_level : Option LogLevel → List LogLevel → List LogLevel
add_level none ls = ls
add_level (some l) ls = if has_level l ls then ls else ls ++ l ∷ []

-- The filter and the new `Set`.
abbrev pub collect_levels : List Text → List LogLevel → List LogLevel
collect_levels [] ls = ls
collect_levels (text ∷ texts) ls = collect_levels texts (add_level (level_among text log_levels) ls)

unfoldable pub parse_levels : Text → List LogLevel
parse_levels value = collect_levels (split comma value) []

-- The order of texts by their units.
abbrev pub compare_texts : Text → Text → Compared
compare_texts [] [] = same
compare_texts [] (c ∷ s) = before
compare_texts (c ∷ s) [] = after
compare_texts (c ∷ s) (d ∷ t) =
    let rest = compare_texts s t in if ltb c d then before else if ltb d c then after else rest

unfoldable pub serialize_levels : List LogLevel → Text
serialize_levels levels = join (comma ∷ []) (stable_sort compare_texts (map level_name levels))
