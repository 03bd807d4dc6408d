-- ===== src/LogView/Tests.antt =====
-- The log view at concrete inputs, and the theorems about it applied to them.
use logdeck.Base.{
  nat_Key, ℕ, ◌≡◌, refl, ◌↔◌, true, false, not, if◌then◌else◌, ◌&&◌, Option, none, some, List, [],
  ◌∷◌, arith, get_elem?, In, length, drop, take,
}
use logdeck.Base.Int.{pos}
use logdeck.Base.Text.{Text, codes}
use logdeck.LogEntries.{
  LogLevel, error, info, unknown, LogEntry, group_related_log_entries, is_continuation_log_entry,
  field_match, trimmed_line,
}
use logdeck.LogStream.State.{IndexRange, Stream}
use logdeck.LogStream.{abort_silent, flush_pending_logs, flush_lines, cap_lines, handle_flush_tick}
use logdeck.LogStream.Session.{entry, deliver}
use logdeck.LogStream.Ring.{Feed, arrive, tick, feed, feeds, IsRunning}
use logdeck.LogView.Range.{
  Animates, map_raw_range_to_grouped_range, map_raw_range_to_grouped_range-Animates,
}
use logdeck.LogView.Search.{empty_search, parse_search, compute_search_matches}
use logdeck.LogView.Filtering.{
  LogFilterOptions, FilteredLogItem, compute_filtered_log_items, filtered_logs, keeps, level_kept,
  excluded,
}
use logdeck.LogView.Filtering.Shown.{LevelWanted, NotExcluded, In-compute_filtered_log_items}
use logdeck.LogView.Filtering.Exclusion.{compute_search_matches-compute_filtered_log_items}
use logdeck.LogView.Pins.{
  Pins, PinNavigationTarget, forward, backward, navigate_pins, on_dropped_count,
}
use logdeck.LogView.Pins.Follow.{rows, on_dropped_count-feeds}
use logdeck.LogView.Pins.Navigation.{stepped, Shows, navigate_pins-opposite}
use logdeck.Base.JsMap.{get, set}
use logdeck.LogView.Filtering.{filtered_to_original_index, original_to_filtered_index}
use logdeck.LogView.Filtering.Indices.{original_to_filtered_index-inverse}
use logdeck.LogView.Selection.{Selection, contains, handle_toggle_pin_selected}
use logdeck.LogView.Selection.Pinned.{
  line_selected, every_line_pinned, handle_toggle_pin_selected-twice,
}
use logdeck.LogView.ViewState.{has_level, log_levels, parse_levels, serialize_levels}
use logdeck.LogView.ViewState.Levels.{parse_levels-serialize_levels}

abbrev lower : Text → Text
lower s = s

abbrev line : LogLevel → Text → Option ℕ → LogEntry
line level message continuations = record {
  timestamp = none;
  level = level;
  message = some message;
  stream = none;
  raw = none;
  fields = none;
  continuation_count = continuations;
  container_id = none;
  container_name = none;
}

abbrev logs : List LogEntry
logs =
    line info (codes "up") none
    ∷ line error (codes "boom") (some 2)
    ∷ line error (codes "gone") none
    ∷ []

-- The raw lines 2 and 3 are those of the second row.
abbrev range : IndexRange
range = record { start = 2; end = pos 3 }

animated_row :
    map_raw_range_to_grouped_range logs (some range) ≡ some (record { start = 1; end = pos 1 })
unfolding map_raw_range_to_grouped_range
animated_row = refl

map_raw_range_to_grouped_range-Animates_example :
    Animates range logs (map_raw_range_to_grouped_range logs (some range))
map_raw_range_to_grouped_range-Animates_example = map_raw_range_to_grouped_range-Animates logs range

abbrev filter_options : LogFilterOptions
filter_options = record {
  selected_levels = error ∷ [];
  exclude_matches = true;
  search_text = codes "boo";
  use_regex = false;
  search_parsed = empty_search;
}

abbrev gone : FilteredLogItem
gone = record { entry = line error (codes "gone") none; original_index = 2 }

shown_items : compute_filtered_log_items lower logs filter_options ≡ gone ∷ []
unfolding compute_filtered_log_items keeps level_kept excluded
shown_items = refl

In-compute_filtered_log_items_example :
    In gone (compute_filtered_log_items lower logs filter_options) ↔ (
      (get_elem? logs 2 ≡ some gone.entry)
      × LevelWanted filter_options gone.entry
      × NotExcluded lower filter_options gone.entry)
In-compute_filtered_log_items_example = In-compute_filtered_log_items lower logs filter_options gone

compute_search_matches-compute_filtered_log_items_example :
    compute_search_matches lower
      (filtered_logs (compute_filtered_log_items lower logs filter_options))
      (codes "boo")
      false
      empty_search
    ≡ []
unfolding parse_search
compute_search_matches-compute_filtered_log_items_example =
    compute_search_matches-compute_filtered_log_items lower filter_options logs refl (λ text. none)
      refl

abbrev pins : Pins
pins = record {
  pinned_log_indices = 0 ∷ 2 ∷ [];
  current_pinned_index = 1;
  prev_dropped_count_ref = 0;
}

-- The first two lines make one row.
abbrev grouped_lines : List LogEntry
grouped_lines =
    line info (codes "up") none
    ∷ line unknown (codes "port=1") none
    ∷ line error (codes "boom") none
    ∷ line info (codes "gone") none
    ∷ []

abbrev one_pin : Pins
one_pin = record {
  pinned_log_indices = 2 ∷ [];
  current_pinned_index = 0;
  prev_dropped_count_ref = 0;
}

-- When the two lines of the first row are dropped, that row goes, but the pin moves by two rows.
pinned_before :
    get_elem? (group_related_log_entries grouped_lines) 2 ≡ some (line info (codes "gone") none)
unfolding group_related_log_entries is_continuation_log_entry
pinned_before = refl

pinned_after :
    ((on_dropped_count 2 one_pin).pinned_log_indices ≡ 0 ∷ [])
    × (get_elem? (group_related_log_entries (drop 2 grouped_lines)) 0
        ≡ some (line error (codes "boom") none))
unfolding group_related_log_entries is_continuation_log_entry on_dropped_count
pinned_after = (refl, refl)

-- A stream that is not paused, with four lines of at most four.
abbrev running : Stream LogEntry
running = record {
  logs = grouped_lines;
  is_loading_logs = false;
  is_streaming = true;
  is_reconnecting = false;
  is_stream_paused = false;
  buffered_count = 0;
  dropped_count = 0;
  buffered_dropped_count = 0;
  animated_range = none;
  abort_controller_ref = some 0;
  stop_requested_ref = false;
  last_activity_ref = 0;
  is_stream_paused_ref = false;
  buffered_logs_ref = [];
  pending_logs_ref = [];
  logs_length_ref = 4;
  dropped_count_ref = 0;
  buffered_dropped_count_ref = 0;
  max_log_lines_ref = 4;
  flush_interval_ref = true;
  scroll_timeout_ref = none;
  animation_timeout_ref = false;
  aborted = [];
  next_controller = 1;
  calls = [];
}

running-IsRunning : IsRunning running
running-IsRunning = record {
  capped = record { counted = refl; capped = omega arith };
  synced = refl;
  quiet = λ h. cc;
  live = λ h. refl;
}

abbrev script : List (Feed LogEntry)
script =
    arrive (entry (line info (codes "back") none))
    ∷ arrive (entry (line info (codes "on") none))
    ∷ tick 500
    ∷ []

on_dropped_count-feeds_example :
    let t = feeds script running in
    let p' = on_dropped_count t.dropped_count one_pin in
    (In 0 p'.pinned_log_indices ↔ In 2 one_pin.pinned_log_indices)
    × (get_elem? (rows t.logs) 0
        ≡ get_elem? (rows grouped_lines) (length (rows (take 2 grouped_lines))))
unfolding group_related_log_entries is_continuation_log_entry feed handle_flush_tick abort_silent
    deliver flush_pending_logs flush_lines cap_lines field_match trimmed_line
on_dropped_count-feeds_example =
    on_dropped_count-feeds script running one_pin 0 2 running-IsRunning refl refl refl refl
      (omega arith)

-- The line in the third row stands in the second now, and is pinned there.
pins_after_drop : (on_dropped_count 1 pins).pinned_log_indices ≡ 1 ∷ []
unfolding on_dropped_count
pins_after_drop = refl

navigate_pins-opposite_example :
    (t u : PinNavigationTarget) × (navigate_pins (4 ∷ 7 ∷ []) 1 forward (set 4 0 []) ≡ some t)
    × (t.pinned_index ≡ stepped forward 1 2)
    × Shows (4 ∷ 7 ∷ []) (set 4 0 []) t
    × (navigate_pins (4 ∷ 7 ∷ []) t.pinned_index backward (set 4 0 []) ≡ some u)
    × (u.pinned_index ≡ 1)
    × Shows (4 ∷ 7 ∷ []) (set 4 0 []) u
navigate_pins-opposite_example =
    navigate_pins-opposite (4 ∷ 7 ∷ []) 1 forward (set 4 0 []) (omega arith)

abbrev two_rows : Selection
two_rows = record {
  selected_indices = 0 ∷ 1 ∷ [];
  expanded_json_rows = [];
  last_clicked_index = some 1;
}

handle_toggle_pin_selected-twice_example :
    let selected = line_selected (4 ∷ 7 ∷ 9 ∷ []) two_rows.selected_indices 7 in
    let all_pinned = every_line_pinned (4 ∷ 7 ∷ 9 ∷ []) two_rows.selected_indices (4 ∷ []) in
    let once = handle_toggle_pin_selected (4 ∷ 7 ∷ 9 ∷ []) two_rows (4 ∷ []) in
    let twice = handle_toggle_pin_selected (4 ∷ 7 ∷ 9 ∷ []) two_rows once in
    (contains 7 once ≡ (if selected then not all_pinned else contains 7 (4 ∷ [])))
    × (contains 7 twice ≡ (if selected then all_pinned else contains 7 (4 ∷ [])))
handle_toggle_pin_selected-twice_example =
    handle_toggle_pin_selected-twice (4 ∷ 7 ∷ 9 ∷ []) two_rows (4 ∷ []) 7

parse_levels-serialize_levels_example :
    has_level error (parse_levels (serialize_levels (info ∷ error ∷ [])))
    ≡ (has_level error (info ∷ error ∷ []) && has_level error log_levels)
parse_levels-serialize_levels_example = parse_levels-serialize_levels error (info ∷ error ∷ [])

original_to_filtered_index-inverse_example :
    let originals =
      filtered_to_original_index (compute_filtered_log_items lower logs filter_options) in
    (get 2 (original_to_filtered_index originals) ≡ some 0) ↔ (get_elem? originals 0 ≡ some 2)
original_to_filtered_index-inverse_example =
    original_to_filtered_index-inverse lower logs filter_options 2 0
