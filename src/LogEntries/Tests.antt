-- ===== src/LogEntries/Tests.antt =====
-- Grouping of concrete lines, and the theorems about it applied to them.
use logdeck.Base.{◌≡◌, refl, none, some, List, [], ◌∷◌, length}
use logdeck.Base.Text.{Text, codes}
use logdeck.LogEntries.{
  LogLevel, error, unknown, LogEntry, group_related_log_entries, is_continuation_log_entry,
  append_continuation_log_entry, field_match,
}
use logdeck.LogEntries.Grouping.{
  lines_of, total_span, lines_of-group_related_log_entries, total_span-group_related_log_entries,
}

abbrev line : LogLevel → Text → Text → LogEntry
line level message name = record {
  timestamp = none;
  level = level;
  message = some message;
  stream = none;
  raw = none;
  fields = none;
  continuation_count = none;
  container_id = none;
  container_name = some name;
}

-- An error with two lines of its own, one of another container, and a field behind it.
abbrev logs : List LogEntry
logs =
    line error (codes "boom") (codes "web")
    ∷ line unknown (codes "  at main.js:1") (codes "web")
    ∷ line unknown (codes "code: 7") (codes "web")
    ∷ line unknown (codes "at x") (codes "db")
    ∷ line unknown (codes "k=v") (codes "db")
    ∷ []

field_of_line : field_match (codes "code: 7") ≡ some (codes "code", codes "7")
unfolding field_match
field_of_line = refl

lines_of-group_related_log_entries_example :
    lines_of (some (codes "web")) (group_related_log_entries logs) ≡ 3
lines_of-group_related_log_entries_example =
    lines_of-group_related_log_entries (some (codes "web")) logs
      (refl, (refl, (refl, (refl, (refl, tt)))))

total_span-group_related_log_entries_example : total_span (group_related_log_entries logs) ≡ 5
total_span-group_related_log_entries_example =
    total_span-group_related_log_entries logs (refl, (refl, (refl, (refl, (refl, tt)))))

rows_of_logs : length (group_related_log_entries logs) ≡ 2
unfolding group_related_log_entries is_continuation_log_entry append_continuation_log_entry
rows_of_logs = refl
