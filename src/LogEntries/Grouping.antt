-- ===== src/LogEntries/Grouping.antt =====
-- Grouping loses no line and never joins two containers.
use logdeck.Base.{
  ℕ, ◌+◌, ◌≡◌, refl, ap, ◌∙◌, inl, inr, true, Option, none, some, List, [], ◌∷◌, arith,
  if◌then◌else◌, Bool-cases, length, All,
}
use logdeck.Base.Text.{Text, text_eq_iff}
use logdeck.LogEntries.{
  LogEntry, or_null, option_text_eq, is_continuation_log_entry, append_continuation_log_entry,
  group_behind, group_related_log_entries,
}

-- The raw lines that a row stands for.
abbrev pub line_span : LogEntry → ℕ
line_span e = 1 + or_null e.continuation_count 0

-- Those of them that belong to a container.
abbrev pub lines_of : Option Text → List LogEntry → ℕ
lines_of name [] = 0
lines_of name (e ∷ es) =
    (if option_text_eq e.container_name name then line_span e else 0) + lines_of name es

abbrev pub total_span : List LogEntry → ℕ
total_span [] = 0
total_span (e ∷ es) = line_span e + total_span es

abbrev pub IsRaw : LogEntry → Type 0
IsRaw e = e.continuation_count ≡ none

option_text_eq_sound : (a b : Option Text) → option_text_eq a b ≡ true → a ≡ b
option_text_eq_sound none none h = refl
option_text_eq_sound none (some b) h = cc
option_text_eq_sound (some a) none h = cc
option_text_eq_sound (some a) (some b) h = ap some ((text_eq_iff a b).0 h)

continuation-container :
    (e p : LogEntry) → is_continuation_log_entry e p ≡ true → e.container_name ≡ p.container_name
unfolding is_continuation_log_entry
continuation-container e p h = option_text_eq_sound e.container_name p.container_name (ground arith)

append-span : (p e : LogEntry) → line_span (append_continuation_log_entry p e) ≡ line_span p + 1
unfolding append_continuation_log_entry
append-span p e = omega arith

append-container :
    (p e : LogEntry) → (append_continuation_log_entry p e).container_name ≡ p.container_name
unfolding append_continuation_log_entry
append-container p e = refl

-- A row that takes a raw line in counts for both.
joined_lines :
    (name : Option Text) (p e : LogEntry) (rest : ℕ)
    → IsRaw e
    → e.container_name ≡ p.container_name
    → (if option_text_eq (append_continuation_log_entry p e).container_name name
          then line_span (append_continuation_log_entry p e)
          else 0)
        + rest
      ≡ (if option_text_eq p.container_name name then line_span p else 0)
        + ((if option_text_eq e.container_name name then line_span e else 0) + rest)
joined_lines name p e rest r same =
    rw (append-container p e, append-span p e, same, r)
      (elim (Bool-cases (option_text_eq p.container_name name)) [
        | inl here ↦ rw here (omega arith)
        | inr there ↦ rw there (omega arith)
      ])

lines_of-group_behind :
    (name : Option Text) (p : LogEntry) (es : List LogEntry)
    → All IsRaw es
    → lines_of name (group_behind p es) ≡ lines_of name (p ∷ es)
unfolding group_behind
lines_of-group_behind name p [] raw = refl
lines_of-group_behind name p (e ∷ es) (r, raw) = elim (Bool-cases (is_continuation_log_entry e p)) [
  | inr apart ↦ rw apart (omega (arith, lines_of-group_behind name e es raw))
  | inl folded ↦
      let q = append_continuation_log_entry p e in
      let same = continuation-container e p folded in
      let ih = lines_of-group_behind name q es raw in
      rw folded (ih ∙ joined_lines name p e (lines_of name es) r same)
]

-- Of entries that are raw lines, grouping loses none: the rows of each container stand for exactly
-- as many lines as the container has entries.
pub lines_of-group_related_log_entries :
    (name : Option Text) (es : List LogEntry)
    → All IsRaw es
    → lines_of name (group_related_log_entries es) ≡ lines_of name es
unfolding group_related_log_entries
lines_of-group_related_log_entries name [] raw = refl
lines_of-group_related_log_entries name (e ∷ es) (r, raw) = lines_of-group_behind name e es raw

total_span-group_behind :
    (p : LogEntry) (es : List LogEntry)
    → All IsRaw es
    → total_span (group_behind p es) ≡ line_span p + length es
unfolding group_behind
total_span-group_behind p [] raw = omega arith
total_span-group_behind p (e ∷ es) (r, raw) = elim (Bool-cases (is_continuation_log_entry e p)) [
  | inr apart ↦ rw apart (rw (total_span-group_behind e es raw) (rw r (omega arith)))
  | inl folded ↦ rw folded (
      rw (total_span-group_behind (append_continuation_log_entry p e) es raw)
        (omega (arith, append-span p e)))
]

-- The rows together span all the raw lines, which is what the row animation counts on.
pub total_span-group_related_log_entries :
    (es : List LogEntry) → All IsRaw es → total_span (group_related_log_entries es) ≡ length es
unfolding group_related_log_entries
total_span-group_related_log_entries [] raw = refl
total_span-group_related_log_entries (e ∷ es) (r, raw) =
    total_span-group_behind e es raw ∙ rw r (omega arith)
