-- ===== src/LogEntries.antt =====
-- Log entries, and the grouping of related lines in
-- frontend/src/features/containers/api/get-container-logs-parsed.ts.
pub mod Grouping
mod Tests
use logdeck.Base.{
  ℕ, ◌+◌, ◌≡◌, refl, sym, ap, ◌∙◌, Bool, true, false, not, ◌&&◌, ◌||◌, Option, none, some, List, [],
  ◌∷◌, leb, nat_eq, if◌then◌else◌, nat_eq_iff, any, filter,
}
use logdeck.Base.Text.{
  text_Key, Text, codes, text_eq, truthy, starts_with, includes, trim, trim_start, join, is_space,
  newline,
}
use logdeck.Base.JsMap.{JsMap, set}

pub data LogLevel : Type 0 where
  trace debug info warn warning error fatal panic unknown : LogLevel

-- The index of a level, for `===` on levels.
abbrev level_index : LogLevel → ℕ
level_index trace = 0
level_index debug = 1
level_index info = 2
level_index warn = 3
level_index warning = 4
level_index error = 5
level_index fatal = 6
level_index panic = 7
level_index unknown = 8

abbrev pub level_eq : LogLevel → LogLevel → Bool
level_eq a b = nat_eq (level_index a) (level_index b)

level_of : ℕ → LogLevel
level_of n =
    if nat_eq n 0
    then trace
    else if nat_eq n 1
    then debug
    else if nat_eq n 2
    then info
    else if nat_eq n 3
    then warn
    else if nat_eq n 4
    then warning
    else if nat_eq n 5
    then error
    else if nat_eq n 6
    then fatal
    else if nat_eq n 7
    then panic
    else unknown

level_of-level_index : (a : LogLevel) → level_of (level_index a) ≡ a
unfolding level_of
level_of-level_index trace = refl
level_of-level_index debug = refl
level_of-level_index info = refl
level_of-level_index warn = refl
level_of-level_index warning = refl
level_of-level_index error = refl
level_of-level_index fatal = refl
level_of-level_index panic = refl
level_of-level_index unknown = refl

pub level_eq_sound : (a b : LogLevel) → level_eq a b ≡ true → a ≡ b
level_eq_sound a b h =
    sym (level_of-level_index a)
    ∙ ap level_of ((nat_eq_iff (level_index a) (level_index b)).0 h)
    ∙ level_of-level_index b

pub data OutputStream : Type 0 where
  stdout stderr : OutputStream

pub record LogEntry : Type 0 where
  pub timestamp : Option Text
  pub level : LogLevel
  pub message : Option Text
  pub stream : Option OutputStream
  pub raw : Option Text
  pub fields : Option (JsMap Text Text)
  pub continuation_count : Option ℕ
  pub container_id : Option Text
  pub container_name : Option Text

-- `a ?? b`
abbrev pub or_null {ℓ} : {A : Type ℓ} → Option A → A → A
or_null none b = b
or_null (some a) b = a

abbrev pub option_text_eq : Option Text → Option Text → Bool
option_text_eq none none = true
option_text_eq none (some b) = false
option_text_eq (some a) none = false
option_text_eq (some a) (some b) = text_eq a b

is_letter : ℕ → Bool
is_letter c = (leb b'A' c && leb c b'Z') || (leb b'a' c && leb c b'z')

-- `[A-Za-z_]` and `[A-Za-z0-9_.-]`
is_key_start : ℕ → Bool
unfolding is_letter
is_key_start c = is_letter c || nat_eq c b'_'

is_key_unit : ℕ → Bool
unfolding is_key_start
is_key_unit c = is_key_start c || (leb b'0' c && leb c b'9') || nat_eq c b'.' || nat_eq c b'-'

-- The longest start of a text whose units pass the test, and the rest.
abbrev span : (ℕ → Bool) → Text → Text × Text
span p [] = ([], [])
span p (c ∷ s) = let (key, rest) = span p s in if p c then (c ∷ key, rest) else ([], c ∷ s)

is_line_terminator : ℕ → Bool
is_line_terminator c = nat_eq c 10 || nat_eq c 13 || nat_eq c 0x2028 || nat_eq c 0x2029

-- `\s*(.+)$` behind the separator. If all of it is white space, `\s*` gives its last unit back.
abbrev last_unit : Text → Text
last_unit [] = []
last_unit (c ∷ []) = c ∷ []
last_unit (c ∷ d ∷ s) = last_unit (d ∷ s)

value_match : Text → Option Text
unfolding is_line_terminator trim_start is_space
value_match r =
    let shown = if truthy (trim_start r) then trim_start r else last_unit r in
    if truthy shown && not (any is_line_terminator shown) then some shown else none

-- `\s*[:=]` and what follows it.
separated : Text → Option Text
unfolding value_match
separated [] = none
separated (c ∷ r) = if nat_eq c b':' || nat_eq c b'=' then value_match r else none

-- STRUCTURED_FIELD_REGEX: the two groups of a match.
unfoldable pub field_match : Text → Option (Text × Text)
unfolding is_key_start is_key_unit separated
field_match [] = none
field_match (c ∷ s) =
    let (key, rest) = span is_key_unit (c ∷ s) in
    let value = separated (trim_start rest) in
    if is_key_start c then elim value [ none ↦ none | some v ↦ some (key, v) ] else none

abbrev stack_trace_prefixes : List Text
stack_trace_prefixes =
    codes "at "
    ∷ codes "File "
    ∷ codes "Traceback "
    ∷ codes "Caused by:"
    ∷ codes "... "
    ∷ codes "goroutine "
    ∷ []

unfoldable pub is_problem_level : LogLevel → Bool
is_problem_level warn = true
is_problem_level warning = true
is_problem_level error = true
is_problem_level fatal = true
is_problem_level panic = true
is_problem_level _ = false

abbrev pub is_unknown : LogLevel → Bool
is_unknown unknown = true
is_unknown _ = false

unfoldable pub is_stack_trace_continuation : Text → Bool
is_stack_trace_continuation message =
    any (starts_with message) stack_trace_prefixes
    || (starts_with message (codes "/") && includes message (codes ":"))

-- `(entry.message ?? entry.raw ?? "").trim()`
unfoldable pub trimmed_line : LogEntry → Text
unfolding trim
trimmed_line e = trim (or_null e.message (or_null e.raw []))

abbrev is_some {ℓ} : {A : Type ℓ} → Option A → Bool
is_some none = false
is_some (some a) = true

unfoldable pub is_continuation_log_entry : LogEntry → LogEntry → Bool
unfolding trimmed_line field_match is_problem_level is_stack_trace_continuation
is_continuation_log_entry entry previous =
    let message = trimmed_line entry in
    let previous_message = trimmed_line previous in
    if not (is_unknown entry.level)
    then false
    else if not (option_text_eq entry.container_name previous.container_name)
    then false
    else if not (truthy message) || not (truthy previous_message)
    then false
    else is_some (field_match message)
      || (is_problem_level previous.level && is_stack_trace_continuation message)

-- `object[key] = value` on a plain object: `__proto__` is a setter, which ignores a string.
abbrev pub assign : Text → Text → JsMap Text Text → JsMap Text Text
assign key value object = if text_eq key (codes "__proto__") then object else set key value object

set_field : Option (Text × Text) → JsMap Text Text → JsMap Text Text
unfolding set trim
set_field none fields = fields
set_field (some (name, value)) fields = assign name (trim value) fields

-- `[a, b].filter(Boolean).join("\n")`
abbrev joined : Option Text → Option Text → Text
joined a b = join (newline ∷ []) (filter truthy (or_null a [] ∷ or_null b [] ∷ []))

abbrev non_empty : JsMap Text Text → Option (JsMap Text Text) → Option (JsMap Text Text)
non_empty [] before = before
non_empty (f ∷ fs) before = some (f ∷ fs)

abbrev trimmed_raw : Option Text → Option Text
trimmed_raw none = none
trimmed_raw (some s) = some (trim s)

unfoldable pub append_continuation_log_entry : LogEntry → LogEntry → LogEntry
unfolding trimmed_line field_match set_field
append_continuation_log_entry entry continuation =
    let message = trimmed_line continuation in
    let fields = set_field (field_match message) (or_null entry.fields []) in
    record entry {
      message = some (joined entry.message (some message));
      raw = some (joined entry.raw (trimmed_raw continuation.raw));
      fields = non_empty fields entry.fields;
      continuation_count = some (or_null entry.continuation_count 0 + 1);
    }

-- The loop of `groupRelatedLogEntries`, with the last entry of `grouped` in hand.
unfoldable pub group_behind : LogEntry → List LogEntry → List LogEntry
group_behind previous [] = previous ∷ []
group_behind previous (entry ∷ entries) =
    let folded = group_behind (append_continuation_log_entry previous entry) entries in
    let apart = previous ∷ group_behind entry entries in
    if is_continuation_log_entry entry previous then folded else apart

unfoldable pub group_related_log_entries : List LogEntry → List LogEntry
unfolding group_behind
group_related_log_entries [] = []
group_related_log_entries (entry ∷ entries) = group_behind entry entries
