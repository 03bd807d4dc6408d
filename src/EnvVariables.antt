-- ===== src/EnvVariables.antt =====
-- The reader of .env texts in frontend/src/features/containers/components/environment-variables.tsx.
pub mod Editor
pub mod Written
pub mod Saved
pub mod Shown
mod Tests
use logdeck.Base.{
  ℕ, ◌-◌, Bool, false, not, ◌&&◌, ◌||◌, Option, none, some, List, [], ◌∷◌, nat_eq, length, drop,
  take, if◌then◌else◌,
}
use logdeck.Base.Text.{Text, text_Key, truthy, starts_with, split, trim, newline}
use logdeck.Base.JsMap.{JsMap}
use logdeck.LogEntries.{assign}

abbrev pub equals_sign : ℕ
equals_sign = 61

abbrev pub hash_sign : ℕ
hash_sign = 35

abbrev pub double_quote : ℕ
double_quote = 34

abbrev pub single_quote : ℕ
single_quote = 39

-- `endsWith` of one unit.
abbrev pub ends_with : ℕ → Text → Bool
ends_with q [] = false
ends_with q (c ∷ []) = nat_eq c q
ends_with q (c ∷ d ∷ s) = ends_with q (d ∷ s)

abbrev pub quoted : ℕ → Text → Bool
quoted q s = starts_with s (q ∷ []) && ends_with q s

-- `value.slice(1, -1)` of a value in quotes; also of a quote that stands alone.
unfoldable pub strip_quotes : Text → Text
strip_quotes value =
    if quoted double_quote value || quoted single_quote value
    then drop 1 (take (length value - 1) value)
    else value

-- What stands before and behind the first `=`, if there is one: `indexOf` and the two `substring`s.
unfoldable pub split_equals : Text → Option (Text × Text)
split_equals [] = none
split_equals (c ∷ s) =
    if nat_eq c equals_sign
    then some ([], s)
    else elim (split_equals s) [ none ↦ none | some (k, v) ↦ some (c ∷ k, v) ]

abbrev pub add_pair : Option (Text × Text) → JsMap Text Text → JsMap Text Text
add_pair none env = env
add_pair (some (k, v)) env =
    let key = trim k in if truthy key then assign key (strip_quotes (trim v)) env else env

-- A turn of the loop over the lines.
unfoldable pub parse_line : Text → JsMap Text Text → JsMap Text Text
unfolding split_equals strip_quotes
parse_line line env =
    let trimmed = trim line in
    if not (truthy trimmed) || starts_with trimmed (hash_sign ∷ [])
    then env
    else add_pair (split_equals trimmed) env

unfoldable pub parse_lines : List Text → JsMap Text Text → JsMap Text Text
unfolding parse_line
parse_lines [] env = env
parse_lines (line ∷ lines) env = parse_lines lines (parse_line line env)

unfoldable pub parse_env_file : Text → JsMap Text Text
unfolding parse_lines
parse_env_file content = parse_lines (split newline content) []
