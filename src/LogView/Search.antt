-- ===== src/LogView/Search.antt =====
-- `parseSearch` and `computeSearchMatches` of use-log-search.tsx. A regular expression is the test
-- that it makes: `lastIndex` is set back before each.
use logdeck.Base.{
  ℕ, ◌+◌, ◌≡◌, refl, ◌≢◌, ◌⊎◌, inl, inr, Bool, true, false, not, ◌&&◌, ◌||◌, Option, none, some,
  List, [], ◌∷◌, if◌then◌else◌,
}
use logdeck.Base.Text.{Text, codes, truthy, ◌or_else◌, includes}
use logdeck.LogEntries.{LogEntry, or_null}

pub record SearchParsed : Type 0 where
  pub regex : Option (Text → Bool)
  pub error : Option Text

-- Whether `error` is truthy.
abbrev pub has_error : SearchParsed → Bool
has_error p = elim p.error [ none ↦ false | some e ↦ truthy e ]

abbrev pub empty_search : SearchParsed
empty_search = record { regex = none; error = none }

-- `entry.message || entry.raw || ""`
abbrev pub shown_line : LogEntry → Text
shown_line e = or_null e.message [] or_else or_null e.raw []

-- The two branches of the `try`.
abbrev compiled : Option (Text → Bool) → SearchParsed
compiled none = record { regex = none; error = some (codes "Invalid regex") }
compiled (some test) = record { regex = some test; error = none }

-- `compile` is the platform's: a regular expression with the flags "gi", or `none` where the
-- constructor throws.
module _ (compile : Text → Option (Text → Bool)) where
  unfoldable pub parse_search : Text → Bool → SearchParsed
  parse_search search_text use_regex =
      if not (truthy search_text) || not use_regex
      then empty_search
      else compiled (compile search_text)

-- The loop, from index `i` on.
unfoldable pub matches_from : (LogEntry → Bool) → ℕ → List LogEntry → List ℕ
matches_from hit i [] = []
matches_from hit i (e ∷ es) =
    if hit e then i ∷ matches_from hit (i + 1) es else matches_from hit (i + 1) es

module _ (to_lower_case : Text → Text) where
  abbrev pub contains_text : Text → LogEntry → Bool
  contains_text search_text e = includes (to_lower_case (shown_line e)) (to_lower_case search_text)

  -- The test of the loop's body.
  abbrev pub search_hits : Text → Bool → Option (Text → Bool) → LogEntry → Bool
  search_hits search_text true (some test) e = test (shown_line e)
  search_hits search_text true none e = contains_text search_text e
  search_hits search_text false regex e = contains_text search_text e

  unfoldable pub compute_search_matches : List LogEntry → Text → Bool → SearchParsed → List ℕ
  unfolding matches_from
  compute_search_matches entries search_text use_regex parsed =
      if not (truthy search_text)
      then []
      else if use_regex && has_error parsed
      then []
      else matches_from (search_hits search_text use_regex parsed.regex) 0 entries

-- A parsed regular expression is there or is reported as an error.
module _ (compile : Text → Option (Text → Bool)) where
  compiled-or_error :
      (c : Option (Text → Bool)) → (has_error (compiled c) ≡ true) ⊎ ((compiled c).regex ≢ none)
  compiled-or_error none = inl refl
  compiled-or_error (some test) = inr (λ e. cc)

  pub parse_search-or_error :
      (search_text : Text)
      → truthy search_text ≡ true
      → (has_error (parse_search compile search_text true) ≡ true)
        ⊎ ((parse_search compile search_text true).regex ≢ none)
  unfolding parse_search
  parse_search-or_error search_text h =
      rw (h, parse_search) (compiled-or_error (compile search_text))
