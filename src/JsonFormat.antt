-- ===== src/JsonFormat.antt =====
-- frontend/src/lib/json-format.ts: JSON laid out for display, behind a cache of the module.
pub mod Cache
mod Tests
use logdeck.Base.{
  ℕ, Bool, true, false, not, ◌&&◌, Option, none, some, [], ◌∷◌, leb, if◌then◌else◌, length,
}
use logdeck.Base.Text.{Text, text_Key, codes, truthy, starts_with, trim}
use logdeck.Base.JsMap.{JsMap, get, set, delete}

abbrev pub json_cache_limit : ℕ
json_cache_limit = 1000

pub record Formatted : Type 0 where
  pub formatted : Text
  pub is_json : Bool

abbrev pub JsonFormatCache : Type 0
JsonFormatCache = JsMap Text Formatted

-- The first key of the map, if it is truthy, is deleted.
unfoldable pub evict_oldest : JsonFormatCache → JsonFormatCache
evict_oldest [] = []
evict_oldest ((oldest_key, v) ∷ cache) =
    if truthy oldest_key
    then delete oldest_key ((oldest_key, v) ∷ cache)
    else (oldest_key, v) ∷ cache

unfoldable pub set_cached_value : Text → Formatted → JsonFormatCache → JsonFormatCache
unfolding evict_oldest
set_cached_value text value cache =
    set text value (if leb json_cache_limit (length cache) then evict_oldest cache else cache)

-- `parse` is `JSON.parse`, `none` where it throws; `is_object` tells objects and arrays from the other
-- values; `stringify` is `JSON.stringify` with two blanks.
module _ {J : Type 0} (parse : Text → Option J) (is_object : J → Bool) (stringify : J → Text) where
  abbrev of_parsed : Text → Option J → Formatted
  of_parsed text none = record { formatted = text; is_json = false }
  of_parsed text (some parsed) =
      if is_object parsed
      then record { formatted = stringify parsed; is_json = true }
      else record { formatted = text; is_json = false }

  -- What is computed for a text that is not in the cache.
  unfoldable pub compute_format : Text → Formatted
  compute_format text =
      let trimmed = trim text in
      if not (starts_with trimmed (codes "{")) && not (starts_with trimmed (codes "["))
      then record { formatted = text; is_json = false }
      else of_parsed text (parse trimmed)

  abbrev answer : Text → JsonFormatCache → Option Formatted → Formatted × JsonFormatCache
  answer text cache (some cached) = (cached, cache)
  answer text cache none = (compute_format text, set_cached_value text (compute_format text) cache)

  unfoldable pub format_json : Text → JsonFormatCache → Formatted × JsonFormatCache
  unfolding compute_format set_cached_value get
  format_json text cache = answer text cache (get text cache)

  pub is_json_string : Text → JsonFormatCache → Bool × JsonFormatCache
  unfolding format_json
  is_json_string text cache =
      let (result, cache') = format_json text cache in (result.is_json, cache')
