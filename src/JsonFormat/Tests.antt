-- ===== src/JsonFormat/Tests.antt =====
-- The cache at concrete texts.
use logdeck.Base.{
  ℕ, zero, suc, ◌+◌, Bool, true, false, ◌≡◌, refl, Option, none, some, [], ◌∷◌, length, arith,
}
use logdeck.Base.Text.{Text, text_Key, codes, trim}
use logdeck.Base.JsMap.{get}
use logdeck.JsonFormat.{Formatted, JsonFormatCache, compute_format, format_json}
use logdeck.JsonFormat.Cache.{format_all, computed, format_all-computed, format_json-grows}

-- A parser that takes every text that begins with a brace for an object.
abbrev parse : Text → Option Text
parse [] = none
parse (c ∷ s) = some s

abbrev is_object : Text → Bool
is_object s = true

abbrev stringify : Text → Text
stringify s = s

abbrev plain : Formatted
plain = record { formatted = codes "up"; is_json = false }

object_example :
    compute_format parse is_object stringify (codes " {a")
    ≡ record { formatted = codes "a"; is_json = true }
unfolding compute_format trim
object_example = refl

format_all-computed_example :
    (format_all parse is_object stringify (codes "up" ∷ codes "{a" ∷ codes "up" ∷ []) []).0
    ≡ computed parse is_object stringify (codes "up" ∷ codes "{a" ∷ codes "up" ∷ [])
format_all-computed_example =
    format_all-computed parse is_object stringify (codes "up" ∷ codes "{a" ∷ codes "up" ∷ [])

-- A cache with `n` entries under one key: only the first is read.
abbrev many : ℕ → JsonFormatCache
many zero = []
many (suc n) = (codes "x", plain) ∷ many n

length-many : (n : ℕ) → length (many n) ≡ n
length-many zero = refl
length-many (suc n) = omega (arith, length-many n)

get-many : (n : ℕ) → get (codes "up") (many n) ≡ none
unfolding get
get-many zero = refl
get-many (suc n) = get-many n

format_json-grows_example :
    let m' = (format_json parse is_object stringify (codes "up") (([], plain) ∷ many 999)).1 in
    (length m' ≡ length (many 999) + 2) × ((rest : JsonFormatCache) × (m' ≡ ([], plain) ∷ rest))
format_json-grows_example =
    format_json-grows parse is_object stringify (codes "up") plain (many 999) refl (get-many 999)
      (omega (arith, length-many 999))
