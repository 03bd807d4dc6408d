-- ===== src/Base/Text.antt =====
-- JavaScript strings as lists of UTF-16 code units, with the built-in methods that the client
-- calls: `trim`, `startsWith`, `includes`, `split`, `join` and `===`.
use Prim.Native.Nat.{ℕ}
use Prim.Native.Char.{code}
use Prim.Native.String.{String}
use mathlib.Core.Path.{◌≡◌, refl}
use mathlib.Core.Logic.{◌↔◌}
use mathlib.Core.Bool.{Bool, true, false, ◌&&◌, ◌||◌}
use mathlib.Core.List.{List, [], ◌∷◌, ◌++◌}
use native.Mathlib.Omega.{arith}
use logdeck.Base.Tests.{nat_eq, leb, if◌then◌else◌, Key}

abbrev pub Text : Type 0
Text = List ℕ

-- A literal of the source. Those of the client lie in the basic plane, one unit a character.
abbrev pub codes : String → Text
codes String.[] = []
codes (String.◌∷◌ c s) = code c ∷ codes s

abbrev pub text_eq : Text → Text → Bool
text_eq [] [] = true
text_eq [] (y ∷ ys) = false
text_eq (x ∷ xs) [] = false
text_eq (x ∷ xs) (y ∷ ys) = nat_eq x y && text_eq xs ys

text_eq_refl : (a : Text) → text_eq a a ≡ true
text_eq_refl [] = refl
text_eq_refl (x ∷ xs) = ground (arith, text_eq_refl xs)

text_eq_sound : (a b : Text) → text_eq a b ≡ true → a ≡ b
text_eq_sound [] [] h = refl
text_eq_sound [] (y ∷ ys) h = cc
text_eq_sound (x ∷ xs) [] h = cc
text_eq_sound (x ∷ xs) (y ∷ ys) h = ground (arith, text_eq_sound xs ys)

pub text_eq_iff : (a b : Text) → (text_eq a b ≡ true) ↔ (a ≡ b)
text_eq_iff a b = (text_eq_sound a b, λ e. rw e (text_eq_refl b))

instance abbrev pub text_Key : Key Text
text_Key = record { same = text_eq; same_iff = text_eq_iff }

-- A string is truthy unless it is empty.
abbrev pub truthy : Text → Bool
truthy [] = false
truthy (_ ∷ _) = true

-- `a || b` on strings.
infixr 30 ◌or_else◌
abbrev pub ◌or_else◌ : Text → Text → Text
[] or_else b = b
(c ∷ s) or_else b = c ∷ s

abbrev pub starts_with : Text → Text → Bool
starts_with s [] = true
starts_with [] (p ∷ ps) = false
starts_with (c ∷ s) (p ∷ ps) = nat_eq c p && starts_with s ps

-- `s.includes(part)`.
abbrev pub includes : Text → Text → Bool
includes [] part = starts_with [] part
includes (c ∷ s) part = starts_with (c ∷ s) part || includes s part

-- WhiteSpace and LineTerminator of the language, the units that `trim` and `\s` take.
unfoldable pub is_space : ℕ → Bool
is_space c =
    (leb 9 c && leb c 13)
    || nat_eq c 32
    || nat_eq c 0xa0
    || nat_eq c 0x1680
    || (leb 0x2000 c && leb c 0x200a)
    || nat_eq c 0x2028
    || nat_eq c 0x2029
    || nat_eq c 0x202f
    || nat_eq c 0x205f
    || nat_eq c 0x3000
    || nat_eq c 0xfeff

unfoldable pub trim_start : Text → Text
trim_start [] = []
trim_start (c ∷ s) = if is_space c then trim_start s else c ∷ s

-- A unit stays unless it and all behind it are white space.
unfoldable pub trim_end : Text → Text
trim_end [] = []
trim_end (c ∷ s) = elim (trim_end s) [ [] ↦ if is_space c then [] else c ∷ [] | d ∷ t ↦ c ∷ d ∷ t ]

unfoldable pub trim : Text → Text
unfolding is_space trim_start trim_end
trim s = trim_end (trim_start s)

-- `split` at one unit: the pieces before the last separator, and the piece behind it.
module _ (sep : ℕ) where
  abbrev pub split_last : List Text → Text → Text → List Text × Text
  split_last done cur [] = (done, cur)
  split_last done cur (c ∷ s) = elim (nat_eq c sep) [
    | true ↦ split_last (done ++ cur ∷ []) [] s
    | false ↦ split_last done (cur ++ c ∷ []) s
  ]

  abbrev pub split : Text → List Text
  split s = let (done, cur) = split_last [] [] s in done ++ cur ∷ []

abbrev pub join : Text → List Text → Text
join sep [] = []
join sep (s ∷ []) = s
join sep (s ∷ t ∷ ts) = s ++ (sep ++ join sep (t ∷ ts))

abbrev pub newline : ℕ
newline = 10
