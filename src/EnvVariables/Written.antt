-- ===== src/EnvVariables/Written.antt =====
-- Texts of lines KEY="value", read by `parseEnvFile` of environment-variables.tsx.
use logdeck.Base.{
  ℕ, suc, ◌-◌, Bool, true, false, not, ◌&&◌, ◌≡◌, refl, sym, ap, ◌∙◌, some, [], ◌∷◌, ◌++◌,
  append_assoc, filter, map, all, nat_eq, length, length-append, take, Bool-cases, inl, inr, arith,
}
use logdeck.Base.Text.{
  Text, text_Key, codes, text_eq, is_space, truthy, starts_with, trim, trim_start, trim_end, split,
  join, newline,
}
use logdeck.Base.JsMap.{JsMap}
use logdeck.LogEntries.{assign}
use logdeck.Base.Splitting.{has_newline, has_unit-append, split-cons, split-one}
use logdeck.EnvVariables.{
  equals_sign, hash_sign, double_quote, ends_with, quoted, strip_quotes, split_equals, add_pair,
  parse_line, parse_lines, parse_env_file,
}
use logdeck.EnvVariables.Editor.{spread}

-- A key without white space, that has a character, no `=`, and does not start with `#`.
abbrev pub is_plain_key : Text → Bool
is_plain_key key =
    truthy key
    && not (starts_with key (hash_sign ∷ []))
    && all (λ c. not (is_space c) && not (nat_eq c equals_sign)) key

abbrev pub is_plain : Text × Text → Bool
is_plain (key, value) = is_plain_key key && not (has_newline value)

-- The setter of this name ignores a text.
abbrev pub is_settable : Text × Text → Bool
is_settable (key, value) = not (text_eq key (codes "__proto__"))

abbrev pub write_line : Text × Text → Text
write_line (key, value) = key ++ equals_sign ∷ double_quote ∷ (value ++ double_quote ∷ [])

trim_end-snoc : (s : Text) (b : ℕ) → is_space b ≡ false → trim_end (s ++ b ∷ []) ≡ s ++ b ∷ []
unfolding trim_end
trim_end-snoc [] b h = rw h refl
trim_end-snoc (c ∷ []) b h = rw (h, trim_end) refl
trim_end-snoc (c ∷ d ∷ s) b h = rw (trim_end-snoc (d ∷ s) b h, trim_end) refl

trim-snoc :
    (a : ℕ) (s : Text) (b : ℕ)
    → is_space a ≡ false
    → is_space b ≡ false
    → trim (a ∷ (s ++ b ∷ [])) ≡ a ∷ (s ++ b ∷ [])
unfolding trim trim_start
trim-snoc a s b h k = rw h (trim_end-snoc (a ∷ s) b k)

trim_end_plain :
    (s : Text) → all (λ c. not (is_space c) && not (nat_eq c equals_sign)) s ≡ true → trim_end s ≡ s
unfolding trim_end
trim_end_plain [] h = refl
trim_end_plain (c ∷ []) h = let e : is_space c ≡ false = ground arith in rw e refl
trim_end_plain (c ∷ d ∷ s) h = rw (trim_end_plain (d ∷ s) (ground arith), trim_end) refl

split_equals_plain :
    (k w : Text)
    → all (λ c. not (is_space c) && not (nat_eq c equals_sign)) k ≡ true
    → split_equals (k ++ equals_sign ∷ w) ≡ some (k, w)
unfolding split_equals
split_equals_plain [] w h = refl
split_equals_plain (c ∷ k) w h =
    let e : nat_eq c equals_sign ≡ false = ground arith in
    rw (e, split_equals_plain k w (ground arith)) refl

ends_with-snoc : (s : Text) (q : ℕ) → ends_with q (s ++ q ∷ []) ≡ true
ends_with-snoc [] q = ground arith
ends_with-snoc (c ∷ []) q = ground arith
ends_with-snoc (c ∷ d ∷ s) q = ends_with-snoc (d ∷ s) q

take-length : (s t : Text) → take (length s) (s ++ t) ≡ s
take-length [] t = refl
take-length (c ∷ s) t = ap (λ r. c ∷ r) (take-length s t)

strip_quotes-quoted : (v : Text) → strip_quotes (double_quote ∷ (v ++ double_quote ∷ [])) ≡ v
unfolding strip_quotes
strip_quotes-quoted v =
    let e : quoted double_quote (double_quote ∷ (v ++ double_quote ∷ [])) ≡ true =
      ends_with-snoc (double_quote ∷ v) double_quote in
    let n : length (v ++ double_quote ∷ []) ≡ suc (length v) =
      omega (arith, length-append v (double_quote ∷ [])) in
    let m : suc (length (v ++ double_quote ∷ [])) - 1 ≡ suc (length v) = omega arith in
    rw e (rw m (take-length v (double_quote ∷ [])))

-- The parts of `is_plain` of a line.
module _ (c : ℕ) (k v : Text) (h : is_plain (c ∷ k, v) ≡ true) where
  first_plain : is_space c ≡ false
  first_plain = ground arith

  not_comment : nat_eq c hash_sign ≡ false
  not_comment = ground arith

  key_plain : all (λ d. not (is_space d) && not (nat_eq d equals_sign)) (c ∷ k) ≡ true
  key_plain = ground arith

  value_plain : has_newline v ≡ false
  value_plain = ground arith

  trim-write_line : trim (write_line (c ∷ k, v)) ≡ write_line (c ∷ k, v)
  unfolding is_space
  trim-write_line =
      let at = append_assoc k (equals_sign ∷ double_quote ∷ v) (double_quote ∷ []) in
      ap (λ r. trim (c ∷ r)) (sym at)
      ∙ trim-snoc c (k ++ equals_sign ∷ double_quote ∷ v) double_quote first_plain refl
      ∙ ap (λ r. c ∷ r) at

  trim-key : trim (c ∷ k) ≡ c ∷ k
  unfolding trim trim_start
  trim-key = rw first_plain (trim_end_plain (c ∷ k) key_plain)

  trim-value :
      trim (double_quote ∷ (v ++ double_quote ∷ [])) ≡ double_quote ∷ (v ++ double_quote ∷ [])
  unfolding is_space
  trim-value = trim-snoc double_quote v double_quote refl refl

  add_pair-write :
      (env : JsMap Text Text)
      → add_pair (some (c ∷ k, double_quote ∷ (v ++ double_quote ∷ []))) env ≡ assign (c ∷ k) v env
  add_pair-write env = rw (trim-key, trim-value, strip_quotes-quoted v) refl

  parse_line-write_line :
      (env : JsMap Text Text) → parse_line (write_line (c ∷ k, v)) env ≡ assign (c ∷ k) v env
  unfolding parse_line
  parse_line-write_line env =
      rw
        (
          trim-write_line,
          not_comment,
          split_equals_plain (c ∷ k) (double_quote ∷ (v ++ double_quote ∷ [])) key_plain,
        )
        (add_pair-write env)

all_plain : (c : ℕ) → is_space c ≡ false → nat_eq c newline ≡ false
unfolding is_space
all_plain c h = ground arith

key-has_newline :
    (k : Text)
    → all (λ c. not (is_space c) && not (nat_eq c equals_sign)) k ≡ true
    → has_newline k ≡ false
key-has_newline [] h = refl
key-has_newline (c ∷ k) h = ground (arith, all_plain c, key-has_newline k)

has_newline-write_line :
    (k v : Text) → is_plain (k, v) ≡ true → has_newline (write_line (k, v)) ≡ false
has_newline-write_line k v h =
    has_unit-append newline k (equals_sign ∷ double_quote ∷ (v ++ double_quote ∷ []))
      (key-has_newline k (ground arith))
      (has_unit-append newline v (double_quote ∷ []) (ground arith) refl)

parse_line-plain :
    (p : Text × Text) (env : JsMap Text Text)
    → is_plain p ≡ true
    → parse_line (write_line p) env ≡ assign p.0 p.1 env
parse_line-plain ([], v) env h = cc
parse_line-plain (c ∷ k, v) env h = parse_line-write_line c k v h env

blank : (env : JsMap Text Text) → parse_line [] env ≡ env
unfolding parse_line trim trim_start trim_end
blank env = refl

spread-assign :
    (p : Text × Text) (ps : JsMap Text Text) (env : JsMap Text Text)
    → spread (assign p.0 p.1 env) (filter is_settable ps) ≡ spread env (filter is_settable (p ∷ ps))
unfolding spread
spread-assign (k, v) ps env = elim (Bool-cases (text_eq k (codes "__proto__"))) [
  | inl e ↦ rw e refl
  | inr e ↦ rw e refl
]

parse_lines-write_line :
    (ps : JsMap Text Text) (env : JsMap Text Text)
    → all is_plain ps ≡ true
    → parse_lines (split newline (join (newline ∷ []) (map write_line ps))) env
      ≡ spread env (filter is_settable ps)
unfolding parse_lines spread
parse_lines-write_line [] env h = blank env
parse_lines-write_line (p ∷ []) env h =
    let plain : is_plain p ≡ true = ground arith in
    rw (split-one newline (write_line p) (has_newline-write_line p.0 p.1 plain))
      (parse_line-plain p env plain ∙ spread-assign p [] env)
parse_lines-write_line (p ∷ q ∷ ps) env h =
    let plain : is_plain p ≡ true = ground arith in
    let rest = join (newline ∷ []) (map write_line (q ∷ ps)) in
    rw (split-cons newline (write_line p) rest (has_newline-write_line p.0 p.1 plain)) (
      parse_lines-write_line (q ∷ ps) (parse_line (write_line p) env) (ground arith)
      ∙ ap (λ m. spread m (filter is_settable (q ∷ ps))) (parse_line-plain p env plain)
      ∙ spread-assign p (q ∷ ps) env)

-- Of a text of lines KEY="value" the parser reads each line as its key and its value, the last one for
-- a key, but drops the lines of the key `__proto__`: the value is what stands between the quotes, white
-- space, quotes and `=` included. A key is plain, and a value holds no newline.
pub parse_env_file-write_line :
    (ps : JsMap Text Text)
    → all is_plain ps ≡ true
    → parse_env_file (join (newline ∷ []) (map write_line ps)) ≡ spread [] (filter is_settable ps)
unfolding parse_env_file
parse_env_file-write_line ps h = parse_lines-write_line ps [] h
