-- ===== src/LogView/ViewState/Levels.antt =====
-- The levels in the address, written and read.
use logdeck.Base.{
  Bool, true, false, ◌&&◌, ◌||◌, ◌≡◌, refl, sym, ap, ◌∙◌, Option, none, some, List, [], ◌∷◌, ◌++◌,
  map, any, Bool-cases, true-ne-false, inl, inr, arith,
}
use logdeck.Base.Sorting.{stable_sort, any-stable_sort}
use logdeck.Base.Splitting.{has_unit, split-cons, split-one}
use logdeck.Base.Text.{Text, text_eq, text_eq_iff, split, join}
use logdeck.LogEntries.{
  LogLevel, trace, debug, info, warn, warning, error, fatal, panic, unknown, level_eq,
  level_eq_sound,
}
use logdeck.LogView.ViewState.{
  level_name, log_levels, has_level, level_among, comma, add_level, collect_levels, parse_levels,
  compare_texts, serialize_levels,
}

level_eq_refl : (l : LogLevel) → level_eq l l ≡ true
level_eq_refl l = ground arith

-- The names tell the levels apart.
by_name : (l : LogLevel) → level_among (level_name l) (warning ∷ log_levels) ≡ some l
by_name trace = refl
by_name debug = refl
by_name info = refl
by_name warn = refl
by_name warning = refl
by_name error = refl
by_name fatal = refl
by_name panic = refl
by_name unknown = refl

level_name-injective : (l m : LogLevel) → level_name l ≡ level_name m → l ≡ m
level_name-injective l m e =
    unwrap (sym (by_name l) ∙ ap (λ t. level_among t (warning ∷ log_levels)) e ∙ by_name m)
  where
    unwrap : some l ≡ some m → l ≡ m
    unwrap q = cc

text_eq-level_name : (l m : LogLevel) → text_eq (level_name m) (level_name l) ≡ level_eq l m
text_eq-level_name l m = elim (Bool-cases (level_eq l m)) [
  | inl e ↦
      (text_eq_iff (level_name m) (level_name l)).1 (ap level_name (sym (level_eq_sound l m e)))
      ∙ sym e
  | inr e ↦ elim (Bool-cases (text_eq (level_name m) (level_name l))) [
    | inr q ↦ q ∙ sym e
    | inl q ↦
        let same_level : l ≡ m =
          sym (level_name-injective m l ((text_eq_iff (level_name m) (level_name l)).0 q)) in
        absurd (true-ne-false (sym (level_eq_refl l) ∙ ap (level_eq l) same_level ∙ e))
  ]
]

abbrev is_level : LogLevel → Option LogLevel → Bool
is_level l none = false
is_level l (some m) = level_eq l m

is_level-level_among :
    (l : LogLevel) (text : Text) (ms : List LogLevel)
    → is_level l (level_among text ms) ≡ (has_level l ms && text_eq text (level_name l))
is_level-level_among l text [] = refl
is_level-level_among l text (m ∷ ms) = elim (Bool-cases (text_eq (level_name m) text)) [
  | inl e ↦
      let t : level_name m ≡ text = (text_eq_iff (level_name m) text).0 e in
      let names : text_eq text (level_name l) ≡ level_eq l m =
        ap (λ u. text_eq u (level_name l)) (sym t) ∙ text_eq-level_name l m in
      rw (e, names) (ground arith)
  | inr e ↦
      let ih = is_level-level_among l text ms in
      elim (Bool-cases (level_eq l m)) [
        | inr q ↦ rw (e, q) ih
        | inl q ↦
            let same_level : l ≡ m = level_eq_sound l m q in
            let other : text_eq text (level_name l) ≡ false = apart same_level e in
            rw (e, ih, other) (ground arith)
      ]
]
  where
    apart : l ≡ m → text_eq (level_name m) text ≡ false → text_eq text (level_name l) ≡ false
    apart same_level e = elim (Bool-cases (text_eq text (level_name l))) [
      | inr q ↦ q
      | inl q ↦
          let back : level_name m ≡ text =
            ap level_name (sym same_level) ∙ sym ((text_eq_iff text (level_name l)).0 q) in
          absurd (true-ne-false (sym ((text_eq_iff (level_name m) text).1 back) ∙ e))
    ]

has_level-append :
    (l : LogLevel) (ls ms : List LogLevel)
    → has_level l (ls ++ ms) ≡ (has_level l ls || has_level l ms)
has_level-append l [] ms = refl
has_level-append l (k ∷ ls) ms = ground (arith, has_level-append l ls ms)

has_level-add_level :
    (l : LogLevel) (o : Option LogLevel) (ls : List LogLevel)
    → has_level l (add_level o ls) ≡ (has_level l ls || is_level l o)
has_level-add_level l none ls = ground arith
has_level-add_level l (some m) ls = elim (Bool-cases (has_level m ls)) [
  | inr e ↦ rw e (has_level-append l ls (m ∷ []) ∙ (ground arith))
  | inl e ↦ rw e (elim (Bool-cases (level_eq l m)) [
    | inr q ↦ rw q (ground arith)
    | inl q ↦
        let here : has_level l ls ≡ true = ap (λ k. has_level k ls) (level_eq_sound l m q) ∙ e in
        rw here refl
  ])
]

-- The names that are read, whatever their order.
abbrev names : LogLevel → List Text → Bool
names l texts = any (λ t. text_eq t (level_name l)) texts

has_level-collect_levels :
    (l : LogLevel) (texts : List Text) (ls : List LogLevel)
    → has_level l (collect_levels texts ls)
      ≡ (has_level l ls || has_level l log_levels && names l texts)
has_level-collect_levels l [] ls = ground arith
has_level-collect_levels l (t ∷ texts) ls =
    has_level-collect_levels l texts (add_level (level_among t log_levels) ls)
    ∙ (rw (has_level-add_level l (level_among t log_levels) ls, is_level-level_among l t log_levels)
        (ground arith))

comma_free : (l : LogLevel) → has_unit comma (level_name l) ≡ false
comma_free trace = refl
comma_free debug = refl
comma_free info = refl
comma_free warn = refl
comma_free warning = refl
comma_free error = refl
comma_free fatal = refl
comma_free panic = refl
comma_free unknown = refl

-- Of texts without a comma, those that name a level come back.
names-split :
    (l : LogLevel) (texts : List Text)
    → any (has_unit comma) texts ≡ false
    → names l (split comma (join (comma ∷ []) texts)) ≡ names l texts
names-split l [] free = no_name l
  where
    no_name : (l : LogLevel) → names l ([] ∷ []) ≡ false
    no_name trace = refl
    no_name debug = refl
    no_name info = refl
    no_name warn = refl
    no_name warning = refl
    no_name error = refl
    no_name fatal = refl
    no_name panic = refl
    no_name unknown = refl
names-split l (t ∷ []) free =
    let plain : has_unit comma t ≡ false = ground arith in rw (split-one comma t plain) refl
names-split l (t ∷ u ∷ texts) free =
    let plain : has_unit comma t ≡ false = first_free t (u ∷ texts) free in
    rw (split-cons comma t (join (comma ∷ []) (u ∷ texts)) plain) (
      ap (λ b. text_eq t (level_name l) || b)
        (names-split l (u ∷ texts) (rest_free t (u ∷ texts) free)))
  where
    first_free :
        (t : Text) (ts : List Text)
        → any (has_unit comma) (t ∷ ts) ≡ false
        → has_unit comma t ≡ false
    first_free t ts free = ground arith

    rest_free :
        (t : Text) (ts : List Text)
        → any (has_unit comma) (t ∷ ts) ≡ false
        → any (has_unit comma) ts ≡ false
    rest_free t ts free = ground arith

names-level_name :
    (l : LogLevel) (ls : List LogLevel) → names l (map level_name ls) ≡ has_level l ls
names-level_name l [] = refl
names-level_name l (m ∷ ls) = rw (text_eq-level_name l m, names-level_name l ls) refl

free-level_name : (ls : List LogLevel) → any (has_unit comma) (map level_name ls) ≡ false
free-level_name [] = refl
free-level_name (m ∷ ls) = rw (comma_free m, free-level_name ls) refl

-- The levels that are selected come back from the address, except for WARNING, which is not among
-- LOG_LEVELS: a level is read exactly if it was written and is one of those.
pub parse_levels-serialize_levels :
    (l : LogLevel) (ls : List LogLevel)
    → has_level l (parse_levels (serialize_levels ls)) ≡ (has_level l ls && has_level l log_levels)
unfolding parse_levels serialize_levels
parse_levels-serialize_levels l ls =
    let sorted = stable_sort compare_texts (map level_name ls) in
    let free : any (has_unit comma) sorted ≡ false =
      any-stable_sort compare_texts (has_unit comma) (map level_name ls) ∙ free-level_name ls in
    let kept : names l (split comma (join (comma ∷ []) sorted)) ≡ has_level l ls =
      names-split l sorted free
      ∙ any-stable_sort compare_texts (λ t. text_eq t (level_name l)) (map level_name ls)
      ∙ names-level_name l ls in
    has_level-collect_levels l (split comma (join (comma ∷ []) sorted)) []
    ∙ (rw kept (ground arith))
