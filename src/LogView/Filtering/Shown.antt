-- ===== src/LogView/Filtering/Shown.antt =====
-- Which entries the filter shows, and where the maps between the two lists lead.
use logdeck.Base.{
  ℕ, zero, suc, ◌+◌, ◌≡◌, refl, sym, ap, ◌∙◌, ◌↔◌, ◌⊎◌, inl, inr, Bool, true, false, Bool-cases,
  true-ne-false, Option, none, some, List, [], ◌∷◌, arith, get_elem?, In, In-filter, any-In,
  any_of_In,
}
use mathlib.Core.Path.{subst}
use logdeck.Base.Text.{Text, truthy, includes}
use logdeck.LogView.Search.{shown_line}
use logdeck.LogEntries.{LogLevel, LogEntry, level_eq, level_eq_sound}
use logdeck.LogView.Filtering.{
  LogFilterOptions, FilteredLogItem, level_kept, indexed, excluded, keeps,
  compute_filtered_log_items,
}

-- The item of the entry at an index is in the list, and nothing else.
abbrev IsAt : ℕ → List LogEntry → FilteredLogItem → Type 0
IsAt i es item = (k : ℕ) × (item.original_index ≡ i + k) × (get_elem? es k ≡ some item.entry)

item_path :
    (item : FilteredLogItem) (e : LogEntry) (i : ℕ)
    → item.entry ≡ e
    → item.original_index ≡ i
    → item ≡ record { entry = e; original_index = i }
item_path item e i p q = λ j. record { entry = p j; original_index = q j }

In→IsAt :
    (item : FilteredLogItem) (i : ℕ) (es : List LogEntry) → In item (indexed i es) → IsAt i es item
In→IsAt item i [] h = absurd h
In→IsAt item i (e ∷ es) (inl q) = (
  0,
  ap (λ (x : FilteredLogItem). x.original_index) q ∙ omega arith,
  ap some (sym (ap (λ (x : FilteredLogItem). x.entry) q)),
)
In→IsAt item i (e ∷ es) (inr t) =
    let (k, p, g) = In→IsAt item (i + 1) es t in (suc k, omega (arith, p), g)

IsAt→In :
    (item : FilteredLogItem) (i : ℕ) (es : List LogEntry) → IsAt i es item → In item (indexed i es)
IsAt→In item i [] (k, p, g) = cc
IsAt→In item i (e ∷ es) (zero, p, g) =
    let same : item.entry ≡ e = cc in inl (item_path item e i same (omega (arith, p)))
IsAt→In item i (e ∷ es) (suc k, p, g) = inr (IsAt→In item (i + 1) es (k, omega (arith, p), g))

-- What the filter means by an entry that is shown.
abbrev pub LevelWanted : LogFilterOptions → LogEntry → Type 0
LevelWanted o e = (o.selected_levels ≡ []) ⊎ In e.level o.selected_levels

level_kept_iff :
    (ls : List LogLevel) (e : LogEntry) → (level_kept ls e ≡ true) ↔ ((ls ≡ []) ⊎ In e.level ls)
unfolding level_kept
level_kept_iff [] e = (λ h. inl refl, λ h. refl)
level_kept_iff (l ∷ ls) e = (to, from)
  where
    to : level_kept (l ∷ ls) e ≡ true → ((l ∷ ls) ≡ []) ⊎ In e.level (l ∷ ls)
    to h =
        let (x, i, q) = any-In (level_eq e.level) (l ∷ ls) h in
        inr (subst (λ y. In y (l ∷ ls)) (sym (level_eq_sound e.level x q)) i)

    from : ((l ∷ ls) ≡ []) ⊎ In e.level (l ∷ ls) → level_kept (l ∷ ls) e ≡ true
    from (inl q) = cc
    from (inr i) = any_of_In (level_eq e.level) e.level (l ∷ ls) i (ground arith)

module _ (lower : Text → Text) where
  -- The search does not match the line that is shown: its text is not in it, in lower case, or its regular
  -- expression does not match it. An expression that is not valid matches nothing.
  abbrev pub NotMatched :
      Text → (use_regex : Bool) → (regex : Option (Text → Bool)) → LogEntry → Type 0
  NotMatched text false regex e = includes (lower (shown_line e)) (lower text) ≡ false
  NotMatched text true none e = Unit
  NotMatched text true (some test) e = test (shown_line e) ≡ false

  -- The exclusion is off, has nothing to look for, or does not find it in the entry.
  abbrev pub NotExcluded : LogFilterOptions → LogEntry → Type 0
  NotExcluded o e =
      (o.exclude_matches ≡ false)
      ⊎ (o.search_text ≡ [])
      ⊎ NotMatched o.search_text o.use_regex o.search_parsed.regex e

  excluded_iff :
      (text : Text) (use_regex : Bool) (regex : Option (Text → Bool)) (e : LogEntry)
      → (excluded lower text use_regex regex e ≡ false) ↔ NotMatched text use_regex regex e
  unfolding excluded
  excluded_iff text false none e = (λ h. h, λ h. h)
  excluded_iff text false (some test) e = (λ h. h, λ h. h)
  excluded_iff text true none e = (λ h. tt, λ h. refl)
  excluded_iff text true (some test) e = (λ h. h, λ h. h)

  truthy_iff : (text : Text) → (truthy text ≡ false) ↔ (text ≡ [])
  truthy_iff [] = (λ h. refl, λ h. refl)
  truthy_iff (c ∷ s) = (λ h. absurd (true-ne-false h), λ h. cc)

  not_excluded : (o : LogFilterOptions) (e : LogEntry) → keeps lower o e ≡ true → NotExcluded o e
  unfolding keeps
  not_excluded o e h = elim (Bool-cases o.exclude_matches) [
    | inr off ↦ inl off
    | inl on ↦ elim (Bool-cases (truthy o.search_text)) [
      | inr blank ↦ inr (inl ((truthy_iff o.search_text).0 blank))
      | inl there ↦
          let missed : excluded lower o.search_text o.use_regex o.search_parsed.regex e ≡ false =
            ground arith in
          inr (inr ((excluded_iff o.search_text o.use_regex o.search_parsed.regex e).0 missed))
    ]
  ]

  keeps_iff :
      (o : LogFilterOptions) (e : LogEntry)
      → (keeps lower o e ≡ true) ↔ (LevelWanted o e × NotExcluded o e)
  unfolding keeps
  keeps_iff o e =
      let l = level_kept_iff o.selected_levels e in
      let t = truthy_iff o.search_text in
      let x = excluded_iff o.search_text o.use_regex o.search_parsed.regex e in
      (
        λ h. (l.0 (ground arith), not_excluded o e h),
        λ h.
            let kept = l.1 h.0 in
            elim h.1 [
              | inl off ↦ ground arith
              | inr (inl blank) ↦ let b = t.1 blank in ground arith
              | inr (inr missed) ↦ let m = x.1 missed in ground arith
            ],
      )

  -- The filter shows an entry of the log, under its own index, exactly when its level is selected
  -- (or none is) and the exclusion, if it is on with a search text, does not match the line that is
  -- shown: by the text, in lower case, or by the regular expression. One that is not valid hides nothing.
  pub In-compute_filtered_log_items :
      (logs : List LogEntry) (o : LogFilterOptions) (item : FilteredLogItem)
      → In item (compute_filtered_log_items lower logs o) ↔ (
          (get_elem? logs item.original_index ≡ some item.entry)
          × LevelWanted o item.entry
          × NotExcluded o item.entry)
  unfolding compute_filtered_log_items
  In-compute_filtered_log_items logs o item =
      let f = In-filter (λ it. keeps lower o it.entry) item (indexed 0 logs) in
      let k = keeps_iff o item.entry in
      (
        λ h.
            let (i, q) = f.0 h in
            let (n, p, g) = In→IsAt item 0 logs i in
            let at : item.original_index ≡ n = omega (arith, p) in
            (ap (get_elem? logs) at ∙ g, (k.0 q).0, (k.0 q).1),
        λ h. f.1 (IsAt→In item 0 logs (item.original_index, omega arith, h.0), k.1 (h.1, h.2)),
      )
