-- ===== src/LogView/Filtering/Exclusion.antt =====
-- The exclusion of matches against the search: they agree on what matches.
use logdeck.Base.{
  ℕ, ◌+◌, ◌≡◌, refl, sym, ap, ◌∙◌, ◌≢◌, inl, inr, Bool, true, false, ◌&&◌, Option, none, some, List,
  [], ◌∷◌, arith, Bool-cases, true-ne-false, filter,
}
use logdeck.Base.Text.{Text, truthy}
use logdeck.LogEntries.{LogEntry}
use logdeck.LogView.Search.{
  SearchParsed, has_error, parse_search-or_error, parse_search, search_hits, matches_from,
  compute_search_matches,
}
use logdeck.LogView.Filtering.{
  LogFilterOptions, FilteredLogItem, indexed, excluded, keeps, compute_filtered_log_items,
  filtered_logs,
}

expression_there :
    (compile : Text → Option (Text → Bool)) (text : Text) (rx : Bool) (p : SearchParsed)
    → p ≡ parse_search compile text rx
    → truthy text ≡ true
    → (rx && has_error p) ≡ false
    → rx ≡ true
    → p.regex ≢ none
expression_there compile text false p parsed some_text good e = cc
expression_there compile text true p parsed some_text good e =
    elim (parse_search-or_error compile text some_text) [
      | inl bad ↦ λ _. true-ne-false (sym bad ∙ ap has_error (sym parsed) ∙ good)
      | inr there ↦ λ h. there (ap (λ (q : SearchParsed). q.regex) (sym parsed) ∙ h)
    ]

module _ (lower : Text → Text) where
  no_matches :
      (keep : LogEntry → Bool) (hit : LogEntry → Bool)
      → ((e : LogEntry) → keep e ≡ true → hit e ≡ false)
      → (i : ℕ) (items : List FilteredLogItem)
      → matches_from hit i (filtered_logs (filter (λ item. keep item.entry) items)) ≡ []
  unfolding matches_from
  no_matches keep hit apart i [] = refl
  no_matches keep hit apart i (item ∷ items) = elim (Bool-cases (keep item.entry)) [
    | inr out ↦ rw out (no_matches keep hit apart i items)
    | inl kept ↦
        let missed = apart item.entry kept in
        rw kept (rw missed (no_matches keep hit apart (i + 1) items))
  ]

  keeps-excluded :
      (o : LogFilterOptions) (e : LogEntry)
      → o.exclude_matches ≡ true
      → truthy o.search_text ≡ true
      → keeps lower o e ≡ true
      → excluded lower o.search_text o.use_regex o.search_parsed.regex e ≡ false
  unfolding keeps
  keeps-excluded o e on some_text h = ground arith

  -- Where there is an expression to search for, both callers test for the same thing.
  hits_of_excluded :
      (text : Text) (rx : Bool) (regex : Option (Text → Bool)) (e : LogEntry)
      → (rx ≡ true → regex ≢ none)
      → excluded lower text rx regex e ≡ false
      → search_hits lower text rx regex e ≡ false
  unfolding excluded
  hits_of_excluded text true none e there h = absurd (there refl refl)
  hits_of_excluded text true (some test) e there h = h
  hits_of_excluded text false none e there h = h
  hits_of_excluded text false (some test) e there h = h

  module _ (o : LogFilterOptions) (logs : List LogEntry) (on : o.exclude_matches ≡ true) where
    nothing_left :
        truthy o.search_text ≡ true
        → (o.use_regex ≡ true → o.search_parsed.regex ≢ none)
        → matches_from
            (search_hits lower o.search_text o.use_regex o.search_parsed.regex)
            0
            (filtered_logs (compute_filtered_log_items lower logs o))
          ≡ []
    unfolding compute_filtered_log_items
    nothing_left some_text there =
        no_matches (keeps lower o)
          (search_hits lower o.search_text o.use_regex o.search_parsed.regex)
          (λ e h. hits_of_excluded _ _ _ e there (keeps-excluded o e on some_text h)) 0
          (indexed 0 logs)

    -- With matches excluded, the search finds none among the rows that are left: in a plain search,
    -- under a valid expression and under an invalid one alike.
    pub compute_search_matches-compute_filtered_log_items :
        (compile : Text → Option (Text → Bool))
        → o.search_parsed ≡ parse_search compile o.search_text o.use_regex
        → compute_search_matches lower
            (filtered_logs (compute_filtered_log_items lower logs o))
            o.search_text
            o.use_regex
            o.search_parsed
          ≡ []
    unfolding compute_search_matches
    compute_search_matches-compute_filtered_log_items compile parsed =
        elim (Bool-cases (truthy o.search_text)) [
          | inr nothing ↦ simp nothing
          | inl some_text ↦ elim (Bool-cases (o.use_regex && has_error o.search_parsed)) [
            | inl bad ↦ simp (some_text, bad)
            | inr good ↦
                simp (some_text, good)
                  (nothing_left some_text (
                    expression_there compile o.search_text o.use_regex o.search_parsed parsed
                      some_text good))
          ]
        ]
