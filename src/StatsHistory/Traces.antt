-- ===== src/StatsHistory/Traces.antt =====
-- The history against everything that was ever sampled.
use logdeck.Base.{
  ◌≤◌, ◌≡◌, refl, ap, ◌∙◌, Option, none, some, List, [], ◌∷◌, ◌++◌, arith, length, length-last_n,
  last_n, last_n-append_last_n, Bool-cases, inl, inr, if◌then◌else◌,
}
use logdeck.Base.Text.{Text, text_Key, text_eq, text_eq_iff}
use logdeck.Base.JsMap.{get, set, get-set}
use logdeck.LogEntries.{or_null}
use logdeck.StatsHistory.{
  max_samples, StatsSample, ContainerStats, StatsHistoryMap, sample_of, append_each, append_samples,
}

module _ {V : Type 0} where
  -- The last reading of a container in a batch, or what stood before.
  abbrev pub reading :
      Text → List (ContainerStats V) → Option (StatsSample V) → Option (StatsSample V)
  reading id [] found = found
  reading id (stat ∷ stats) found =
      reading id stats (if text_eq stat.id id then some (sample_of stat) else found)

  -- Every sample since the container was last missing from a batch.
  abbrev pub extended :
      Option (List (StatsSample V)) → Option (StatsSample V) → Option (List (StatsSample V))
  extended before none = none
  extended before (some x) = some (or_null before [] ++ x ∷ [])

  abbrev pub trace :
      Text
      → List (List (ContainerStats V))
      → Option (List (StatsSample V))
      → Option (List (StatsSample V))
  trace id [] before = before
  trace id (batch ∷ batches) before = trace id batches (extended before (reading id batch none))

  abbrev pub capped : Option (List (StatsSample V)) → Option (List (StatsSample V))
  capped none = none
  capped (some xs) = some (last_n max_samples xs)

  abbrev pub append_batches : List (List (ContainerStats V)) → StatsHistoryMap V → StatsHistoryMap V
  append_batches [] history = history
  append_batches (batch ∷ batches) history = append_batches batches (append_samples history batch)

  get-append_each :
      (id : Text) (history next : StatsHistoryMap V) (stats : List (ContainerStats V))
      (found : Option (StatsSample V))
      → get id next ≡ capped (extended (get id history) found)
      → get id (append_each history next stats)
        ≡ capped (extended (get id history) (reading id stats found))
  unfolding append_each
  get-append_each id history next [] found h = h
  get-append_each id history next (stat ∷ stats) found h =
      get-append_each id history
        (set stat.id (last_n max_samples (or_null (get stat.id history) [] ++ sample_of stat ∷ []))
          next)
        stats (if text_eq stat.id id then some (sample_of stat) else found)
        (get-set stat.id id
            (last_n max_samples (or_null (get stat.id history) [] ++ sample_of stat ∷ [])) next
          ∙ elim (Bool-cases (text_eq stat.id id)) [
            | inl e ↦
                let same = (text_eq_iff stat.id id).0 e in
                rw e (
                  ap
                    (λ k.
                      some (last_n max_samples (or_null (get k history) [] ++ sample_of stat ∷ [])))
                    same)
            | inr e ↦ rw e h
          ])

  capped_again :
      (before : Option (List (StatsSample V))) (x : Option (StatsSample V))
      → capped (extended (capped before) x) ≡ capped (extended before x)
  capped_again before none = refl
  capped_again none (some x) = refl
  capped_again (some xs) (some x) = ap some (last_n-append_last_n max_samples xs (x ∷ []))

  from_same :
      (id : Text) (batches : List (List (ContainerStats V))) (history : StatsHistoryMap V)
      (before : Option (List (StatsSample V)))
      → get id history ≡ capped before
      → get id (append_batches batches history) ≡ capped (trace id batches before)
  unfolding append_samples get
  from_same id [] history before h = h
  from_same id (batch ∷ batches) history before h =
      from_same id batches (append_samples history batch) (extended before (reading id batch none))
        (get-append_each id history [] batch none refl
          ∙ ap (λ o. capped (extended o (reading id batch none))) h
          ∙ capped_again before (reading id batch none))

  bounded : (o : Option (List (StatsSample V))) → length (or_null (capped o) []) ≤ max_samples
  bounded none = omega arith
  bounded (some xs) = omega (arith, length-last_n max_samples xs)

  -- After any batches the history of a container is the last 60 of all its samples since it was last
  -- missing from a batch, in order, and there is none if it is missing from the last one; it never
  -- holds more than 60.
  pub append_batches-trace :
      (id : Text) (batches : List (List (ContainerStats V)))
      → (get id (append_batches batches []) ≡ capped (trace id batches none))
        × (length (or_null (get id (append_batches batches [])) []) ≤ max_samples)
  unfolding get
  append_batches-trace id batches =
      let e = from_same id batches [] none refl in (e, rw e (bounded (trace id batches none)))
