-- ===== src/EnvVariables/Shown.antt =====
-- The rows that the editor shows: environment-variables.tsx.
use logdeck.Base.{
  Bool, true, false, not, ◌&&◌, ◌≡◌, refl, ap, ◌∙◌, List, [], ◌∷◌, ◌++◌, filter, Bool-cases, inl,
  inr, if◌then◌else◌,
}
use logdeck.Base.Text.{Text}
use logdeck.Base.Sorting.{Compared, before, same, after, insert_before, stable_sort}
use logdeck.LogEntries.{or_null}
use logdeck.EnvVariables.Editor.{Editor, contains}

unfoldable pub compare_entries : List Text → Text × Text → Text × Text → Compared
compare_entries modified (a, v) (b, w) =
    if contains a modified && not (contains b modified)
    then before
    else if not (contains a modified) && contains b modified
    then after
    else same

unfoldable pub env_entries : Editor → List (Text × Text)
unfolding compare_entries
env_entries s =
    let shown =
      filter (λ (e : Text × Text). not (contains e.0 s.deleted_keys))
        (if s.is_editing then s.edited_env else or_null s.env_variables []) in
    if s.is_editing then stable_sort (compare_entries s.modified_keys) shown else shown

abbrev pub is_modified : Editor → Text × Text → Bool
is_modified s e = contains e.0 s.modified_keys

abbrev pub is_left : Editor → Text × Text → Bool
is_left s e = not (contains e.0 s.deleted_keys)

module _ (modified : List Text) where
  abbrev marked : Text × Text → Bool
  marked e = contains e.0 modified

  abbrev unmarked : Text × Text → Bool
  unmarked e = not (contains e.0 modified)

  compare_unmarked :
      (x y : Text × Text)
      → contains x.0 modified ≡ false
      → compare_entries modified x y ≡ (if contains y.0 modified then after else same)
  unfolding compare_entries
  compare_unmarked x y h = rw h refl

  insert_marked :
      (x : Text × Text) (ms us : List (Text × Text))
      → contains x.0 modified ≡ true
      → insert_before (compare_entries modified) x (ms ++ us) ≡ x ∷ (ms ++ us)
  unfolding compare_entries
  insert_marked x [] [] h = refl
  insert_marked x [] (u ∷ us) h = elim (Bool-cases (contains u.0 modified)) [
    | inl e ↦ rw (h, e, insert_before) refl
    | inr e ↦ rw (h, e, insert_before) refl
  ]
  insert_marked x (m ∷ ms) us h = elim (Bool-cases (contains m.0 modified)) [
    | inl e ↦ rw (h, e, insert_before) refl
    | inr e ↦ rw (h, e, insert_before) refl
  ]

  -- An unmarked entry goes behind all that are marked, and before those that are not.
  insert_unmarked :
      (x : Text × Text) (ms us : List (Text × Text))
      → contains x.0 modified ≡ false
      → insert_before (compare_entries modified) x (filter marked ms ++ filter unmarked us)
        ≡ filter marked ms ++ x ∷ filter unmarked us
  insert_unmarked x [] [] h = refl
  insert_unmarked x [] (u ∷ us) h = elim (Bool-cases (contains u.0 modified)) [
    | inl e ↦ rw e (insert_unmarked x [] us h)
    | inr e ↦
        let equal : compare_entries modified x u ≡ same = compare_unmarked x u h ∙ (rw e refl) in
        rw e (rw (equal, insert_before) refl)
  ]
  insert_unmarked x (m ∷ ms) us h = elim (Bool-cases (contains m.0 modified)) [
    | inr e ↦ rw e (insert_unmarked x ms us h)
    | inl e ↦
        let behind : compare_entries modified x m ≡ after = compare_unmarked x m h ∙ (rw e refl) in
        rw e (rw (behind, insert_before) (ap (λ r. m ∷ r) (insert_unmarked x ms us h)))
  ]

  stable_sort_lem :
      (xs : List (Text × Text))
      → stable_sort (compare_entries modified) xs ≡ filter marked xs ++ filter unmarked xs
  stable_sort_lem [] = refl
  stable_sort_lem (x ∷ xs) = elim (Bool-cases (contains x.0 modified)) [
    | inl e ↦ rw (stable_sort_lem xs, e) (insert_marked x (filter marked xs) (filter unmarked xs) e)
    | inr e ↦ rw (stable_sort_lem xs, e) (insert_unmarked x xs xs e)
  ]

-- While it is edited, the editor shows the variables that are not deleted, first those that were
-- written by an import or a new row, then the others, each part in the order that they have in the
-- environment. Otherwise it shows the container's variables as they are, but for the deleted keys.
pub env_entries_lem :
    (s : Editor)
    → env_entries s ≡ (
        if s.is_editing
        then filter (is_modified s) (filter (is_left s) s.edited_env)
          ++ filter (λ e. not (is_modified s e)) (filter (is_left s) s.edited_env)
        else filter (is_left s) (or_null s.env_variables []))
unfolding env_entries
env_entries_lem s = elim (Bool-cases s.is_editing) [
  | inl e ↦ rw e (stable_sort_lem s.modified_keys (filter (is_left s) s.edited_env))
  | inr e ↦ rw e refl
]
