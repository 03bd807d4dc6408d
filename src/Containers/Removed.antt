-- ===== src/Containers/Removed.antt =====
-- Rows for containers that are gone and still have stored logs.
use logdeck.Base.{
  ℕ, Bool, true, false, not, ◌&&◌, ◌≡◌, ◌↔◌, refl, sym, ◌∙◌, Option, none, some, List, [], ◌∷◌,
  filter, any, arith, Bool-cases, true-ne-false, inl, inr, if◌then◌else◌, In, In-filter, In-map,
  any-In, any_of_In, all-In, all, ap, ◌++◌, nat_eq,
}
use logdeck.Base.Text.{Text, text_Key, text_eq, text_eq_iff, truthy, trim}
use logdeck.Base.JsMap.{get}
use logdeck.Containers.{
  ContainerInfo, RemovedContainerInfo, StoredContainer, removed_state, get_compose_project,
  project_labels, container_key, to_removed_container, is_live, synthesize_removed_containers,
  get_container_url_identifier, strip_leading_slash,
}

-- A name without the slash before it.
abbrev pub bare : Text → Text
bare [] = []
bare (c ∷ s) = if nat_eq c b'/' then s else c ∷ s

-- No live container of the host bears the name of the entry, with or without a slash before it.
abbrev pub IsGone : List ContainerInfo → StoredContainer → Type 0
IsGone live e =
    (c : ContainerInfo) (name : Text)
    → ¬ (In c live × In name c.names × (c.host ≡ e.host) × (bare name ≡ bare e.name))

bare_lem : (name : Text) → strip_leading_slash name ≡ bare name
unfolding strip_leading_slash
bare_lem [] = refl
bare_lem (c ∷ s) = ground arith

-- The key keeps the host and the name apart where no name holds its separator.
abbrev pub is_name : Text → Bool
is_name name = not (any (λ c. nat_eq c 0) name)

is_name-bare : (name : Text) → is_name name ≡ true → is_name (bare name) ≡ true
is_name-bare [] h = refl
is_name-bare (c ∷ s) h = elim (Bool-cases (nat_eq c b'/')) [
  | inl e ↦ rw e (ground arith)
  | inr e ↦ rw e h
]

separator-is_name : (s t : Text) → is_name (s ++ 0 ∷ t) ≡ false
separator-is_name [] t = refl
separator-is_name (c ∷ s) t = let ih = separator-is_name s t in ground arith

parts_of_key :
    (h k m n : Text)
    → is_name m ≡ true
    → is_name n ≡ true
    → (h ++ 0 ∷ m) ≡ (k ++ 0 ∷ n)
    → (h ≡ k) × (m ≡ n)
parts_of_key [] [] m n a b e = (refl, cc)
parts_of_key [] (c ∷ k) m n a b e =
    let q : m ≡ (k ++ 0 ∷ n) = cc in
    absurd (true-ne-false (sym a ∙ ap is_name q ∙ separator-is_name k n))
parts_of_key (c ∷ h) [] m n a b e =
    let q : n ≡ (h ++ 0 ∷ m) = cc in
    absurd (true-ne-false (sym b ∙ ap is_name q ∙ separator-is_name h m))
parts_of_key (c ∷ h) (d ∷ k) m n a b e =
    let heads : c ≡ d = cc in
    let tails : (h ++ 0 ∷ m) ≡ (k ++ 0 ∷ n) = cc in
    let (hosts, names) = parts_of_key h k m n a b tails in (cc, names)

container_key_iff :
    (h k m n : Text)
    → is_name m ≡ true
    → is_name n ≡ true
    → (container_key h m ≡ container_key k n) ↔ ((h ≡ k) × (bare m ≡ bare n))
container_key_iff h k m n a b =
    rw (bare_lem m, bare_lem n)
      (
        λ e. parts_of_key h k (bare m) (bare n) (is_name-bare m a) (is_name-bare n b) e,
        λ q. let hosts = q.0 in let names = q.1 in rw (hosts, names) refl,
      )

-- The names of live containers are names, and a name that is in a list of them is one.
abbrev pub names_kept : List ContainerInfo → Bool
names_kept live = all (λ (c : ContainerInfo). all is_name c.names) live

In-names_kept :
    (live : List ContainerInfo) (c : ContainerInfo) (name : Text)
    → names_kept live ≡ true
    → In c live
    → In name c.names
    → is_name name ≡ true
In-names_kept live c name h i j =
    all-In is_name name c.names (all-In (λ (x : ContainerInfo). all is_name x.names) c live h i) j

module _ (to_unix_seconds : Text → ℕ) where
  is_live-IsGone :
      (live : List ContainerInfo) (e : StoredContainer)
      → names_kept live ≡ true
      → is_name e.name ≡ true
      → (is_live to_unix_seconds live (container_key e.host e.name) ≡ false) ↔ IsGone live e
  unfolding is_live
  is_live-IsGone live e kept entry_kept = (to, from)
    where
      key : Text
      key = container_key e.host e.name

      bears : ContainerInfo → Bool
      bears c = any (λ n. text_eq (container_key c.host n) key) c.names

      to : is_live to_unix_seconds live key ≡ false → IsGone live e
      to h c name (c_in, name_in, hosts, names) =
          let k = In-names_kept live c name kept c_in name_in in
          let same = (container_key_iff c.host e.host name e.name k entry_kept).1 (hosts, names) in
          let named : bears c ≡ true =
            any_of_In (λ n. text_eq (container_key c.host n) key) name c.names name_in
              ((text_eq_iff (container_key c.host name) key).1 same) in
          true-ne-false (sym (any_of_In bears c live c_in named) ∙ h)

      from : IsGone live e → is_live to_unix_seconds live key ≡ false
      from gone = elim (Bool-cases (is_live to_unix_seconds live key)) [
        | inr h ↦ h
        | inl h ↦
            let (c, c_in, named) = any-In bears live h in
            let (name, name_in, same) =
              any-In (λ n. text_eq (container_key c.host n) key) c.names named in
            let k = In-names_kept live c name kept c_in name_in in
            let (hosts, names) =
              (container_key_iff c.host e.host name e.name k entry_kept).0
                ((text_eq_iff (container_key c.host name) key).0 same) in
            absurd (gone c name (c_in, name_in, hosts, names))
      ]

  -- The rows are those of the entries that the store marks as removed, does not exclude, and whose name no
  -- live container of the same host bears, with or without a slash before it; no other. No name holds
  -- the character NUL.
  pub In-synthesize_removed_containers :
      (stored : List StoredContainer) (live : List ContainerInfo) (r : RemovedContainerInfo)
      → names_kept live ≡ true
      → all (λ (e : StoredContainer). is_name e.name) stored ≡ true
      → In r (synthesize_removed_containers to_unix_seconds stored live) ↔ (
          (e : StoredContainer) × In e stored
          × (e.removed ≡ true)
          × (e.excluded ≡ false)
          × IsGone live e
          × (r ≡ to_removed_container to_unix_seconds e))
  unfolding synthesize_removed_containers
  In-synthesize_removed_containers stored live r kept entries_kept =
      let wanted : StoredContainer → Bool = λ e.
        e.removed
        && not e.excluded
        && not (is_live to_unix_seconds live (container_key e.host e.name)) in
      let m = In-map (to_removed_container to_unix_seconds) r (filter wanted stored) in
      let entry = λ (e : StoredContainer) (i : In e stored).
        all-In (λ (x : StoredContainer). is_name x.name) e stored entries_kept i in
      (
        λ h.
            let (e, i, q) = m.0 h in
            let (here, w) = (In-filter wanted e stored).0 i in
            (
              e,
              here,
              ground arith,
              ground arith,
              (is_live-IsGone live e kept (entry e here)).0 (ground arith),
              q,
            ),
        λ h.
            let (e, here, removed, excluded, gone, q) = h in
            let dead = (is_live-IsGone live e kept (entry e here)).1 gone in
            m.1 (e, (In-filter wanted e stored).1 (here, ground arith), q),
      )

  -- The stored project without white space around it, if that is not empty.
  abbrev pub project_of : Option Text → Option Text
  project_of none = none
  project_of (some project) = if truthy (trim project) then some (trim project) else none

  project_labels-project_of :
      (p : Option Text) → get_compose_project (project_labels to_unix_seconds p) ≡ project_of p
  unfolding get_compose_project get trim
  project_labels-project_of none = refl
  project_labels-project_of (some []) = refl
  project_labels-project_of (some (c ∷ s)) = elim (Bool-cases (truthy (trim (c ∷ s)))) [
    | inl there ↦ rw there refl
    | inr blank ↦ rw blank refl
  ]

  -- The row of a stored container is in the removed state, its link leads to its own id, and its
  -- compose project is the stored one without white space around it, if that is not empty.
  pub to_removed_container_lem :
      (e : StoredContainer)
      → let row = (to_removed_container to_unix_seconds e).info in
        (row.state ≡ removed_state)
        × (get_container_url_identifier row ≡ row.id)
        × (row.host ≡ e.host)
        × (get_compose_project row.labels ≡ project_of e.compose_project)
  unfolding to_removed_container get_container_url_identifier
  to_removed_container_lem e = (refl, refl, refl, project_labels-project_of e.compose_project)
