-- ===== src/Containers/Groups.antt =====
-- The groups of the dashboard are the classes of the rows by compose project.
use logdeck.Base.{
  true, false, ◌≡◌, ◌↔◌, refl, sym, ap, ap₂, ◌∙◌, Option, none, some, List, [], ◌∷◌, ◌++◌,
  append_assoc, append-nil, filter, Bool-cases, Option-cases, true-ne-false, inl, inr,
  if◌then◌else◌, In,
}
use logdeck.Base.Text.{Text, text_Key, text_eq, text_eq_iff}
use logdeck.Base.JsMap.{JsMap, get, has, set, get-set, has_iff}
use logdeck.LogEntries.{or_null}
use logdeck.Containers.{ContainerInfo, group_key, with_group, push_to, add_to_group, collect_groups}

abbrev pub Groups : Type 0
Groups = JsMap Text (List ContainerInfo)

-- The rows of a project, in their order.
abbrev pub members : Text → List ContainerInfo → List ContainerInfo
members k cs = filter (λ c. text_eq (group_key c) k) cs

text_eq_self : (k : Text) → text_eq k k ≡ true
text_eq_self k = (text_eq_iff k k).1 refl

text_eq_swap : (j k : Text) → text_eq j k ≡ false → text_eq k j ≡ false
text_eq_swap j k h = elim (Bool-cases (text_eq k j)) [
  | inr e ↦ e
  | inl e ↦
      let same = (text_eq_iff j k).1 (sym ((text_eq_iff k j).0 e)) in
      absurd (true-ne-false (sym same ∙ h))
]

-- No key stands twice.
abbrev pub Distinct : Groups → Type 0
Distinct [] = Unit
Distinct ((k, v) ∷ m) = (get k m ≡ none) × Distinct m

set-Distinct : (k : Text) (v : List ContainerInfo) (m : Groups) → Distinct m → Distinct (set k v m)
unfolding set get
set-Distinct k v [] d = (refl, tt)
set-Distinct k v ((j, w) ∷ m) (fresh, d) = elim (Bool-cases (text_eq j k)) [
  | inl e ↦ rw e (fresh, d)
  | inr e ↦ rw e (get-set k j v m ∙ (rw (text_eq_swap j k e) fresh), set-Distinct k v m d)
]

pub In-get :
    (k : Text) (v : List ContainerInfo) (m : Groups) → Distinct m → In (k, v) m ↔ (get k m ≡ some v)
unfolding get
In-get k v [] d = (λ h. absurd h, λ h. cc)
In-get k v ((j, w) ∷ m) (fresh, d) =
    let ih = In-get k v m d in
    elim (Bool-cases (text_eq j k)) [
      | inl e ↦
          let same = (text_eq_iff j k).0 e in
          rw e (
            λ h. elim h [
              | inl q ↦ ap (λ p. some p.1) (sym q)
              | inr t ↦ absurd (none_some (sym fresh ∙ ap (λ i. get i m) same ∙ ih.0 t))
            ],
            λ h. inl (pair (sym same) (unwrap (sym h))),
          )
      | inr e ↦ rw e (
        λ h. elim h [
          | inl q ↦ absurd (true-ne-false (sym ((text_eq_iff j k).1 (sym (ap (λ p. p.0) q))) ∙ e))
          | inr t ↦ ih.0 t
        ],
        λ h. inr (ih.1 h),
      )
    ]
  where
    none_some : none ≡ some v → ⊥
    none_some q = cc

    unwrap : {a b : List ContainerInfo} → some a ≡ some b → a ≡ b
    unwrap q = cc

    pair :
        {a b : Text} {x y : List ContainerInfo}
        → a ≡ b
        → x ≡ y
        → ◌≡◌ {A = Text × List ContainerInfo} (a, x) (b, y)
    pair p q = ap₂ (λ a x. (a, x)) p q

get-with_group :
    (key k : Text) (m : Groups)
    → get k (with_group key m) ≡ (if text_eq key k then some (or_null (get key m) []) else get k m)
unfolding with_group
get-with_group key k m = elim (Option-cases (get key m)) [
  | inl fresh ↦ let new = (has_iff key m).1 fresh in rw (new, fresh) (get-set key k [] m)
  | inr (items, old) ↦
      let known : has key m ≡ true = elim (Bool-cases (has key m)) [
        | inl h ↦ h
        | inr h ↦ absurd (some_none (sym old ∙ (has_iff key m).0 h))
      ] in
      elim (Bool-cases (text_eq key k)) [
        | inl e ↦
            let same = (text_eq_iff key k).0 e in
            rw (known, e) (ap (λ j. get j m) (sym same) ∙ old ∙ (rw old refl))
        | inr e ↦ rw (known, e) refl
      ]
]
  where
    some_none : {a : List ContainerInfo} → some a ≡ none → ⊥
    some_none q = cc

push_to-none :
    (key : Text) (c : ContainerInfo) (m : Groups) → get key m ≡ none → push_to key c m ≡ m
unfolding push_to
push_to-none key c m e = rw (e, push_to) refl

push_to-some :
    (key : Text) (c : ContainerInfo) (items : List ContainerInfo) (m : Groups)
    → get key m ≡ some items
    → push_to key c m ≡ set key (items ++ c ∷ []) m
unfolding push_to
push_to-some key c items m e = rw (e, push_to) refl

get-push_to :
    (key k : Text) (c : ContainerInfo) (items : List ContainerInfo) (m : Groups)
    → get key m ≡ some items
    → get k (push_to key c m) ≡ (if text_eq key k then some (items ++ c ∷ []) else get k m)
get-push_to key k c items m old =
    ap (get k) (push_to-some key c items m old) ∙ get-set key k (items ++ c ∷ []) m

get-add_to_group :
    (k : Text) (c : ContainerInfo) (m : Groups)
    → get k (add_to_group m c) ≡ (
        if text_eq (group_key c) k
        then some (or_null (get (group_key c) m) [] ++ c ∷ [])
        else get k m)
unfolding add_to_group
get-add_to_group k c m =
    let key = group_key c in
    let items = or_null (get key m) [] in
    let there : get key (with_group key m) ≡ some items =
      get-with_group key key m ∙ (rw (text_eq_self key) refl) in
    get-push_to key k c items (with_group key m) there ∙ (elim (Bool-cases (text_eq key k)) [
      | inl e ↦ rw e refl
      | inr e ↦ rw e (get-with_group key k m ∙ (rw e refl))
    ])

unfoldable pub as_group : List ContainerInfo → Option (List ContainerInfo)
as_group [] = none
as_group (x ∷ xs) = some (x ∷ xs)

as_group-or_null : (xs : List ContainerInfo) → or_null (as_group xs) [] ≡ xs
unfolding as_group
as_group-or_null [] = refl
as_group-or_null (x ∷ xs) = refl

as_group-append :
    (xs : List ContainerInfo) (c : ContainerInfo) → as_group (xs ++ c ∷ []) ≡ some (xs ++ c ∷ [])
unfolding as_group
as_group-append [] c = refl
as_group-append (x ∷ xs) c = refl

members-append :
    (k : Text) (xs ys : List ContainerInfo) → members k (xs ++ ys) ≡ members k xs ++ members k ys
members-append k [] ys = refl
members-append k (x ∷ xs) ys = elim (Bool-cases (text_eq (group_key x) k)) [
  | inl e ↦ rw e (ap (λ r. x ∷ r) (members-append k xs ys))
  | inr e ↦ rw e (members-append k xs ys)
]

-- The map holds the classes of the rows so far.
pub record Grouped (cs : List ContainerInfo) (m : Groups) : Type 0 where
  pub distinct : Distinct m
  pub classes : (k : Text) → get k m ≡ as_group (members k cs)

with_group-Distinct : (key : Text) (m : Groups) → Distinct m → Distinct (with_group key m)
unfolding with_group
with_group-Distinct key m d = elim (Bool-cases (has key m)) [
  | inl h ↦ rw h d
  | inr h ↦ rw h (set-Distinct key [] m d)
]

push_to-Distinct :
    (key : Text) (c : ContainerInfo) (m : Groups) → Distinct m → Distinct (push_to key c m)
push_to-Distinct key c m d = elim (Option-cases (get key m)) [
  | inl q ↦ rw (push_to-none key c m q) d
  | inr (items, q) ↦ rw (push_to-some key c items m q) (set-Distinct key (items ++ c ∷ []) m d)
]

add_to_group-Distinct : (c : ContainerInfo) (m : Groups) → Distinct m → Distinct (add_to_group m c)
unfolding add_to_group
add_to_group-Distinct c m d =
    push_to-Distinct (group_key c) c (with_group (group_key c) m)
      (with_group-Distinct (group_key c) m d)

add_to_group-Grouped :
    (cs : List ContainerInfo) (c : ContainerInfo) (m : Groups)
    → Grouped cs m
    → Grouped (cs ++ c ∷ []) (add_to_group m c)
add_to_group-Grouped cs c m g = record {
  distinct = add_to_group-Distinct c m g.distinct;
  classes = λ k. get-add_to_group k c m ∙ class k;
}
  where
    class :
        (k : Text)
        → (if text_eq (group_key c) k
            then some (or_null (get (group_key c) m) [] ++ c ∷ [])
            else get k m)
          ≡ as_group (members k (cs ++ c ∷ []))
    class k = elim (Bool-cases (text_eq (group_key c) k)) [
      | inl e ↦
          let same = (text_eq_iff (group_key c) k).0 e in
          let held : or_null (get (group_key c) m) [] ≡ members k cs =
            ap (λ o. or_null o []) (g.classes (group_key c))
            ∙ as_group-or_null (members (group_key c) cs)
            ∙ ap (λ j. members j cs) same in
          let more : members k (cs ++ c ∷ []) ≡ members k cs ++ c ∷ [] =
            members-append k cs (c ∷ []) ∙ (rw e refl) in
          rw (e, held, more) (sym (as_group-append (members k cs) c))
      | inr e ↦
          let more : members k (cs ++ c ∷ []) ≡ members k cs =
            members-append k cs (c ∷ []) ∙ (rw e (append-nil (members k cs))) in
          rw (e, more) (g.classes k)
    ]

pub collect_groups-Grouped :
    (done cs : List ContainerInfo) (m : Groups)
    → Grouped done m
    → Grouped (done ++ cs) (collect_groups m cs)
unfolding collect_groups
collect_groups-Grouped done [] m g = rw (append-nil done) g
collect_groups-Grouped done (c ∷ cs) m g = rw (sym (append_assoc done (c ∷ []) cs)) (
    collect_groups-Grouped (done ++ c ∷ []) cs (add_to_group m c) (add_to_group-Grouped done c m g))
