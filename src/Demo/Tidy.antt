-- ===== src/Demo/Tidy.antt =====
-- No record of the store outlives its container.
use logdeck.Base.{
  Bool, true, false, not, ◌&&◌, ◌||◌, ◌≡◌, ◌⊎◌, refl, sym, ap, ◌∙◌, some, List, [], ◌∷◌, map, any,
  arith, Bool-cases, true-ne-false, inl, inr, nat_Key,
}
use logdeck.Base.Text.{Text, text_Key, text_eq, text_eq_iff}
use logdeck.Base.JsMap.{JsMap, has, set, delete}
use logdeck.Containers.{ContainerInfo}
use logdeck.Demo.Store.{DemoStats, DemoState, find, change_found, splice_found}
use logdeck.Demo.Containers.{has_id, rename_stats}

-- `delete` and `set` on the keys of a map.
module _ {V : Type 0} where
  pub has-set :
      (k j : Text) (v : V) (m : JsMap Text V) → has j (set k v m) ≡ (text_eq k j || has j m)
  unfolding has set
  has-set k j v [] = refl
  has-set k j v ((i, w) ∷ m) =
      ground (arith, text_eq_iff k j, text_eq_iff i k, text_eq_iff i j, has-set k j v m)

  pub has-delete :
      (k j : Text) (m : JsMap Text V) → has j (delete k m) ≡ (not (text_eq k j) && has j m)
  unfolding has delete
  has-delete k j [] = ground arith
  has-delete k j ((i, w) ∷ m) =
      ground (arith, text_eq_iff k j, text_eq_iff i k, text_eq_iff i j, has-delete k j m)

abbrev pub there : Text → List ContainerInfo → Bool
there k cs = any (has_id k) cs

module _ {V : Type 0} where
  -- Something is kept under an id.
  abbrev pub stats_hold : Text → List (DemoStats V) → Bool
  stats_hold k xs = any (λ (x : DemoStats V). text_eq x.id k) xs

  abbrev pub holds : Text → DemoState V → Bool
  holds k s = has k s.logs || has k s.env || has k s.resources || stats_hold k s.stats

  -- Whatever is kept under an id is kept for a container that has it.
  abbrev pub IsTidy : DemoState V → Type 0
  IsTidy s = (k : Text) → holds k s ≡ true → there k s.containers ≡ true

pub there-change_found :
    (p : ContainerInfo → Bool) (f : ContainerInfo → ContainerInfo)
    → ((c : ContainerInfo) → (f c).id ≡ c.id)
    → (k : Text) (cs : List ContainerInfo) → there k (change_found p f cs) ≡ there k cs
there-change_found p f same k [] = refl
there-change_found p f same k (c ∷ cs) = elim (Bool-cases (p c)) [
  | inl e ↦ rw (e, same c) refl
  | inr e ↦ rw (e, there-change_found p f same k cs) refl
]

pub there-map :
    (f : ContainerInfo → ContainerInfo)
    → ((c : ContainerInfo) → (f c).id ≡ c.id)
    → (k : Text) (cs : List ContainerInfo) → there k (map f cs) ≡ there k cs
there-map f same k [] = refl
there-map f same k (c ∷ cs) = rw (same c, there-map f same k cs) refl

-- A key that two ids share is one id.
apart : (a b k : Text) → text_eq a b ≡ true → text_eq b k ≡ false → text_eq a k ≡ false
apart a b k e h = rw ((text_eq_iff a b).0 e) h

pub there-splice_found :
    (j k : Text) (cs : List ContainerInfo)
    → text_eq j k ≡ false
    → there k cs ≡ true
    → there k (splice_found (has_id j) cs) ≡ true
there-splice_found j k [] h t = t
there-splice_found j k (c ∷ cs) h t = elim (Bool-cases (text_eq c.id j)) [
  | inl e ↦ rw e (let other = apart c.id j k e h in ground arith)
  | inr e ↦ rw e (elim (Bool-cases (text_eq c.id k)) [
    | inl here ↦ rw here refl
    | inr not_here ↦
        let later : there k cs ≡ true = ground arith in
        rw (not_here, there-splice_found j k cs h later) refl
  ])
]

-- The container that is found gets a new id.
module _ (p : ContainerInfo → Bool) (f : ContainerInfo → ContainerInfo) (new_id : Text)
    (renamed : (c : ContainerInfo) → (f c).id ≡ new_id) where
  pub there-new_id :
      (c : ContainerInfo) (cs : List ContainerInfo)
      → find p cs ≡ some c
      → there new_id (change_found p f cs) ≡ true
  there-new_id c [] h = cc
  there-new_id c (x ∷ cs) h = elim (Bool-cases (p x)) [
    | inl e ↦
        let self : text_eq (f x).id new_id ≡ true = (text_eq_iff (f x).id new_id).1 (renamed x) in
        rw (e, self) refl
    | inr e ↦ rw (e, there-new_id c cs (rw e at h)) (ground arith)
  ]

  pub there-old_ids :
      (k : Text) (c : ContainerInfo) (cs : List ContainerInfo)
      → find p cs ≡ some c
      → text_eq c.id k ≡ false
      → there k cs ≡ true
      → there k (change_found p f cs) ≡ true
  there-old_ids k c [] h other t = cc
  there-old_ids k c (x ∷ cs) h other t = elim (Bool-cases (p x)) [
    | inl e ↦
        let same : x ≡ c = unwrap (rw e at h) in
        let not_here : text_eq x.id k ≡ false =
          ap (λ (y : ContainerInfo). text_eq y.id k) same ∙ other in
        rw e (ground arith)
    | inr e ↦ rw e (elim (Bool-cases (text_eq x.id k)) [
      | inl here ↦ rw here refl
      | inr not_here ↦
          let later : there k cs ≡ true = ground arith in
          rw (not_here, there-old_ids k c cs (rw e at h) other later) refl
    ])
  ]
    where
      unwrap : {a b : ContainerInfo} → some a ≡ some b → a ≡ b
      unwrap q = cc

-- What is kept after a change of ids: it is under the new id, or was kept under another than the old.
abbrev pub Moved : Text → Text → Text → Bool → Bool → Type 0
Moved old_id new_id k before after =
    after ≡ true → (text_eq new_id k ≡ true) ⊎ ((text_eq old_id k ≡ false) × (before ≡ true))

pub Moved-delete-set :
    {V : Type 0} (old_id new_id k : Text) (v : V) (m : JsMap Text V)
    → Moved old_id new_id k (has k m) (has k (delete old_id (set new_id v m)))
Moved-delete-set old_id new_id k v m h =
    let e = has-delete old_id k (set new_id v m) in
    let e' = has-set new_id k v m in
    elim (Bool-cases (text_eq new_id k)) [
      | inl here ↦ inl here
      | inr gone ↦ inr (ground (arith, e, e'), ground (arith, e, e'))
    ]

pub Moved-rename_stats :
    {V : Type 0} (old_id new_id k : Text) (xs : List (DemoStats V))
    → Moved old_id new_id k (stats_hold k xs) (stats_hold k (rename_stats old_id new_id xs))
unfolding rename_stats
Moved-rename_stats old_id new_id k [] h = cc
Moved-rename_stats old_id new_id k (x ∷ xs) h = elim (Bool-cases (text_eq new_id k)) [
  | inl here ↦ inl here
  | inr gone ↦ elim (Bool-cases (text_eq x.id old_id)) [
    | inl e ↦
        let later : stats_hold k (rename_stats old_id new_id xs) ≡ true = ground arith in
        elim (Moved-rename_stats old_id new_id k xs later) [
          | inl q ↦ inl q
          | inr q ↦ inr (q.0, ground arith)
        ]
    | inr e ↦ elim (Bool-cases (text_eq x.id k)) [
      | inl mine ↦ inr (other x.id e mine, rw mine refl)
      | inr theirs ↦
          let later : stats_hold k (rename_stats old_id new_id xs) ≡ true = ground arith in
          elim (Moved-rename_stats old_id new_id k xs later) [
            | inl q ↦ inl q
            | inr q ↦ inr (q.0, ground arith)
          ]
    ]
  ]
]
  where
    other : (i : Text) → text_eq i old_id ≡ false → text_eq i k ≡ true → text_eq old_id k ≡ false
    other i e mine = elim (Bool-cases (text_eq old_id k)) [
      | inr q ↦ q
      | inl q ↦
          let same : i ≡ old_id = (text_eq_iff i k).0 mine ∙ sym ((text_eq_iff old_id k).0 q) in
          absurd (true-ne-false (sym ((text_eq_iff i old_id).1 same) ∙ e))
    ]
