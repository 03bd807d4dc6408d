-- ===== src/Demo/Kept.antt =====
-- Each change of the store leaves it tidy.
use logdeck.Base.{
  ℕ, ◌+◌, Bool, true, false, not, ◌||◌, ◌≡◌, refl, sym, ap, ◌∙◌, none, some, List, [], ◌∷◌, filter,
  arith, Bool-cases, Option-cases, inl, inr, true-ne-false,
}
use mathlib.Core.Path.{subst}
use logdeck.Base.Text.{Text, text_Key, text_eq, text_eq_iff}
use logdeck.Base.JsMap.{JsMap, get, has, set, delete, has_iff}
use logdeck.LogEntries.{LogEntry}
use logdeck.Containers.{ContainerInfo}
use logdeck.Demo.Store.{
  ContainerResourcesRecord, DemoStats, DemoState, find, is_record_of, stored_record_for, allocate,
  change_found, answers_to, get_container_by_id, append_live, append_stored, push_and_slice,
  logs_array, emit_container_event,
}
use logdeck.Demo.Containers.{
  recreated, act, remove_found, emit_all, move_logs, move_resources, rename_stats, recreate,
}
use logdeck.Demo.Tidy.{
  has-set, has-delete, there, stats_hold, holds, IsTidy, there-change_found, there-splice_found,
  there-new_id, there-old_ids, Moved, Moved-delete-set, Moved-rename_stats,
}

pub there-found :
    (p : ContainerInfo → Bool) (c : ContainerInfo) (cs : List ContainerInfo)
    → find p cs ≡ some c
    → there c.id cs ≡ true
there-found p c [] h = cc
there-found p c (x ∷ xs) h = elim (Bool-cases (p x)) [
  | inl e ↦
      let q : some x ≡ some c = rw e at h in
      let same : x ≡ c = cc in rw same (rw ((text_eq_iff c.id c.id).1 refl) refl)
  | inr e ↦ let later = there-found p c xs (rw e at h) in ground arith
]

pub stats_hold-filter :
    {V : Type 0} (j k : Text) (xs : List (DemoStats V))
    → stats_hold k (filter (λ (x : DemoStats V). not (text_eq x.id j)) xs) ≡ true
    → (text_eq j k ≡ false) × (stats_hold k xs ≡ true)
stats_hold-filter j k [] h = cc
stats_hold-filter j k (x ∷ xs) h =
    ground
      (arith, stats_hold-filter j k xs, text_eq_iff x.id j, text_eq_iff x.id k, text_eq_iff j k)

Moved-or :
    (old_id new_id k : Text) (b a b' a' : Bool)
    → Moved old_id new_id k b a
    → Moved old_id new_id k b' a'
    → Moved old_id new_id k (b || b') (a || a')
Moved-or old_id new_id k b true b' a' m m' h = elim (m refl) [
  | inl q ↦ inl q
  | inr q ↦ inr (q.0, ground (arith, q.1))
]
Moved-or old_id new_id k b false b' a' m m' h = elim (m' h) [
  | inl q ↦ inl q
  | inr q ↦ inr (q.0, ground (arith, q.1))
]

module _ {V : Type 0} where
  pub IsTidy-act :
      (f : ContainerInfo → ContainerInfo) (action verb id : Text) (now : ℕ) (s : DemoState V)
      → ((c : ContainerInfo) → (f c).id ≡ c.id)
      → IsTidy s
      → IsTidy (act f action verb id now s).1
  unfolding act get_container_by_id emit_container_event
  IsTidy-act f action verb id now s same tidy =
      elim (Option-cases (find (answers_to id) s.containers)) [
        | inl e ↦ rw (e, act) tidy
        | inr (c, e) ↦
            rw (e, act) (λ k h. there-change_found (answers_to id) f same k s.containers ∙ tidy k h)
      ]

  pub IsTidy-remove_found :
      (c : ContainerInfo) (now : ℕ) (s : DemoState V) → IsTidy s → IsTidy (remove_found c now s)
  unfolding remove_found emit_container_event
  IsTidy-remove_found c now s tidy k h =
      let l = has-delete c.id k s.logs in
      let e = has-delete c.id k s.env in
      let r = has-delete c.id k s.resources in
      let other : text_eq c.id k ≡ false =
        ground (arith, l, e, r, stats_hold-filter c.id k s.stats) in
      let before : holds k s ≡ true = ground (arith, l, e, r, stats_hold-filter c.id k s.stats) in
      there-splice_found c.id k s.containers other (tidy k before)

  pub IsTidy-emit_all :
      (cs : List ContainerInfo) (action : Text) (now : ℕ) (s : DemoState V)
      → IsTidy s
      → IsTidy (emit_all cs action now s)
  unfolding emit_all emit_container_event
  IsTidy-emit_all [] action now s tidy = tidy
  IsTidy-emit_all (c ∷ cs) action now s tidy =
      IsTidy-emit_all cs action now (emit_container_event c action now s) tidy

  pub IsTidy-append_stored :
      (c : ContainerInfo) (e : LogEntry) (s : DemoState V) → IsTidy s → IsTidy (append_stored c e s)
  unfolding append_stored push_and_slice stored_record_for
  IsTidy-append_stored c e s tidy = elim (Option-cases (find (is_record_of c) s.stored)) [
    | inl q ↦ rw (q, append_stored) tidy
    | inr (r, q) ↦ rw (q, append_stored) tidy
  ]

  logs_array-none :
      (k : Text) (s : DemoState V) → get k s.logs ≡ none → logs_array k s ≡ allocate [] s
  unfolding logs_array
  logs_array-none k s h = rw (h, logs_array) refl

  logs_array-some :
      (k : Text) (a : ℕ) (s : DemoState V) → get k s.logs ≡ some a → logs_array k s ≡ (a, s)
  unfolding logs_array
  logs_array-some k a s h = rw (h, logs_array) refl

  -- A map of which one key was set.
  set_logs :
      (j : Text) (a : ℕ) (s : DemoState V)
      → there j s.containers ≡ true
      → IsTidy s
      → IsTidy (record s { logs = set j a s.logs })
  set_logs j a s here tidy k h = elim (Bool-cases (text_eq j k)) [
    | inl q ↦ rw ((text_eq_iff j k).0 q) at here
    | inr q ↦ tidy k (ground (arith, has-set j k a s.logs))
  ]

  pub set_resources :
      (j : Text) (r : ContainerResourcesRecord) (s : DemoState V)
      → there j s.containers ≡ true
      → IsTidy s
      → IsTidy (record s { resources = set j r s.resources })
  set_resources j r s here tidy k h = elim (Bool-cases (text_eq j k)) [
    | inl q ↦ rw ((text_eq_iff j k).0 q) at here
    | inr q ↦ tidy k (ground (arith, has-set j k r s.resources))
  ]

  pub IsTidy-append_live :
      (c : ContainerInfo) (e : LogEntry) (s : DemoState V)
      → there c.id s.containers ≡ true
      → IsTidy s
      → IsTidy (append_live c e s)
  unfolding append_live push_and_slice
  IsTidy-append_live c e s here tidy = elim (Option-cases (get c.id s.logs)) [
    | inl g ↦ rw (logs_array-none c.id s g) (set_logs c.id (s.next_array + 1) s here tidy)
    | inr (a, g) ↦ rw (logs_array-some c.id a s g) (set_logs c.id s.next_array s here tidy)
  ]

  Moved-move_logs :
      (old_id new_id k : Text) (s : DemoState V)
      → Moved old_id new_id k (has k s.logs) (has k (move_logs old_id new_id s).logs)
  unfolding move_logs
  Moved-move_logs old_id new_id k s = elim (Option-cases (get old_id s.logs)) [
    | inl g ↦ rw (g, move_logs) (Moved-delete-set old_id new_id k s.next_array s.logs)
    | inr (a, g) ↦ rw (g, move_logs) (Moved-delete-set old_id new_id k a s.logs)
  ]

  Moved-move_resources :
      (old_id new_id k : Text) (s : DemoState V)
      → Moved old_id new_id k (has k s.resources) (has k (move_resources old_id new_id s).resources)
  unfolding move_resources
  Moved-move_resources old_id new_id k s = elim (Option-cases (get old_id s.resources)) [
    | inr (r, g) ↦ rw (g, move_resources) (Moved-delete-set old_id new_id k r s.resources)
    | inl g ↦ rw (g, move_resources) (λ h. inr (apart g h, h))
  ]
    where
      apart : get old_id s.resources ≡ none → has k s.resources ≡ true → text_eq old_id k ≡ false
      apart g h = elim (Bool-cases (text_eq old_id k)) [
        | inr q ↦ q
        | inl q ↦
            let gone = (has_iff old_id s.resources).1 g in
            absurd (
              true-ne-false
                (sym h ∙ ap (λ j. has j s.resources) (sym ((text_eq_iff old_id k).0 q)) ∙ gone))
      ]

  move_logs-rest :
      (old_id new_id : Text) (s : DemoState V)
      → let t = move_logs old_id new_id s in
        (t.containers ≡ s.containers)
        × (t.env ≡ s.env)
        × (t.resources ≡ s.resources)
        × (t.stats ≡ s.stats)
  unfolding move_logs allocate
  move_logs-rest old_id new_id s = elim (Option-cases (get old_id s.logs)) [
    | inl g ↦ rw (g, move_logs) (refl, refl, refl, refl)
    | inr (a, g) ↦ rw (g, move_logs) (refl, refl, refl, refl)
  ]

  move_resources-rest :
      (old_id new_id : Text) (s : DemoState V)
      → let t = move_resources old_id new_id s in
        (t.containers ≡ s.containers) × (t.env ≡ s.env) × (t.logs ≡ s.logs) × (t.stats ≡ s.stats)
  unfolding move_resources
  move_resources-rest old_id new_id s = elim (Option-cases (get old_id s.resources)) [
    | inl g ↦ rw (g, move_resources) (refl, refl, refl, refl)
    | inr (a, g) ↦ rw (g, move_resources) (refl, refl, refl, refl)
  ]

  pub IsTidy-recreate :
      (id : Text) (c : ContainerInfo) (new_id : Text) (env : JsMap Text Text) (now : ℕ)
      (s : DemoState V)
      → find (answers_to id) s.containers ≡ some c
      → IsTidy s
      → IsTidy (recreate id c new_id env now s)
  unfolding recreate recreated emit_container_event
  IsTidy-recreate id c new_id env now s found tidy k h =
      let f = recreated new_id now in
      let s₁ = record s {
        containers = change_found (answers_to id) f s.containers;
        env = delete c.id (set new_id env s.env);
      } in
      let s₂ = move_logs c.id new_id s₁ in
      let s₃ = move_resources c.id new_id s₂ in
      let a = move_logs-rest c.id new_id s₁ in
      let b = move_resources-rest c.id new_id s₂ in
      let logs : Moved c.id new_id k (has k s.logs) (has k s₃.logs) =
        rw b.2 (Moved-move_logs c.id new_id k s₁) in
      let envs : Moved c.id new_id k (has k s.env) (has k s₃.env) =
        rw (b.1, a.1) (Moved-delete-set c.id new_id k env s.env) in
      let resources : Moved c.id new_id k (has k s.resources) (has k s₃.resources) =
        subst (λ m. Moved c.id new_id k (has k m) (has k s₃.resources)) a.2
          (Moved-move_resources c.id new_id k s₂) in
      let stats : Moved c.id new_id k (stats_hold k s.stats)
          (stats_hold k (rename_stats c.id new_id s₃.stats)) =
        rw (b.3, a.3) (Moved-rename_stats c.id new_id k s.stats) in
      let moved =
        Moved-or c.id new_id k _ _ _ _
          (Moved-or c.id new_id k _ _ _ _ (Moved-or c.id new_id k _ _ _ _ logs envs) resources)
          stats in
      rw (b.0, a.0)
        (elim (moved h) [
          | inl q ↦
              subst (λ j. there j (change_found (answers_to id) f s.containers) ≡ true)
                ((text_eq_iff new_id k).0 q)
                (there-new_id (answers_to id) f new_id (λ x. refl) c s.containers found)
          | inr q ↦
              there-old_ids (answers_to id) f new_id (λ x. refl) k c s.containers found q.0
                (tidy k q.1)
        ])
