-- ===== src/Containers/Classes.antt =====
-- What `groupByCompose` returns.
use logdeck.Base.{
  Bool, ◌≡◌, ◌≢◌, ◌↔◌, ◌⊎◌, refl, sym, ap, ap₂, ◌∙◌, some, List, [], ◌∷◌, Bool-cases, inl, inr, In,
  In-map,
}
use mathlib.Core.Path.{subst}
use logdeck.Base.Text.{Text, text_Key}
use logdeck.Base.JsMap.{get}
use logdeck.Containers.{
  ContainerInfo, GroupedContainers, collect_groups, insert_sorted, sort_into, group_by_compose,
}
use logdeck.Containers.Groups.{Groups, members, In-get, as_group, Grouped, collect_groups-Grouped}

module _ (after : Text → Text → Bool) where
  In-insert_sorted :
      (x g : Text × List ContainerInfo) (m : Groups)
      → In x (insert_sorted after g m) ↔ ((x ≡ g) ⊎ In x m)
  unfolding insert_sorted
  In-insert_sorted x g [] = (λ h. h, λ h. h)
  In-insert_sorted x g (y ∷ ys) =
      let ih = In-insert_sorted x g ys in
      elim (Bool-cases (after y.0 g.0)) [
        | inl e ↦ rw e (λ h. h, λ h. h)
        | inr e ↦ rw e (
          λ h. elim h [
            | inl q ↦ inr (inl q)
            | inr t ↦ elim (ih.0 t) [ inl q ↦ inl q | inr i ↦ inr (inr i) ]
          ],
          λ h. elim h [
            | inl q ↦ inr (ih.1 (inl q))
            | inr t ↦ elim t [ inl q ↦ inl q | inr i ↦ inr (ih.1 (inr i)) ]
          ],
        )
      ]

  In-sort_into :
      (x : Text × List ContainerInfo) (sorted gs : Groups)
      → In x (sort_into after sorted gs) ↔ (In x sorted ⊎ In x gs)
  unfolding sort_into
  In-sort_into x sorted [] = (λ h. inl h, λ h. elim h [ inl i ↦ i | inr i ↦ absurd i ])
  In-sort_into x sorted (g ∷ gs) =
      let ih = In-sort_into x (insert_sorted after g sorted) gs in
      let here = In-insert_sorted x g sorted in
      (
        λ h. elim (ih.0 h) [
          | inl i ↦ elim (here.0 i) [ inl q ↦ inr (inl q) | inr j ↦ inl j ]
          | inr i ↦ inr (inr i)
        ],
        λ h. elim h [
          | inl i ↦ ih.1 (inl (here.1 (inr i)))
          | inr i ↦ elim i [ inl q ↦ ih.1 (inl (here.1 (inl q))) | inr j ↦ ih.1 (inr j) ]
        ],
      )

  as_group-some : (xs ys : List ContainerInfo) → (as_group xs ≡ some ys) ↔ ((ys ≡ xs) × (ys ≢ []))
  unfolding as_group
  as_group-some [] ys = (λ h. cc, λ h. absurd (h.1 h.0))
  as_group-some (x ∷ xs) ys = (λ h. (unwrap h, λ e. nonempty (unwrap h) e), λ h. ap some (sym h.0))
    where
      unwrap : some (x ∷ xs) ≡ some ys → ys ≡ x ∷ xs
      unwrap q = cc

      nonempty : ys ≡ x ∷ xs → ys ≡ [] → ⊥
      nonempty q e = cc

  group_path :
      (g : GroupedContainers) (p : Text × List ContainerInfo)
      → g ≡ record { project = p.0; items = p.1 }
      → p ≡ (g.project, g.items)
  group_path g p q =
      ap₂ (λ a b. (a, b)) (ap (λ (x : GroupedContainers). x.project) (sym q))
        (ap (λ (x : GroupedContainers). x.items) (sym q))

  -- The groups are exactly the classes of the rows by project that are not empty: each holds all rows
  -- of its project, in their order, and no other row.
  pub In-group_by_compose :
      (cs : List ContainerInfo) (g : GroupedContainers)
      → In g (group_by_compose after cs) ↔ ((g.items ≡ members g.project cs) × (g.items ≢ []))
  unfolding group_by_compose get as_group
  In-group_by_compose cs g =
      let m = collect_groups [] cs in
      let start : Grouped [] [] = record { distinct = tt; classes = λ k. refl } in
      let done = collect_groups-Grouped [] cs [] start in
      let entry = In-get g.project g.items m done.distinct in
      let class = as_group-some (members g.project cs) g.items in
      let mapped =
        In-map (λ (p : Text × List ContainerInfo). record { project = p.0; items = p.1 }) g
          (sort_into after [] m) in
      (
        λ h.
            let (p, i, q) = mapped.0 h in
            let same = group_path g p q in
            elim ((In-sort_into p [] m).0 i) [
              | inl none_there ↦ absurd none_there
              | inr there ↦
                  class.0 (sym (done.classes g.project) ∙ entry.0 (subst (λ x. In x m) same there))
            ],
        λ h. mapped.1 (
          (g.project, g.items),
          (In-sort_into (g.project, g.items) [] m).1
              (inr (entry.1 (done.classes g.project ∙ class.1 h))),
          refl,
        ),
      )
