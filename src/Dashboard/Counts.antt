-- ===== src/Dashboard/Counts.antt =====
-- The counts of the state filter against the rows that the filter leaves.
use logdeck.Base.{
  ℕ, suc, All, Bool, true, false, ◌&&◌, ◌≡◌, refl, sym, ap, ◌∙◌, List, [], ◌∷◌, map, filter, length,
  arith, Bool-cases, inl, inr,
}
use logdeck.Base.Sorting.{length-stable_sort}
use logdeck.Base.Text.{Text, codes, text_eq, text_eq_iff}
use logdeck.Containers.{
  ContainerInfo, RemovedContainerInfo, StoredContainer, removed_state, infos, to_removed_container,
  select_visible_containers, synthesize_removed_containers,
}
use logdeck.Containers.Removed.{to_removed_container_lem}
use logdeck.Containers.Counts.{in_state, matching_removed, count_container_states_lem}
use logdeck.Dashboard.{DashboardParams, set_state_filter}
use logdeck.Dashboard.Rows.{matches_filters, compare_created, filtered_containers, state_counts}

filter-same :
    {A : Type 0} (f g : A → Bool)
    → ((x : A) → f x ≡ g x)
    → (xs : List A) → filter f xs ≡ filter g xs
filter-same f g same [] = refl
filter-same f g same (x ∷ xs) = rw (same x, filter-same f g same xs) refl

filter-infos :
    (f g : ContainerInfo → Bool) (rs : List RemovedContainerInfo)
    → All (λ (r : RemovedContainerInfo). f r.info ≡ g r.info) rs
    → length (filter f (infos rs)) ≡ length (filter (λ (r : RemovedContainerInfo). g r.info) rs)
filter-infos f g [] h = refl
filter-infos f g (r ∷ rs) h = elim (Bool-cases (g r.info)) [
  | inl e ↦ rw (h.0, e) (ap suc (filter-infos f g rs h.1))
  | inr e ↦ rw (h.0, e) (filter-infos f g rs h.1)
]

module _ (lower : Text → Text) (p : DashboardParams) where
  -- How many rows there are with this state chosen in the filter.
  abbrev pub rows_in : Text → List ContainerInfo → List RemovedContainerInfo → ℕ
  rows_in state live removed =
      length (filtered_containers lower (set_state_filter state p) live removed)

  -- Choosing a state changes what is matched only by the state.
  record Named (state : Text) : Type 0 where
    matched :
        (c : ContainerInfo)
        → matches_filters lower (set_state_filter state p) true c
          ≡ (matches_filters lower p false c && text_eq (lower c.state) state)
    kept :
        (live : List ContainerInfo) (removed : List RemovedContainerInfo)
        → select_visible_containers live removed (set_state_filter state p).state_filter ≡ live

  rows_in-Named :
      (state : Text) (live : List ContainerInfo) (removed : List RemovedContainerInfo)
      → Named state
      → rows_in state live removed ≡ in_state lower (matches_filters lower p false) state live
  unfolding filtered_containers set_state_filter
  rows_in-Named state live removed n =
      length-stable_sort (compare_created p.sort_direction) _
      ∙ ap (λ rows. length (filter (matches_filters lower (set_state_filter state p) true) rows))
          (n.kept live removed)
      ∙ ap length (filter-same _ _ n.matched live)

  Named-running : Named (codes "running")
  unfolding matches_filters set_state_filter select_visible_containers
  Named-running = record { matched = λ c. ground arith; kept = λ live removed. refl }

  Named-exited : Named (codes "exited")
  unfolding matches_filters set_state_filter select_visible_containers
  Named-exited = record { matched = λ c. ground arith; kept = λ live removed. refl }

  Named-paused : Named (codes "paused")
  unfolding matches_filters set_state_filter select_visible_containers
  Named-paused = record { matched = λ c. ground arith; kept = λ live removed. refl }

  Named-restarting : Named (codes "restarting")
  unfolding matches_filters set_state_filter select_visible_containers
  Named-restarting = record { matched = λ c. ground arith; kept = λ live removed. refl }

  Named-dead : Named (codes "dead")
  unfolding matches_filters set_state_filter select_visible_containers
  Named-dead = record { matched = λ c. ground arith; kept = λ live removed. refl }

  -- A removed row is in the removed state, whose name is in lower case.
  removed_matches :
      (rs : List RemovedContainerInfo)
      → lower removed_state ≡ removed_state
      → All (λ (r : RemovedContainerInfo). r.info.state ≡ removed_state) rs
      → All
          (λ (r : RemovedContainerInfo).
            matches_filters lower (set_state_filter removed_state p) true r.info
            ≡ matches_filters lower p false r.info)
          rs
  unfolding matches_filters set_state_filter
  removed_matches [] low h = tt
  removed_matches (r ∷ rs) low h =
      let state : text_eq (lower r.info.state) removed_state ≡ true =
        (text_eq_iff (lower r.info.state) removed_state).1 (ap lower h.0 ∙ low) in
      (rw state (ground arith), removed_matches rs low h.1)

  rows_in-removed :
      (live : List ContainerInfo) (rs : List RemovedContainerInfo)
      → lower removed_state ≡ removed_state
      → All (λ (r : RemovedContainerInfo). r.info.state ≡ removed_state) rs
      → rows_in removed_state live rs ≡ matching_removed lower (matches_filters lower p false) rs
  unfolding filtered_containers set_state_filter select_visible_containers
  rows_in-removed live rs low h =
      length-stable_sort (compare_created p.sort_direction) _
      ∙ filter-infos (matches_filters lower (set_state_filter removed_state p) true) _ rs
          (removed_matches rs low h)

removed_rows :
    (to_unix_seconds : Text → ℕ) (es : List StoredContainer)
    → All
        (λ (r : RemovedContainerInfo). r.info.state ≡ removed_state)
        (map (to_removed_container to_unix_seconds) es)
removed_rows to_unix_seconds [] = tt
removed_rows to_unix_seconds (e ∷ es) =
    ((to_removed_container_lem to_unix_seconds e).0, removed_rows to_unix_seconds es)

-- The count beside each state of the filter is the number of rows that the dashboard has with that
-- state chosen, the search, host and dates being what they are: also for the removed containers, of
-- which there are those of the stored logs. The text "removed" must be in lower case for the platform.
pub state_counts-filtered_containers :
    (lower : Text → Text) (to_unix_seconds : Text → ℕ)
    → lower removed_state ≡ removed_state
    → (p : DashboardParams) (live : List ContainerInfo) (stored : List StoredContainer)
    → let removed = synthesize_removed_containers to_unix_seconds stored live in
      let n = state_counts lower p live removed in
      (n.running ≡ rows_in lower p (codes "running") live removed)
      × (n.exited ≡ rows_in lower p (codes "exited") live removed)
      × (n.paused ≡ rows_in lower p (codes "paused") live removed)
      × (n.restarting ≡ rows_in lower p (codes "restarting") live removed)
      × (n.dead ≡ rows_in lower p (codes "dead") live removed)
      × (n.removed ≡ rows_in lower p removed_state live removed)
unfolding state_counts synthesize_removed_containers
state_counts-filtered_containers lower to_unix_seconds low p live stored =
    let removed = synthesize_removed_containers to_unix_seconds stored live in
    let counts = count_container_states_lem lower (matches_filters lower p false) live removed in
    (
      counts.0 ∙ sym (rows_in-Named lower p (codes "running") live removed (Named-running lower p)),
      counts.1 ∙ sym (rows_in-Named lower p (codes "exited") live removed (Named-exited lower p)),
      counts.2 ∙ sym (rows_in-Named lower p (codes "paused") live removed (Named-paused lower p)),
      counts.3
          ∙ sym
              (rows_in-Named lower p (codes "restarting") live removed (Named-restarting lower p)),
      counts.4 ∙ sym (rows_in-Named lower p (codes "dead") live removed (Named-dead lower p)),
      counts.5 ∙ sym (rows_in-removed lower p live removed low (removed_rows to_unix_seconds _)),
    )
