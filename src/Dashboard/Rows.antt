-- ===== src/Dashboard/Rows.antt =====
-- The rows of the dashboard, filtered, sorted and cut into pages:
-- frontend/src/features/containers/components/containers-dashboard.tsx.
use logdeck.Base.{
  ℕ, ◌+◌, ◌-◌, ◌*◌, ◌/◌, zero, suc, min, Bool, true, false, not, ◌&&◌, ◌||◌, Option, none, some,
  List, [], any, filter, length, take, drop, ltb, leb, nat_eq, if◌then◌else◌,
}
use logdeck.Base.Int.{ℤ, pos, sub_ℕ}
use logdeck.Base.Sorting.{Compared, before, same, after, stable_sort}
use logdeck.Base.Text.{Text, codes, text_eq, truthy, starts_with, includes, trim}
use logdeck.Containers.{
  ContainerInfo, RemovedContainerInfo, StateCounts, select_visible_containers,
  count_container_states,
}
use logdeck.Dashboard.{SortDirection, asc, desc, DateRange, DashboardParams, date_range, set_page}

abbrev in_range : DateRange → ℕ → Bool
in_range range date = elim range.from [
  | none ↦ elim range.to [ none ↦ false | some to ↦ leb date to ]
  | some from ↦ elim range.to [ none ↦ leb from date | some to ↦ leb from date && leb date to ]
]

unfoldable pub matches_dates : DashboardParams → ContainerInfo → Bool
unfolding date_range
matches_dates p c = elim (date_range p) [
  | none ↦ true
  | some range ↦ in_range range (c.created * 1000)
]

unfoldable pub matches_host : DashboardParams → ContainerInfo → Bool
matches_host p c = text_eq p.host_filter (codes "all") || text_eq c.host p.host_filter

unfoldable pub compare_created : SortDirection → ContainerInfo → ContainerInfo → Compared
compare_created asc a b =
    if ltb a.created b.created then before else if ltb b.created a.created then after else same
compare_created desc a b =
    if ltb b.created a.created then before else if ltb a.created b.created then after else same

module _ (to_lower_case : Text → Text) where
  unfoldable pub matches_search : DashboardParams → ContainerInfo → Bool
  matches_search p c =
      let search = to_lower_case (trim p.search_term) in
      not (truthy search)
      || starts_with (to_lower_case c.id) search
      || includes (to_lower_case c.image) search
      || any (λ name. includes (to_lower_case name) search) c.names

  abbrev matches_state : DashboardParams → ContainerInfo → Bool
  matches_state p c =
      text_eq p.state_filter (codes "all") || text_eq (to_lower_case c.state) p.state_filter

  unfoldable pub matches_filters :
      DashboardParams → (include_state_filter : Bool) → ContainerInfo → Bool
  unfolding matches_search matches_host matches_dates
  matches_filters p include_state_filter c =
      matches_search p c
      && matches_host p c
      && matches_dates p c
      && (if include_state_filter then matches_state p c else true)

  unfoldable pub filtered_containers :
      DashboardParams → List ContainerInfo → List RemovedContainerInfo → List ContainerInfo
  unfolding matches_filters compare_created select_visible_containers
  filtered_containers p live removed =
      stable_sort (compare_created p.sort_direction)
        (filter (matches_filters p true) (select_visible_containers live removed p.state_filter))

  unfoldable pub state_counts :
      DashboardParams → List ContainerInfo → List RemovedContainerInfo → StateCounts
  unfolding matches_filters count_container_states
  state_counts p live removed =
      count_container_states to_lower_case (matches_filters p false) live removed

-- `Math.ceil(length / pageSize)`; `none` is Infinity, at a page size of 0 in the address.
unfoldable pub total_pages : DashboardParams → List ContainerInfo → Option ℕ
total_pages p rows =
    if nat_eq (length rows) 0
    then some 1
    else if nat_eq p.page_size 0
    then none
    else some ((length rows + p.page_size - 1) / p.page_size)

-- The effect that leads back to the last page.
unfoldable pub correct_page : List ContainerInfo → DashboardParams → DashboardParams
unfolding total_pages set_page
correct_page rows p = elim (total_pages p rows) [
  | none ↦ p
  | some total ↦ if ltb total p.page then set_page total p else p
]

-- `(page - 1) * pageSize + 1`
unfoldable pub start_index : DashboardParams → List ContainerInfo → ℤ
start_index p rows =
    if nat_eq (length rows) 0 then pos 0 else sub_ℕ (p.page * p.page_size + 1) p.page_size

unfoldable pub end_index : DashboardParams → List ContainerInfo → ℕ
end_index p rows = if nat_eq (length rows) 0 then 0 else min (p.page * p.page_size) (length rows)

-- The slice of a page. At page 0 in the address it is `slice(-pageSize, 0)`, which is empty.
unfoldable pub page_items : DashboardParams → List ContainerInfo → List ContainerInfo
page_items p rows = elim p.page [
  | zero ↦ []
  | suc k ↦ take p.page_size (drop (k * p.page_size) rows)
]
