-- ===== src/Dashboard.antt =====
-- The view state of the dashboard in the address of the page:
-- frontend/src/features/containers/hooks/use-containers-dashboard-url-state.ts.
pub mod Rows
pub mod Counts
pub mod Paging
mod Tests
use logdeck.Base.{ℕ, max, Option, none, some, []}
use logdeck.Base.Text.{Text, codes, ◌or_else◌}

pub data SortDirection : Type 0 where
  asc desc : SortDirection

pub data GroupByOption : Type 0 where
  ungrouped compose : GroupByOption

-- A date is its time in milliseconds.
pub record DateRange : Type 0 where
  pub from : Option ℕ
  pub to : Option ℕ

-- The parameters of the address, with their defaults where it has none.
pub record DashboardParams : Type 0 where
  pub search_term : Text
  pub state_filter : Text
  pub host_filter : Text
  pub sort_direction : SortDirection
  pub group_by : GroupByOption
  pub page : ℕ
  pub page_size : ℕ
  pub from : Option ℕ
  pub to : Option ℕ

abbrev pub default_params : DashboardParams
default_params = record {
  search_term = [];
  state_filter = codes "all";
  host_filter = codes "all";
  sort_direction = desc;
  group_by = ungrouped;
  page = 1;
  page_size = 10;
  from = none;
  to = none;
}

unfoldable pub date_range : DashboardParams → Option DateRange
date_range p = elim p.from [
  | some t ↦ some (record { from = some t; to = p.to })
  | none ↦ elim p.to [ none ↦ none | some t ↦ some (record { from = none; to = some t }) ]
]

unfoldable pub set_search_term : Text → DashboardParams → DashboardParams
set_search_term value p = record p { search_term = value; page = 1 }

unfoldable pub set_state_filter : Text → DashboardParams → DashboardParams
set_state_filter value p = record p { state_filter = value or_else codes "all"; page = 1 }

unfoldable pub set_host_filter : Text → DashboardParams → DashboardParams
set_host_filter value p = record p { host_filter = value or_else codes "all"; page = 1 }

unfoldable pub set_sort_direction : SortDirection → DashboardParams → DashboardParams
set_sort_direction value p = record p { sort_direction = value }

unfoldable pub set_group_by : GroupByOption → DashboardParams → DashboardParams
set_group_by value p = record p { group_by = value; page = 1 }

-- `range?.from ?? null`
unfoldable pub set_date_range : Option DateRange → DashboardParams → DashboardParams
set_date_range none p = record p { from = none; to = none; page = 1 }
set_date_range (some range) p = record p { from = range.from; to = range.to; page = 1 }

unfoldable pub clear_date_range : DashboardParams → DashboardParams
clear_date_range p = record p { from = none; to = none; page = 1 }

unfoldable pub set_page : ℕ → DashboardParams → DashboardParams
set_page value p = record p { page = max 1 value }

unfoldable pub set_page_size : ℕ → DashboardParams → DashboardParams
set_page_size value p = record p { page_size = max 1 value; page = 1 }
