-- ===== src/Dashboard/Tests.antt =====
-- Three rows on pages of two, and the theorems about them applied.
use logdeck.Base.{
  ◌+◌, ◌&&◌, leb, if◌then◌else◌, ◌≤◌, min, true, false, ◌≡◌, refl, none, some, List, [], ◌∷◌, map,
  arith,
}
use logdeck.Base.Text.{Text, codes}
use logdeck.Containers.{
  ContainerInfo, StoredContainer, removed_state, synthesize_removed_containers,
}
use logdeck.Dashboard.{DashboardParams, default_params}
use logdeck.Dashboard.Rows.{total_pages, correct_page, state_counts}
use logdeck.Dashboard.Counts.{rows_in, state_counts-filtered_containers}
use logdeck.Dashboard.Paging.{all_pages, Shows, correct_page-Shows}

abbrev row : Text → Text → ContainerInfo
row name state = record {
  id = name;
  names = name ∷ [];
  image = [];
  image_id = [];
  command = [];
  created = 0;
  state = state;
  status = [];
  health = none;
  labels = none;
  host = codes "local";
}

abbrev rows : List ContainerInfo
rows =
    row (codes "web") (codes "Running")
    ∷ row (codes "db") (codes "exited")
    ∷ row (codes "job") (codes "exited")
    ∷ []

abbrev stored : List StoredContainer
stored =
    record {
      host = codes "local";
      name = codes "old";
      compose_project = none;
      image = none;
      stored_bytes = 10;
      oldest_ts = [];
      newest_ts = [];
      removed = true;
      excluded = false;
      excluded_reason = none;
    }
    ∷ []

-- The lower case of the letters of the alphabet.
abbrev lower : Text → Text
lower s = map (λ c. if leb 65 c && leb c 90 then c + 32 else c) s

abbrev last_page : DashboardParams
last_page = record default_params { page_size = 2; page = 7 }

pages : total_pages last_page rows ≡ some 2
unfolding total_pages
pages = refl

correct_page-Shows_example :
    (all_pages 2 last_page rows ≡ rows)
    × (correct_page rows last_page ≡ record last_page { page = min 7 2 })
    × (1 ≤ min 7 2)
    × Shows (correct_page rows last_page) rows
correct_page-Shows_example =
    correct_page-Shows last_page rows 2 pages (omega arith) (omega arith) (omega arith)

state_counts-filtered_containers_example :
    let removed = synthesize_removed_containers (λ s. 0) stored rows in
    let n = state_counts lower default_params rows removed in
    (n.running ≡ rows_in lower default_params (codes "running") rows removed)
    × (n.exited ≡ rows_in lower default_params (codes "exited") rows removed)
    × (n.paused ≡ rows_in lower default_params (codes "paused") rows removed)
    × (n.restarting ≡ rows_in lower default_params (codes "restarting") rows removed)
    × (n.dead ≡ rows_in lower default_params (codes "dead") rows removed)
    × (n.removed ≡ rows_in lower default_params removed_state rows removed)
state_counts-filtered_containers_example =
    state_counts-filtered_containers lower (λ s. 0) refl default_params rows stored
