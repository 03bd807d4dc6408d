-- ===== src/Containers/Tests.antt =====
-- Rows of two projects on two hosts, and the theorems about them applied.
use logdeck.Base.{ℕ, Bool, true, false, ◌≡◌, ◌≢◌, ◌↔◌, refl, Option, none, some, List, [], ◌∷◌, In}
use logdeck.Base.Text.{Text, text_Key, codes, trim}
use logdeck.Base.JsMap.{get}
use logdeck.Containers.{
  ContainerInfo, StoredContainer, group_by_compose, group_key, synthesize_removed_containers,
  to_removed_container,
}
use logdeck.Containers.Groups.{members}
use logdeck.Containers.Classes.{In-group_by_compose}
use logdeck.Containers.Removed.{IsGone, In-synthesize_removed_containers}

abbrev row : Text → Text → Option Text → ContainerInfo
row name state project = record {
  id = name;
  names = name ∷ [];
  image = [];
  image_id = [];
  command = [];
  created = 0;
  state = state;
  status = [];
  health = none;
  labels = elim project [
    | none ↦ none
    | some p ↦ some ((codes "com.docker.compose.project", p) ∷ [])
  ];
  host = codes "local";
}

abbrev web : ContainerInfo
web = row (codes "/web") (codes "running") (some (codes " shop "))

abbrev db : ContainerInfo
db = row (codes "/db") (codes "created") (some (codes "shop"))

abbrev lone : ContainerInfo
lone = row (codes "/lone") (codes "exited") none

abbrev rows : List ContainerInfo
rows = web ∷ lone ∷ db ∷ []

abbrev stored : StoredContainer
stored = record {
  host = codes "local";
  name = codes "/job";
  compose_project = some (codes "shop");
  image = none;
  stored_bytes = 10;
  oldest_ts = [];
  newest_ts = [];
  removed = true;
  excluded = false;
  excluded_reason = none;
}

abbrev seconds : Text → ℕ
seconds t = 0

abbrev lower : Text → Text
lower s = s

abbrev everything : ContainerInfo → Bool
everything c = true

abbrev never : Text → Text → Bool
never a b = false

shop_rows : members (codes "shop") rows ≡ web ∷ db ∷ []
unfolding group_key get trim
shop_rows = refl

In-group_by_compose_example :
    In (record { project = codes "shop"; items = web ∷ db ∷ [] }) (group_by_compose never rows)
    ↔ ((web ∷ db ∷ [] ≡ members (codes "shop") rows) × (web ∷ db ∷ [] ≢ []))
In-group_by_compose_example =
    In-group_by_compose never rows (record { project = codes "shop"; items = web ∷ db ∷ [] })

In-synthesize_removed_containers_example :
    In
      (to_removed_container seconds stored)
      (synthesize_removed_containers seconds (stored ∷ []) rows)
    ↔ ((e : StoredContainer) × In e (stored ∷ [])
        × (e.removed ≡ true)
        × (e.excluded ≡ false)
        × IsGone rows e
        × (to_removed_container seconds stored ≡ to_removed_container seconds e))
In-synthesize_removed_containers_example =
    In-synthesize_removed_containers seconds (stored ∷ []) rows
      (to_removed_container seconds stored) refl refl
