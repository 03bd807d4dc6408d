-- ===== src/Containers.antt =====
-- frontend/src/features/containers/components/container-utils.ts: rows of the dashboard, live and
-- removed, their names, compose projects and counts by state.
pub mod Groups
pub mod Classes
pub mod Removed
pub mod Counts
mod Tests
use logdeck.Base.{
  ℕ, ◌+◌, Bool, false, not, ◌&&◌, Option, none, some, List, [], ◌∷◌, ◌++◌, map, any, filter, take,
  if◌then◌else◌,
}
use logdeck.Base.Text.{Text, text_Key, codes, text_eq, truthy, ◌or_else◌, starts_with, trim}
use logdeck.Base.JsMap.{JsMap, get, has, set}
use logdeck.LogEntries.{or_null}

pub record ContainerInfo : Type 0 where
  pub id : Text
  pub names : List Text
  pub image : Text
  pub image_id : Text
  pub command : Text
  pub created : ℕ
  pub state : Text
  pub status : Text
  pub health : Option Text
  pub labels : Option (JsMap Text Text)
  pub host : Text

-- `RemovedContainerInfo extends ContainerInfo`: `info` is the part that it extends.
pub record RemovedContainerInfo : Type 0 where
  pub info : ContainerInfo
  pub stored_bytes : ℕ
  pub oldest_ts : Text
  pub newest_ts : Text

pub record StoredContainer : Type 0 where
  pub host : Text
  pub name : Text
  pub compose_project : Option Text
  pub image : Option Text
  pub stored_bytes : ℕ
  pub oldest_ts : Text
  pub newest_ts : Text
  pub removed : Bool
  pub excluded : Bool
  pub excluded_reason : Option Text

pub record GroupedContainers : Type 0 where
  pub project : Text
  pub items : List ContainerInfo

pub record StateCounts : Type 0 where
  pub running : ℕ
  pub exited : ℕ
  pub paused : ℕ
  pub restarting : ℕ
  pub dead : ℕ
  pub removed : ℕ
  pub other : ℕ

abbrev pub removed_state : Text
removed_state = codes "removed"

abbrev pub compose_project_labels : List Text
compose_project_labels = codes "com.docker.compose.project" ∷ codes "io.podman.compose.project" ∷ []

-- `labels?.[label]?.trim()`, with the empty text for `undefined`: neither is truthy.
abbrev label_value : Option (JsMap Text Text) → Text → Text
label_value none label = []
label_value (some labels) label = elim (get label labels) [ none ↦ [] | some v ↦ trim v ]

unfoldable pub first_project : Option (JsMap Text Text) → List Text → Option Text
first_project labels [] = none
first_project labels (label ∷ rest) =
    let project = label_value labels label in
    if truthy project then some project else first_project labels rest

unfoldable pub get_compose_project : Option (JsMap Text Text) → Option Text
unfolding first_project
get_compose_project labels = first_project labels compose_project_labels

-- `project || "Standalone"`
unfoldable pub group_key : ContainerInfo → Text
unfolding get_compose_project
group_key c = or_null (get_compose_project c.labels) [] or_else codes "Standalone"

-- `if (!groups.has(key)) groups.set(key, [])`
unfoldable pub with_group : Text → JsMap Text (List ContainerInfo) → JsMap Text (List ContainerInfo)
with_group key groups = if has key groups then groups else set key [] groups

-- `groups.get(key)?.push(container)`: the array of the key is changed in place.
unfoldable pub push_to :
    Text → ContainerInfo → JsMap Text (List ContainerInfo) → JsMap Text (List ContainerInfo)
push_to key c groups = elim (get key groups) [
  | none ↦ groups
  | some items ↦ set key (items ++ c ∷ []) groups
]

unfoldable pub add_to_group :
    JsMap Text (List ContainerInfo) → ContainerInfo → JsMap Text (List ContainerInfo)
unfolding group_key with_group push_to
add_to_group groups c = push_to (group_key c) c (with_group (group_key c) groups)

unfoldable pub collect_groups :
    JsMap Text (List ContainerInfo) → List ContainerInfo → JsMap Text (List ContainerInfo)
unfolding add_to_group
collect_groups groups [] = groups
collect_groups groups (c ∷ cs) = collect_groups (add_to_group groups c) cs

-- `sort` is stable: an item goes before the first that is strictly behind it. `after a b` is
-- `a.localeCompare(b) > 0`.
module _ (after : Text → Text → Bool) where
  unfoldable pub insert_sorted :
      Text × List ContainerInfo → JsMap Text (List ContainerInfo) → JsMap Text (List ContainerInfo)
  insert_sorted g [] = g ∷ []
  insert_sorted g (h ∷ hs) = if after h.0 g.0 then g ∷ h ∷ hs else h ∷ insert_sorted g hs

  -- From the left, as the stable order wants it.
  unfoldable pub sort_into :
      JsMap Text (List ContainerInfo)
      → JsMap Text (List ContainerInfo)
      → JsMap Text (List ContainerInfo)
  unfolding insert_sorted
  sort_into sorted [] = sorted
  sort_into sorted (g ∷ gs) = sort_into (insert_sorted g sorted) gs

  unfoldable pub group_by_compose : List ContainerInfo → List GroupedContainers
  unfolding collect_groups sort_into
  group_by_compose cs =
      map (λ (g : Text × List ContainerInfo). record { project = g.0; items = g.1 })
        (sort_into [] (collect_groups [] cs))

unfoldable pub strip_leading_slash : Text → Text
strip_leading_slash [] = []
strip_leading_slash (c ∷ s) = if starts_with (c ∷ s) (codes "/") then s else c ∷ s

-- `${host}\0${name}`: the source has the character itself.
abbrev pub container_key : Text → Text → Text
container_key host name = host ++ 0 ∷ strip_leading_slash name

-- `to_unix_seconds` reads a date: `Date.parse` is the platform's.
module _ (to_unix_seconds : Text → ℕ) where
  abbrev pub project_labels : Option Text → Option (JsMap Text Text)
  project_labels none = none
  project_labels (some project) =
      if truthy project
      then some (
          (codes "com.docker.compose.project", project)
          ∷ (codes "io.podman.compose.project", project)
          ∷ [])
      else none

  unfoldable pub to_removed_container : StoredContainer → RemovedContainerInfo
  unfolding strip_leading_slash
  to_removed_container stored =
      let name = strip_leading_slash stored.name in
      record {
        info = record {
          id = name;
          names = (codes "/" ++ name) ∷ [];
          image = or_null stored.image (codes "—");
          image_id = [];
          command = [];
          created = to_unix_seconds stored.oldest_ts;
          state = removed_state;
          status = [];
          health = none;
          labels = project_labels stored.compose_project;
          host = stored.host;
        };
        stored_bytes = stored.stored_bytes;
        oldest_ts = stored.oldest_ts;
        newest_ts = stored.newest_ts;
      }

  -- `liveKeys.has(...)`
  unfoldable pub is_live : List ContainerInfo → Text → Bool
  unfolding strip_leading_slash
  is_live live key =
      any (λ (c : ContainerInfo). any (λ name. text_eq (container_key c.host name) key) c.names)
        live

  unfoldable pub synthesize_removed_containers :
      List StoredContainer → List ContainerInfo → List RemovedContainerInfo
  unfolding to_removed_container is_live
  synthesize_removed_containers stored live = map to_removed_container (
      filter
        (λ (e : StoredContainer).
          e.removed && not e.excluded && not (is_live live (container_key e.host e.name)))
        stored)

abbrev pub infos : List RemovedContainerInfo → List ContainerInfo
infos rs = map (λ (r : RemovedContainerInfo). r.info) rs

unfoldable pub select_visible_containers :
    List ContainerInfo → List RemovedContainerInfo → Text → List ContainerInfo
select_visible_containers live removed state_filter =
    if text_eq state_filter removed_state then infos removed else live

unfoldable pub in_project : Text → ContainerInfo → Bool
unfolding get_compose_project
in_project project c = elim (get_compose_project c.labels) [
  | none ↦ false
  | some p ↦ text_eq p project
]

unfoldable pub select_stack_members :
    List ContainerInfo → List RemovedContainerInfo → Text → List ContainerInfo
unfolding in_project
select_stack_members live removed project =
    filter (in_project project) live ++ filter (in_project project) (infos removed)

abbrev pub initial_state_counts : StateCounts
initial_state_counts = record {
  running = 0;
  exited = 0;
  paused = 0;
  restarting = 0;
  dead = 0;
  removed = 0;
  other = 0;
}

-- The chain of tests on the state.
unfoldable pub count_state : Text → StateCounts → StateCounts
count_state state n =
    if text_eq state (codes "running")
    then record n { running = n.running + 1 }
    else if text_eq state (codes "exited")
    then record n { exited = n.exited + 1 }
    else if text_eq state (codes "paused")
    then record n { paused = n.paused + 1 }
    else if text_eq state (codes "restarting")
    then record n { restarting = n.restarting + 1 }
    else if text_eq state (codes "dead")
    then record n { dead = n.dead + 1 }
    else record n { other = n.other + 1 }

module _ (to_lower_case : Text → Text) (matches : ContainerInfo → Bool) where
  unfoldable pub count_live : List ContainerInfo → StateCounts → StateCounts
  unfolding count_state
  count_live [] n = n
  count_live (c ∷ cs) n =
      count_live cs (if matches c then count_state (to_lower_case c.state) n else n)

  unfoldable pub count_removed : List RemovedContainerInfo → StateCounts → StateCounts
  count_removed [] n = n
  count_removed (r ∷ rs) n =
      count_removed rs (if matches r.info then record n { removed = n.removed + 1 } else n)

  unfoldable pub count_container_states :
      List ContainerInfo → List RemovedContainerInfo → StateCounts
  unfolding count_live count_removed
  count_container_states live removed = count_removed removed (count_live live initial_state_counts)

-- `container.names[0]` without its slash, or the short id.
unfoldable pub get_container_url_identifier : ContainerInfo → Text
unfolding strip_leading_slash
get_container_url_identifier c = elim c.names [
  | [] ↦ take 12 c.id
  | name ∷ names ↦ strip_leading_slash name
]

unfoldable pub format_container_name : List Text → Text
unfolding strip_leading_slash
format_container_name [] = codes "—"
format_container_name (primary ∷ names) = strip_leading_slash primary
