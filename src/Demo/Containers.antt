-- ===== src/Demo/Containers.antt =====
-- The requests of the demo's api that change containers: container-actions.ts, compose-actions.ts,
-- update-container-env-variables.ts and update-container-resources.ts.
use logdeck.Base.{
  ℕ, ◌-◌, Bool, true, false, not, ◌&&◌, Option, none, some, List, [], ◌∷◌, ◌++◌, map, filter, take,
  length, if◌then◌else◌,
}
use logdeck.Base.Text.{Text, text_Key, codes, text_eq, truthy}
use logdeck.Base.JsMap.{JsMap, get, set, delete}
use logdeck.LogEntries.{or_null}
use logdeck.Containers.{ContainerInfo}
use logdeck.Actions.{ComposeAction, compose_start, compose_stop, compose_restart}
use logdeck.Demo.Store.{
  RestartPolicy, ContainerResourcesRecord, DemoStats, DemoState, change_found, splice_found,
  name_of, answers_to, is_record_of, get_container_by_id, allocate, emit_container_event,
}

-- What a request comes to: `thrown` holds the message of the error.
pub data Attempt (A : Type 0) : Type 0 where
  returned : A → Attempt A
  thrown : Text → Attempt A

abbrev pub not_found : Text
not_found = codes "Container not found"

-- `container.health`, a non-empty text if it is there.
abbrev has_health : ContainerInfo → Bool
has_health c = truthy (or_null c.health [])

unfoldable pub started : ContainerInfo → ContainerInfo
started c = record c {
  state = codes "running";
  status = if has_health c then codes "Up a few seconds (healthy)" else codes "Up a few seconds";
}

unfoldable pub stopped : ContainerInfo → ContainerInfo
stopped c = record c { state = codes "exited"; status = codes "Exited (0) just now" }

unfoldable pub restarted : ContainerInfo → ContainerInfo
restarted c = record c {
  state = codes "running";
  status =
      if has_health c
      then codes "Up less than a second (healthy)"
      else codes "Up less than a second";
}

-- `container.labels?.["com.docker.compose.project"] === project`
abbrev pub has_project : Text → ContainerInfo → Bool
has_project project c = elim c.labels [
  | none ↦ false
  | some labels ↦ elim (get (codes "com.docker.compose.project") labels) [
    | none ↦ false
    | some p ↦ text_eq p project
  ]
]

abbrev pub is_member : Text → Text → ContainerInfo → Bool
is_member project host c = text_eq c.host host && has_project project c

abbrev pub action_name : ComposeAction → Text
action_name compose_start = codes "start"
action_name compose_stop = codes "stop"
action_name compose_restart = codes "restart"

unfoldable pub compose_changed : ComposeAction → ContainerInfo → ContainerInfo
unfolding started stopped
compose_changed compose_stop c = stopped c
compose_changed _ c = started c

pub record UpdateResourcesRequest : Type 0 where
  pub memory_bytes : Option ℕ
  pub nano_cpus : Option ℕ
  pub restart_policy : Option RestartPolicy

abbrev pub no_resources : ContainerResourcesRecord
no_resources = record {
  memory_bytes = 0;
  nano_cpus = 0;
  restart_policy = record { name = codes "no"; maximum_retry_count = 0 };
}

abbrev pub has_id : Text → ContainerInfo → Bool
has_id id c = text_eq c.id id

unfoldable pub recreated : Text → (now : ℕ) → ContainerInfo → ContainerInfo
unfolding started
recreated new_id now c = record (started c) { id = new_id; created = now }

unfoldable pub updated_resources :
    UpdateResourcesRequest → Option ContainerResourcesRecord → ContainerResourcesRecord
updated_resources request before =
    let current = or_null before no_resources in
    record {
      memory_bytes = or_null request.memory_bytes current.memory_bytes;
      nano_cpus = or_null request.nano_cpus current.nano_cpus;
      restart_policy = or_null request.restart_policy current.restart_policy;
    }

module _ {V : Type 0} where
  -- The container that a request names is changed in place, and an event tells of it.
  unfoldable pub act :
      (ContainerInfo → ContainerInfo)
      → (action verb : Text) → Text
      → (now : ℕ) → DemoState V
      → Attempt Text × DemoState V
  unfolding get_container_by_id emit_container_event
  act f action verb id now s = elim (get_container_by_id id s) [
    | none ↦ (thrown not_found, s)
    | some c ↦ (
      returned (verb ++ name_of c),
      emit_container_event (f c) action now
          (record s { containers = change_found (answers_to id) f s.containers }),
    )
  ]

  unfoldable pub start_container : Text → (now : ℕ) → DemoState V → Attempt Text × DemoState V
  unfolding act started
  start_container id now s = act started (codes "start") (codes "Started ") id now s

  unfoldable pub stop_container : Text → (now : ℕ) → DemoState V → Attempt Text × DemoState V
  unfolding act stopped
  stop_container id now s = act stopped (codes "stop") (codes "Stopped ") id now s

  unfoldable pub restart_container : Text → (now : ℕ) → DemoState V → Attempt Text × DemoState V
  unfolding act restarted
  restart_container id now s = act restarted (codes "restart") (codes "Restarted ") id now s

  -- The part of `removeContainer` behind its lookup. The container has its id, so the index is there.
  unfoldable pub remove_found : ContainerInfo → (now : ℕ) → DemoState V → DemoState V
  unfolding emit_container_event
  remove_found c now s = emit_container_event c (codes "destroy") now (record s {
    stored = change_found (is_record_of c) (λ r. record r { removed = true }) s.stored;
    containers = splice_found (has_id c.id) s.containers;
    stats = filter (λ (x : DemoStats V). not (text_eq x.id c.id)) s.stats;
    logs = delete c.id s.logs;
    env = delete c.id s.env;
    resources = delete c.id s.resources;
  })

  unfoldable pub remove_container : Text → (now : ℕ) → DemoState V → Attempt Text × DemoState V
  unfolding get_container_by_id remove_found
  remove_container id now s = elim (get_container_by_id id s) [
    | none ↦ (thrown not_found, s)
    | some c ↦ (returned (codes "Removed " ++ name_of c), remove_found c now s)
  ]

  -- An event for each member, in turn.
  unfoldable pub emit_all : List ContainerInfo → Text → (now : ℕ) → DemoState V → DemoState V
  unfolding emit_container_event
  emit_all [] action now s = s
  emit_all (c ∷ cs) action now s = emit_all cs action now (emit_container_event c action now s)

  -- The result: how many members there were.
  unfoldable pub perform_compose_action :
      (project : Text) → ComposeAction → (host : Text) → (now : ℕ) → DemoState V → ℕ × DemoState V
  unfolding compose_changed emit_all
  perform_compose_action project action host now s =
      let members = filter (is_member project host) s.containers in
      (
        length members,
        emit_all (map (compose_changed action) members) (action_name action) now (record s {
          containers =
              map (λ c. if is_member project host c then compose_changed action c else c)
                s.containers;
        }),
      )

  -- `state.logs[oldId] ?? []` under the new id, and the old key deleted.
  unfoldable pub move_logs : Text → Text → DemoState V → DemoState V
  unfolding allocate
  move_logs old_id new_id s = elim (get old_id s.logs) [
    | none ↦
        let (a, s₁) = allocate [] s in record s₁ { logs = delete old_id (set new_id a s₁.logs) }
    | some a ↦ record s { logs = delete old_id (set new_id a s.logs) }
  ]

  unfoldable pub move_resources : Text → Text → DemoState V → DemoState V
  move_resources old_id new_id s = elim (get old_id s.resources) [
    | none ↦ s
    | some r ↦ record s { resources = delete old_id (set new_id r s.resources) }
  ]

  unfoldable pub rename_stats : Text → Text → List (DemoStats V) → List (DemoStats V)
  rename_stats old_id new_id [] = []
  rename_stats old_id new_id (x ∷ xs) =
      (if text_eq x.id old_id then record x { id = new_id } else x) ∷ rename_stats old_id new_id xs

  -- The part of `updateContainerEnvVariables` behind its lookup.
  unfoldable pub recreate :
      Text
      → ContainerInfo
      → (new_id : Text) → JsMap Text Text
      → (now : ℕ) → DemoState V
      → DemoState V
  unfolding recreated move_logs move_resources rename_stats emit_container_event
  recreate id c new_id env now s =
      let s₁ = record s {
        containers = change_found (answers_to id) (recreated new_id now) s.containers;
        env = delete c.id (set new_id env s.env);
      } in
      let s₂ = move_resources c.id new_id (move_logs c.id new_id s₁) in
      emit_container_event (recreated new_id now c) (codes "recreate") now
        (record s₂ { stats = rename_stats c.id new_id s₂.stats })

  -- `suffix` is the four random hexadecimal digits.
  unfoldable pub update_container_env_variables :
      Text
      → JsMap Text Text
      → (suffix : Text) → (now : ℕ) → DemoState V
      → Attempt Text × DemoState V
  unfolding get_container_by_id recreate
  update_container_env_variables id env suffix now s = elim (get_container_by_id id s) [
    | none ↦ (thrown not_found, s)
    | some c ↦
        let new_id = take (length c.id - 4) c.id ++ suffix in
        (returned new_id, recreate id c new_id env now s)
  ]

  unfoldable pub update_container_resources :
      Text → UpdateResourcesRequest → (now : ℕ) → DemoState V → Attempt Unit × DemoState V
  unfolding get_container_by_id updated_resources emit_container_event
  update_container_resources id request now s = elim (get_container_by_id id s) [
    | none ↦ (thrown not_found, s)
    | some c ↦ (
      returned tt,
      emit_container_event c (codes "update") now (record s {
        resources = set c.id (updated_resources request (get c.id s.resources)) s.resources;
      }),
    )
  ]

  unfoldable pub get_container_env_variables : Text → DemoState V → Attempt (JsMap Text Text)
  unfolding get_container_by_id
  get_container_env_variables id s = elim (get_container_by_id id s) [
    | none ↦ thrown not_found
    | some c ↦ returned (or_null (get c.id s.env) [])
  ]

  unfoldable pub get_container_resources : Text → DemoState V → Attempt ContainerResourcesRecord
  unfolding get_container_by_id
  get_container_resources id s = elim (get_container_by_id id s) [
    | none ↦ thrown not_found
    | some c ↦ returned (or_null (get c.id s.resources) no_resources)
  ]
