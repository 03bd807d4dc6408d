-- ===== src/Demo/Requests.antt =====
-- Any requests to the store, one after the other, and the live lines between them.
use logdeck.Base.{
  ℕ, ◌+◌, ◌-◌, ◌++◌, take, length, ◌+◌, ◌≡◌, refl, ◌∙◌, List, [], ◌∷◌, filter, map, Bool-cases,
  Option-cases, inl, inr, if◌then◌else◌,
}
use logdeck.Base.Text.{Text, text_Key, codes, text_eq}
use logdeck.Base.JsMap.{JsMap, get}
use logdeck.LogEntries.{LogEntry}
use logdeck.Containers.{ContainerInfo}
use logdeck.Actions.{ComposeAction, compose_start, compose_stop, compose_restart}
use logdeck.Demo.Store.{
  DemoState, find, answers_to, get_container_by_id, append_live, append_log, emit_container_event,
}
use logdeck.Demo.Containers.{
  UpdateResourcesRequest, started, stopped, restarted, compose_changed, is_member, action_name,
  start_container, stop_container, restart_container, remove_container, perform_compose_action,
  update_container_env_variables, update_container_resources, updated_resources,
}
use logdeck.Demo.Logs.{build_live_log, stream_turn}
use logdeck.Demo.History.{is_stored_as, delete_record, delete_history_container}
use logdeck.Demo.Tidy.{IsTidy, there-map}
use logdeck.Demo.Kept.{
  there-found, set_resources, IsTidy-act, IsTidy-remove_found, IsTidy-emit_all,
  IsTidy-append_stored, IsTidy-append_live, IsTidy-recreate,
}

pub data Request : Type 0 where
  start : Text → Request
  stop : Text → Request
  restart : Text → Request
  remove : Text → Request
  compose : Text → ComposeAction → Text → Request
  update_env : Text → JsMap Text Text → (suffix : Text) → Request
  update_resources : Text → UpdateResourcesRequest → Request
  delete_history : Text → Text → Request
  next_line : Text → Request

compose_changed-id :
    (action : ComposeAction) (c : ContainerInfo) → (compose_changed action c).id ≡ c.id
unfolding compose_changed started stopped
compose_changed-id compose_start c = refl
compose_changed-id compose_stop c = refl
compose_changed-id compose_restart c = refl

module _ {V : Type 0} where
  IsTidy-remove_container :
      (id : Text) (now : ℕ) (s : DemoState V) → IsTidy s → IsTidy (remove_container id now s).1
  unfolding remove_container get_container_by_id
  IsTidy-remove_container id now s tidy = elim (Option-cases (find (answers_to id) s.containers)) [
    | inl e ↦ rw (e, remove_container) tidy
    | inr (c, e) ↦ rw (e, remove_container) (IsTidy-remove_found c now s tidy)
  ]

  IsTidy-perform_compose_action :
      (project : Text) (action : ComposeAction) (host : Text) (now : ℕ) (s : DemoState V)
      → IsTidy s
      → IsTidy (perform_compose_action project action host now s).1
  unfolding perform_compose_action
  IsTidy-perform_compose_action project action host now s tidy =
      IsTidy-emit_all (map (compose_changed action) (filter (is_member project host) s.containers))
        (action_name action) now (record s { containers = map changed s.containers })
        (λ k h. there-map changed same k s.containers ∙ tidy k h)
    where
      changed : ContainerInfo → ContainerInfo
      changed c = if is_member project host c then compose_changed action c else c

      same : (c : ContainerInfo) → (changed c).id ≡ c.id
      same c = elim (Bool-cases (is_member project host c)) [
        | inl e ↦ rw e (compose_changed-id action c)
        | inr e ↦ rw e refl
      ]

  IsTidy-update_container_env_variables :
      (id : Text) (env : JsMap Text Text) (suffix : Text) (now : ℕ) (s : DemoState V)
      → IsTidy s
      → IsTidy (update_container_env_variables id env suffix now s).1
  unfolding update_container_env_variables get_container_by_id
  IsTidy-update_container_env_variables id env suffix now s tidy =
      elim (Option-cases (find (answers_to id) s.containers)) [
        | inl e ↦ rw (e, update_container_env_variables) tidy
        | inr (c, e) ↦
            rw (e, update_container_env_variables)
              (IsTidy-recreate id c (take (length c.id - 4) c.id ++ suffix) env now s e tidy)
      ]

  IsTidy-update_container_resources :
      (id : Text) (request : UpdateResourcesRequest) (now : ℕ) (s : DemoState V)
      → IsTidy s
      → IsTidy (update_container_resources id request now s).1
  unfolding update_container_resources get_container_by_id emit_container_event
  IsTidy-update_container_resources id request now s tidy =
      elim (Option-cases (find (answers_to id) s.containers)) [
        | inl e ↦ rw (e, update_container_resources) tidy
        | inr (c, e) ↦
            rw (e, update_container_resources)
              (set_resources c.id (updated_resources request (get c.id s.resources)) s
                (there-found (answers_to id) c s.containers e) tidy)
      ]

  IsTidy-delete_history_container :
      (name host : Text) (s : DemoState V)
      → IsTidy s
      → IsTidy (delete_history_container name host s).1
  unfolding delete_history_container delete_record
  IsTidy-delete_history_container name host s tidy =
      elim (Option-cases (find (is_stored_as name host) s.stored)) [
        | inl e ↦ rw (e, delete_history_container) tidy
        | inr (r, e) ↦ elim (Bool-cases r.removed) [
          | inl gone ↦ rw (e, delete_history_container, gone) tidy
          | inr kept ↦ rw (e, delete_history_container, kept) tidy
        ]
      ]

module _ {V : Type 0} (make_line : ContainerInfo → ℕ → LogEntry) where
  abbrev pub perform : Request → (now : ℕ) → DemoState V → DemoState V
  perform (start id) now s = (start_container id now s).1
  perform (stop id) now s = (stop_container id now s).1
  perform (restart id) now s = (restart_container id now s).1
  perform (remove id) now s = (remove_container id now s).1
  perform (compose project action host) now s = (perform_compose_action project action host now s).1
  perform (update_env id env suffix) now s = (update_container_env_variables id env suffix now s).1
  perform (update_resources id request) now s = (update_container_resources id request now s).1
  perform (delete_history name host) now s = (delete_history_container name host s).1
  perform (next_line id) now s = (stream_turn make_line id s).1

  -- Each request at its time.
  abbrev pub run : List (Request × ℕ) → DemoState V → DemoState V
  run [] s = s
  run ((request, now) ∷ rs) s = run rs (perform request now s)

  IsTidy-stream_turn :
      (id : Text) (s : DemoState V) → IsTidy s → IsTidy (stream_turn make_line id s).1
  unfolding stream_turn get_container_by_id build_live_log append_log
  IsTidy-stream_turn id s tidy = elim (Option-cases (find (answers_to id) s.containers)) [
    | inl e ↦ rw (e, stream_turn) tidy
    | inr (c, e) ↦ elim (Bool-cases (text_eq c.state (codes "running"))) [
      | inr off ↦ rw (e, stream_turn, off) tidy
      | inl on ↦
          let here = there-found (answers_to id) c s.containers e in
          let tick = s.live_tick + 1 in
          let entry = make_line c tick in
          let s₁ = record s { live_tick = tick } in
          rw (e, stream_turn, on)
            (IsTidy-append_stored c entry (append_live c entry s₁)
              (IsTidy-append_live c entry s₁ here tidy))
    ]
  ]

  IsTidy-perform :
      (request : Request) (now : ℕ) (s : DemoState V) → IsTidy s → IsTidy (perform request now s)
  unfolding start_container stop_container restart_container started stopped restarted
  IsTidy-perform (start id) now s =
      IsTidy-act started (codes "start") (codes "Started ") id now s (λ c. refl)
  IsTidy-perform (stop id) now s =
      IsTidy-act stopped (codes "stop") (codes "Stopped ") id now s (λ c. refl)
  IsTidy-perform (restart id) now s =
      IsTidy-act restarted (codes "restart") (codes "Restarted ") id now s (λ c. refl)
  IsTidy-perform (remove id) now s = IsTidy-remove_container id now s
  IsTidy-perform (compose project action host) now s =
      IsTidy-perform_compose_action project action host now s
  IsTidy-perform (update_env id env suffix) now s =
      IsTidy-update_container_env_variables id env suffix now s
  IsTidy-perform (update_resources id request) now s =
      IsTidy-update_container_resources id request now s
  IsTidy-perform (delete_history name host) now s = IsTidy-delete_history_container name host s
  IsTidy-perform (next_line id) now s = IsTidy-stream_turn id s

  -- Whatever is asked of the store, in any order: logs, environment variables, resources and stats are
  -- kept under an id only while there is a container with it, if that was so at first.
  pub run-IsTidy :
      (requests : List (Request × ℕ)) (s : DemoState V) → IsTidy s → IsTidy (run requests s)
  run-IsTidy [] s tidy = tidy
  run-IsTidy ((request, now) ∷ rs) s tidy =
      run-IsTidy rs (perform request now s) (IsTidy-perform request now s tidy)
