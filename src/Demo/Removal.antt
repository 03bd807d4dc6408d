-- ===== src/Demo/Removal.antt =====
-- What a removal leaves: nothing under the id of the container, and nothing that a request could find.
use logdeck.Base.{
  ℕ, false, Bool, ◌≡◌, refl, ap, any, none, some, List, [], ◌∷◌, arith, Bool-cases, inl, inr, ◌++◌,
}
use logdeck.Base.Text.{Text, text_Key, codes, text_eq, text_eq_iff}
use logdeck.Base.JsMap.{JsMap}
use logdeck.Containers.{ContainerInfo}
use logdeck.LogEntries.{LogEntry}
use logdeck.Demo.Store.{
  DemoState, StoredContainerRecord, find, splice_found, name_of, answers_to, get_container_by_id,
  emit_container_event,
}
use logdeck.Demo.Containers.{
  returned, thrown, not_found, UpdateResourcesRequest, has_id, act, start_container, stop_container,
  restart_container, remove_found, remove_container, update_container_env_variables,
  update_container_resources, get_container_env_variables, get_container_resources,
}
use logdeck.Demo.Logs.{array_of, named, quiet, resolve_logs, stream_turn}
use logdeck.Demo.Tidy.{has-delete, holds}
use logdeck.Demo.Kept.{stats_hold-filter}

-- A stored record has this name, or has it with a slash before it.
abbrev pub bears : Text → StoredContainerRecord → Bool
bears id r = any (text_eq id) (r.name ∷ (codes "/" ++ r.name) ∷ [])

find-named : (id : Text) (rs : List StoredContainerRecord) → find (named id) rs ≡ find (bears id) rs
find-named id [] = refl
find-named id (r ∷ rs) =
    let same : named id r ≡ bears id r = ground (
      arith,
      text_eq_iff r.name id,
      text_eq_iff id r.name,
      text_eq_iff (codes "/" ++ r.name) id,
      text_eq_iff id (codes "/" ++ r.name),
    ) in
    rw (same, find-named id rs) refl

module _ {V : Type 0} where
  -- No container is found under this id: each of these requests throws and changes nothing, a step of the
  -- live stream brings nothing, and the logs are those of the first stored record of that name, with or
  -- without a slash before it, if there is one.
  abbrev pub IsUnknown : Text → DemoState V → Type 0
  IsUnknown id s =
      (now : ℕ) (env : JsMap Text Text) (suffix : Text) (request : UpdateResourcesRequest)
      (make_line : ContainerInfo → ℕ → LogEntry)
      → (start_container id now s ≡ (thrown not_found, s))
        × (stop_container id now s ≡ (thrown not_found, s))
        × (restart_container id now s ≡ (thrown not_found, s))
        × (remove_container id now s ≡ (thrown not_found, s))
        × (update_container_env_variables id env suffix now s ≡ (thrown not_found, s))
        × (update_container_resources id request now s ≡ (thrown not_found, s))
        × (get_container_env_variables id s ≡ thrown not_found)
        × (get_container_resources id s ≡ thrown not_found)
        × (stream_turn make_line id s ≡ (quiet, s))
        × (resolve_logs id s ≡ array_of s (find (bears id) s.stored))

  IsUnknown-none : (id : Text) (s : DemoState V) → get_container_by_id id s ≡ none → IsUnknown id s
  unfolding start_container stop_container restart_container remove_container act
      update_container_env_variables update_container_resources get_container_env_variables
      get_container_resources stream_turn resolve_logs
  IsUnknown-none id s h now env suffix request make_line = (
    (rw (h, act) refl),
    (rw (h, act) refl),
    (rw (h, act) refl),
    (rw (h, remove_container) refl),
    (rw (h, update_container_env_variables) refl),
    (rw (h, update_container_resources) refl),
    (rw (h, get_container_env_variables) refl),
    (rw (h, get_container_resources) refl),
    (rw (h, stream_turn) refl),
    (rw (h, resolve_logs) (ap (array_of s) (find-named id s.stored))),
  )

  holds-remove_found :
      (c : ContainerInfo) (now : ℕ) (s : DemoState V) → holds c.id (remove_found c now s) ≡ false
  unfolding remove_found emit_container_event
  holds-remove_found c now s = elim (Bool-cases (holds c.id (remove_found c now s))) [
    | inr q ↦ q
    | inl q ↦
        let self = (text_eq_iff c.id c.id).1 refl in
        ground (
          arith,
          self,
          has-delete c.id c.id s.logs,
          has-delete c.id c.id s.env,
          has-delete c.id c.id s.resources,
          stats_hold-filter c.id c.id s.stats,
        )
  ]

  alone_after :
      (id : Text) (c : ContainerInfo) (now : ℕ) (s : DemoState V)
      → find (answers_to id) (splice_found (has_id c.id) s.containers) ≡ none
      → get_container_by_id id (remove_found c now s) ≡ none
  unfolding get_container_by_id remove_found emit_container_event
  alone_after id c now s alone = alone

  found :
      (id : Text) (c : ContainerInfo) (now : ℕ) (s : DemoState V)
      → get_container_by_id id s ≡ some c
      → remove_container id now s ≡ (returned (codes "Removed " ++ name_of c), remove_found c now s)
  unfolding remove_container
  found id c now s h = rw (h, remove_container) refl

  -- The removal of a container that is found returns its name. No logs, environment variables,
  -- resources or stats are kept under its id, and unless another container answers to the text that it
  -- was asked for by, a start, stop, restart, removal or update by that text, and the reading of its
  -- environment variables or resources, throws that there is no such container and changes nothing, and
  -- the live stream by it is quiet. The logs by that text are those of the first stored record of that
  -- name, with or without a slash before it, and none without such a record.
  pub remove_container-again :
      (id : Text) (c : ContainerInfo) (now : ℕ) (s : DemoState V)
      → get_container_by_id id s ≡ some c
      → find (answers_to id) (splice_found (has_id c.id) s.containers) ≡ none
      → let (outcome, t) = remove_container id now s in
        (outcome ≡ returned (codes "Removed " ++ name_of c))
        × (holds c.id t ≡ false)
        × IsUnknown id t
  remove_container-again id c now s h alone =
      let done = found id c now s h in
      rw done (
        refl,
        holds-remove_found c now s,
        IsUnknown-none id (remove_found c now s) (alone_after id c now s alone),
      )
