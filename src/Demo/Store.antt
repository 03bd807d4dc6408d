-- ===== src/Demo/Store.antt =====
-- The state of store.ts. Arrays of log lines are mutable and may be shared, so they have addresses.
use logdeck.Base.{
  ℕ, ◌+◌, Bool, ◌&&◌, ◌||◌, Option, none, some, List, [], ◌∷◌, ◌++◌, any, nat_eq, last_n, drop,
  if◌then◌else◌,
}
use logdeck.Base.Text.{Text, text_Key, codes, text_eq}
use logdeck.Base.JsMap.{JsMap, get, set}
use logdeck.LogEntries.{LogEntry}
use logdeck.Containers.{ContainerInfo}

pub record StoredContainerRecord : Type 0 where
  pub host : Text
  pub name : Text
  pub compose_project : Option Text
  pub image : Option Text
  pub removed : Bool
  pub logs : ℕ

pub record RestartPolicy : Type 0 where
  pub name : Text
  pub maximum_retry_count : ℕ

pub record ContainerResourcesRecord : Type 0 where
  pub memory_bytes : ℕ
  pub nano_cpus : ℕ
  pub restart_policy : RestartPolicy

pub record ContainerEventRecord : Type 0 where
  pub host : Text
  pub container_id : Text
  pub container_name : Text
  pub action : Text
  pub timestamp : ℕ

-- The percentages only pass through: `V` is any type.
pub record DemoStats (V : Type 0) : Type 0 where
  pub id : Text
  pub host : Text
  pub cpu_percent : V
  pub memory_percent : V
  pub memory_used : ℕ
  pub memory_limit : ℕ

-- `DemoState`, with the arrays by address, and the events that were emitted, oldest first.
pub record DemoState (V : Type 0) : Type 0 where
  pub containers : List ContainerInfo
  pub stats : List (DemoStats V)
  pub logs : JsMap Text ℕ
  pub env : JsMap Text (JsMap Text Text)
  pub resources : JsMap Text ContainerResourcesRecord
  pub stored : List StoredContainerRecord
  pub live_tick : ℕ
  pub arrays : ℕ → List LogEntry
  pub next_array : ℕ
  pub events : List ContainerEventRecord

-- `find`, a change of the object that it finds, and the `splice` at its index.
module _ {A : Type 0} (p : A → Bool) where
  abbrev pub find : List A → Option A
  find [] = none
  find (x ∷ xs) = if p x then some x else find xs

  abbrev pub change_found : (A → A) → List A → List A
  change_found f [] = []
  change_found f (x ∷ xs) = if p x then f x ∷ xs else x ∷ change_found f xs

  abbrev pub splice_found : List A → List A
  splice_found [] = []
  splice_found (x ∷ xs) = if p x then xs else x ∷ splice_found xs

-- `c.names[0].slice(1)`. Every container of the demo has a name; without one the source throws.
abbrev first_name : List Text → Text
first_name [] = []
first_name (name ∷ names) = drop 1 name

unfoldable pub name_of : ContainerInfo → Text
name_of c = first_name c.names

-- The callback of `getContainerById`.
unfoldable pub answers_to : Text → ContainerInfo → Bool
unfolding name_of
answers_to id c =
    text_eq c.id id || text_eq (name_of c) id || any (λ n. text_eq n (codes "/" ++ id)) c.names

unfoldable pub is_record_of : ContainerInfo → StoredContainerRecord → Bool
unfolding name_of
is_record_of c r = text_eq r.host c.host && text_eq r.name (name_of c)

abbrev pub max_entries : ℕ
max_entries = 3000

module _ {V : Type 0} where
  unfoldable pub get_container_by_id : Text → DemoState V → Option ContainerInfo
  unfolding answers_to
  get_container_by_id id s = find (answers_to id) s.containers

  unfoldable pub stored_record_for : ContainerInfo → DemoState V → Option StoredContainerRecord
  unfolding is_record_of
  stored_record_for c s = find (is_record_of c) s.stored

  -- A new array.
  unfoldable pub allocate : List LogEntry → DemoState V → ℕ × DemoState V
  allocate xs s = (
    s.next_array,
    record s {
      arrays = λ a. if nat_eq a s.next_array then xs else s.arrays a;
      next_array = s.next_array + 1;
    },
  )

  unfoldable pub push : ℕ → LogEntry → DemoState V → DemoState V
  push a entry s = record s {
    arrays = λ b. if nat_eq b a then s.arrays a ++ entry ∷ [] else s.arrays b;
  }

  -- `array.push(entry)` and `array.slice(-3000)`: the address of the slice.
  unfoldable pub push_and_slice : ℕ → LogEntry → DemoState V → ℕ × DemoState V
  unfolding push allocate
  push_and_slice a entry s =
      let s₁ = push a entry s in allocate (last_n max_entries (s₁.arrays a)) s₁

  -- `state.logs[id] ?? []`
  unfoldable pub logs_array : Text → DemoState V → ℕ × DemoState V
  unfolding allocate
  logs_array id s = elim (get id s.logs) [ none ↦ allocate [] s | some a ↦ (a, s) ]

  -- The `if (record)` of `appendLog`.
  unfoldable pub append_stored : ContainerInfo → LogEntry → DemoState V → DemoState V
  unfolding stored_record_for push_and_slice
  append_stored c entry s = elim (stored_record_for c s) [
    | none ↦ s
    | some r ↦
        let (b, s₁) = push_and_slice r.logs entry s in
        record s₁ { stored = change_found (is_record_of c) (λ x. record x { logs = b }) s₁.stored }
  ]

  unfoldable pub append_live : ContainerInfo → LogEntry → DemoState V → DemoState V
  unfolding logs_array push_and_slice
  append_live c entry s =
      let (a, s₁) = logs_array c.id s in
      let (b, s₂) = push_and_slice a entry s₁ in record s₂ { logs = set c.id b s₂.logs }

  unfoldable pub append_log : ContainerInfo → LogEntry → DemoState V → DemoState V
  unfolding append_live append_stored
  append_log c entry s = append_stored c entry (append_live c entry s)

  unfoldable pub emit_container_event : ContainerInfo → Text → (now : ℕ) → DemoState V → DemoState V
  unfolding name_of
  emit_container_event c action now s = record s {
    events =
        s.events
        ++ record {
          host = c.host;
          container_id = c.id;
          container_name = name_of c;
          action = action;
          timestamp = now;
        }
          ∷ [];
  }
