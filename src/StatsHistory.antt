-- ===== src/StatsHistory.antt =====
-- frontend/src/features/containers/hooks/use-stats-history.ts: the last samples of each container and of
-- the system, kept by the module.
pub mod Traces
mod Tests
use logdeck.Base.{
  ℕ, Bool, false, Option, none, some, List, [], ◌∷◌, ◌++◌, nat_eq, last_n, if◌then◌else◌,
}
use logdeck.Base.Text.{Text, text_Key}
use logdeck.Base.JsMap.{JsMap, get, set}
use logdeck.LogEntries.{or_null}

abbrev pub max_samples : ℕ
max_samples = 60

-- The readings are numbers that only pass through: `V` is any type.
pub record StatsSample (V : Type 0) : Type 0 where
  pub cpu : V
  pub memory_percent : V

-- The fields of a `ContainerStats` that are read.
pub record ContainerStats (V : Type 0) : Type 0 where
  pub id : Text
  pub cpu_percent : V
  pub memory_percent : V

abbrev pub StatsHistoryMap : Type 0 → Type 0
StatsHistoryMap V = JsMap Text (List (StatsSample V))

-- The state of the module. The data of a query is told from other data by its reference, a number.
pub record Histories (V : Type 0) : Type 0 where
  pub container_history : StatsHistoryMap V
  pub last_container_stats : Option ℕ
  pub system_history : List (StatsSample V)
  pub last_system_sample : Option ℕ

abbrev is_last : ℕ → Option ℕ → Bool
is_last reference none = false
is_last reference (some last) = nat_eq reference last

module _ {V : Type 0} where
  abbrev pub sample_of : ContainerStats V → StatsSample V
  sample_of stat = record { cpu = stat.cpu_percent; memory_percent = stat.memory_percent }

  -- The loop; an id is no name that every object has.
  unfoldable pub append_each :
      StatsHistoryMap V → StatsHistoryMap V → List (ContainerStats V) → StatsHistoryMap V
  append_each history next [] = next
  append_each history next (stat ∷ stats) =
      append_each history
        (set stat.id (last_n max_samples (or_null (get stat.id history) [] ++ sample_of stat ∷ []))
          next)
        stats

  unfoldable pub append_samples : StatsHistoryMap V → List (ContainerStats V) → StatsHistoryMap V
  unfolding append_each
  append_samples history stats = append_each history [] stats

  -- The effect of `useContainerStatsHistory` for data that is there.
  unfoldable pub on_container_stats : ℕ → List (ContainerStats V) → Histories V → Histories V
  unfolding append_samples
  on_container_stats reference stats s =
      if is_last reference s.last_container_stats then s else record s {
        last_container_stats = some reference;
        container_history = append_samples s.container_history stats;
      }

  -- The effect of `useSystemUsageHistory` for a sample that is there.
  unfoldable pub on_system_sample : ℕ → StatsSample V → Histories V → Histories V
  on_system_sample reference sample s =
      if is_last reference s.last_system_sample then s else record s {
        last_system_sample = some reference;
        system_history = last_n max_samples (s.system_history ++ sample ∷ []);
      }
