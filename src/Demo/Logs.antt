-- ===== src/Demo/Logs.antt =====
-- The live logs of the demo: get-container-logs-parsed.ts of its api, and `buildLiveLog` of store.ts.
use logdeck.Base.{
  ℕ, ◌+◌, ◌-◌, Bool, true, false, not, ◌&&◌, ◌||◌, Option, none, some, List, [], ◌++◌, filter, ltb,
  leb, length, drop, if◌then◌else◌,
}
use logdeck.Base.Text.{Text, text_Key, codes, text_eq, truthy, includes}
use logdeck.Base.JsMap.{get}
use logdeck.LogEntries.{LogEntry, or_null}
use logdeck.Containers.{ContainerInfo}
use logdeck.Demo.Store.{
  StoredContainerRecord, DemoState, find, get_container_by_id, stored_record_for, append_log,
}

-- `record?.logs ?? []`
abbrev pub array_of : {V : Type 0} → DemoState V → Option StoredContainerRecord → List LogEntry
array_of s none = []
array_of s (some r) = s.arrays r.logs

-- The logs of a stored record by name: `r.name === id || `/${r.name}` === id`.
abbrev pub named : Text → StoredContainerRecord → Bool
named id r = text_eq r.name id || text_eq (codes "/" ++ r.name) id

module _ {V : Type 0} where
  unfoldable pub resolve_logs : Text → DemoState V → List LogEntry
  unfolding get_container_by_id stored_record_for
  resolve_logs id s = elim (get_container_by_id id s) [
    | none ↦ array_of s (find (named id) s.stored)
    | some c ↦ elim (get c.id s.logs) [
      | none ↦ array_of s (stored_record_for c s)
      | some a ↦ s.arrays a
    ]
  ]

-- `get_time` is `new Date(...).getTime()`, `none` for `NaN`; the times of entries are valid.
module _ (to_lower_case : Text → Text) (get_time : Text → Option ℕ) where
  -- `!entry.timestamp || new Date(entry.timestamp).getTime() >= since`; a comparison with `NaN` fails.
  abbrev timed : (ℕ → Bool) → LogEntry → Bool
  timed test e =
      let stamp = or_null e.timestamp [] in
      if truthy stamp then elim (get_time stamp) [ none ↦ false | some t ↦ test t ] else true

  unfoldable pub keep_since : Option Text → List LogEntry → List LogEntry
  keep_since since logs =
      let text = or_null since [] in
      if truthy text
      then elim (get_time text) [ none ↦ logs | some t ↦ filter (timed (λ x. leb t x)) logs ]
      else logs

  unfoldable pub keep_until : Option Text → List LogEntry → List LogEntry
  keep_until until logs =
      let text = or_null until [] in
      if truthy text
      then elim (get_time text) [ none ↦ logs | some t ↦ filter (timed (λ x. leb x t)) logs ]
      else logs

  -- `entry.message ?? entry.raw ?? ""`
  abbrev pub line_text : LogEntry → Text
  line_text e = or_null e.message (or_null e.raw [])

  unfoldable pub keep_found : Option Text → List LogEntry → List LogEntry
  keep_found search logs =
      let text = or_null search [] in
      if truthy text
      then filter (λ e. includes (to_lower_case (line_text e)) (to_lower_case text)) logs
      else logs

  -- `tail` is the number that `Number(options?.tail ?? 100)` is, `none` where it is not finite.
  unfoldable pub cut_tail : Option ℕ → List LogEntry → List LogEntry
  cut_tail none logs = logs
  cut_tail (some tail) logs =
      if ltb 0 tail && ltb tail (length logs) then drop (length logs - tail) logs else logs

  unfoldable pub apply_options :
      (since until search : Option Text) → (tail : Option ℕ) → List LogEntry → List LogEntry
  unfolding keep_since keep_until keep_found cut_tail
  apply_options since until search tail logs =
      cut_tail tail (keep_found search (keep_until until (keep_since since logs)))

-- What a turn of the live stream yields.
pub data Yielded : Type 0 where
  quiet : Yielded
  line : LogEntry → Yielded

-- `make_line` is the generator of the demo's lines, by container and tick.
module _ {V : Type 0} (make_line : ContainerInfo → ℕ → LogEntry) where
  unfoldable pub build_live_log : ContainerInfo → DemoState V → LogEntry × DemoState V
  build_live_log c s =
      let tick = s.live_tick + 1 in (make_line c tick, record s { live_tick = tick })

  -- A turn of `streamContainerLogsParsed` behind its sleep.
  unfoldable pub stream_turn : Text → DemoState V → Yielded × DemoState V
  unfolding get_container_by_id build_live_log append_log
  stream_turn id s = elim (get_container_by_id id s) [
    | none ↦ (quiet, s)
    | some c ↦
        if not (text_eq c.state (codes "running"))
        then (quiet, s)
        else let (entry, s₁) = build_live_log c s in (line entry, append_log c entry s₁)
  ]
