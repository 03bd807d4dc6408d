-- ===== src/LogStream/Session.antt =====
-- Fetching, and the connection loop of `startStreaming`, in the steps between two of its awaits.
use logdeck.Base.{
  ℕ, ◌+◌, ◌-◌, ◌*◌, ◌^◌, min, Bool, true, false, not, ◌&&◌, ◌||◌, Option, none, some, List, [], ◌∷◌,
  ◌++◌, ltb, nat_eq, if◌then◌else◌, length,
}
use logdeck.Base.Text.{Text, codes, text_eq, includes}
use logdeck.LogStream.State.{
  Failure, error, not_error, reset_state, fetch_error, stream_error, stream_logs, Options, Stream,
  has_target,
}
use logdeck.LogStream.{
  cap_lines, call, is_aborted, reset_pause_and_buffer, reset_dropped_count, record_dropped_lines,
  schedule_scroll_to_bottom, flush_pending_logs, stop_flush_interval, stop_streaming,
}

abbrev pub reconnect_min_delay_ms : ℕ
reconnect_min_delay_ms = 1000

abbrev pub reconnect_max_delay_ms : ℕ
reconnect_max_delay_ms = 30000

-- The wait before the connection of a positive `attempt`.
unfoldable pub reconnect_delay : ℕ → ℕ
reconnect_delay attempt = min (reconnect_min_delay_ms * 2 ^ (attempt - 1)) reconnect_max_delay_ms

-- Where the loop of one call of `startStreaming` stands: in `waitWithSignal`, in the `for await`
-- over the connection, or behind the loop.
pub data Phase : Type 0 where
  waiting reading closed : Phase

-- The local variables of one call of `startStreaming`.
pub record Session : Type 0 where
  pub attempt : ℕ
  pub controller : ℕ
  pub has_received_first_entry : Bool
  pub phase : Phase

pub data Item (A : Type 0) : Type 0 where
  heartbeat : Item A
  entry : A → Item A

-- What happens to the loop from outside. `now` is the clock when it happens.
pub data Event (A : Type 0) : Type 0 where
  wait_over : Event A
  received : Item A → (now : ℕ) → Event A
  ended : (now : ℕ) → Event A
  failed : Failure → (now : ℕ) → Event A

-- `error.name === "AbortError" || message.includes("aborted")`
abbrev pub is_abort : (to_lower_case : Text → Text) → Failure → Bool
is_abort to_lower_case (error name message) =
    text_eq name (codes "AbortError") || includes (to_lower_case message) (codes "aborted")
is_abort to_lower_case not_error = false

abbrev pub is_error : Failure → Bool
is_error (error name message) = true
is_error not_error = false

abbrev pub first_attempt : Session
first_attempt = record {
  attempt = 0;
  controller = 0;
  has_received_first_entry = false;
  phase = Phase.reading;
}

-- `onFetchError` is told of errors only.
abbrev pub report_fetch_error : {A : Type 0} → Failure → Stream A → Stream A
report_fetch_error (error name message) s = call (fetch_error (error name message)) s
report_fetch_error not_error s = s

module _ {A : Type 0} where
  unfoldable pub fetched : List A → Stream A → Stream A
  unfolding record_dropped_lines schedule_scroll_to_bottom
  fetched log_entries s =
      let capped = cap_lines s.max_log_lines_ref log_entries in
      let s₁ = record s { logs = capped; logs_length_ref = length capped } in
      let s₂ = record_dropped_lines (length log_entries - length capped) s₁ in
      record (schedule_scroll_to_bottom 100 none s₂) { is_loading_logs = false }

  unfoldable pub fetch_failed : Failure → Stream A → Stream A
  fetch_failed failure s = record (report_fetch_error failure s) {
    logs = [];
    logs_length_ref = 0;
    is_loading_logs = false;
  }

  -- `abortControllerRef.current === abortController`
  abbrev pub is_current : Session → Stream A → Bool
  is_current t s = elim s.abort_controller_ref [ none ↦ false | some c ↦ nat_eq c t.controller ]

  -- The end of the `finally` block, behind its flush.
  unfoldable pub settle : Session → Stream A → Stream A
  settle t s =
      let s₁ = record s {
        is_loading_logs = false;
        is_streaming = false;
        is_reconnecting = false;
      } in
      if is_current t s₁ then record s₁ { abort_controller_ref = none } else s₁

  -- The `finally` block.
  unfoldable pub finish : Session → Stream A → Session × Stream A
  unfolding stop_flush_interval
  finish t s = (
    record t { phase = Phase.closed },
    settle t (flush_pending_logs none (stop_flush_interval s)),
  )

  -- Where an item goes: a heartbeat nowhere, an entry to the backlog or to the next flush.
  unfoldable pub deliver : Item A → Stream A → Stream A
  deliver heartbeat s = s
  deliver (entry x) s =
      if s.is_stream_paused_ref
      then record s { buffered_logs_ref = s.buffered_logs_ref ++ x ∷ [] }
      else record s { pending_logs_ref = s.pending_logs_ref ++ x ∷ [] }

  -- The body of the `for await` for an item that the abort does not cut off.
  unfoldable pub on_item : Item A → ℕ → Session → Stream A → Session × Stream A
  unfolding deliver
  on_item item now t s =
      let s₁ = record s {
        last_activity_ref = now;
        is_reconnecting = false;
        is_loading_logs = if t.has_received_first_entry then s.is_loading_logs else false;
      } in
      (record t { attempt = 0; has_received_first_entry = true }, deliver item s₁)

  unfoldable pub on_error : (to_lower_case : Text → Text) → Failure → Session → Stream A → Stream A
  on_error to_lower_case failure t s =
      if is_error failure && not (is_abort to_lower_case failure) && nat_eq t.attempt 0
      then call (stream_error failure) s
      else s

module _ {A : Type 0} (options : Options) where
  -- `fetchLogs` up to its await, and what it does with the answer.
  unfoldable pub fetch_logs : Stream A → Stream A
  unfolding reset_pause_and_buffer reset_dropped_count
  fetch_logs s =
      if not (has_target options)
      then s
      else call reset_state
          (reset_dropped_count (reset_pause_and_buffer (record s { is_loading_logs = true })))

  -- The top of the loop's body: a new controller, and the wait of a reconnect.
  unfoldable pub open_stream : Session → Stream A → Session × Stream A
  open_stream t s = (
    record t { phase = Phase.reading },
    call (stream_logs (if nat_eq t.attempt 0 then options.tail else 0) t.controller) s,
  )

  unfoldable pub begin_attempt : ℕ → Session → Stream A → Session × Stream A
  unfolding open_stream
  begin_attempt now t s =
      let t₁ = record t { controller = s.next_controller } in
      let s₁ = record s {
        abort_controller_ref = some s.next_controller;
        last_activity_ref = now;
        next_controller = s.next_controller + 1;
      } in
      if ltb 0 t.attempt
      then (record t₁ { phase = Phase.waiting }, record s₁ { is_reconnecting = true })
      else open_stream t₁ s₁

  -- `startStreaming` up to its first await; `none` if it returns at once.
  unfoldable pub start_streaming : ℕ → Stream A → Option Session × Stream A
  unfolding reset_pause_and_buffer reset_dropped_count stop_flush_interval begin_attempt
  start_streaming now s =
      if not (has_target options)
      then (none, s)
      else let s₁ = record s { is_streaming = true; is_loading_logs = true } in
        let s₂ = call reset_state (reset_dropped_count (reset_pause_and_buffer s₁)) in
        let s₃ = record s₂ {
          logs = [];
          logs_length_ref = 0;
          pending_logs_ref = [];
          stop_requested_ref = false;
        } in
        let s₄ = record (stop_flush_interval s₃) { flush_interval_ref = true } in
        let (t, s₅) = begin_attempt now first_attempt s₄ in (some t, s₅)

  -- Behind the inner `try`: leave the loop, or go round it with `attempt++`.
  unfoldable pub after_stream : ℕ → Session → Stream A → Session × Stream A
  after_stream now t s =
      if s.stop_requested_ref || not (is_current t s)
      then finish t s
      else begin_attempt now (record t { attempt = t.attempt + 1 }) s

  unfoldable pub after_wait : Session → Stream A → Session × Stream A
  unfolding open_stream
  after_wait t s =
      if s.stop_requested_ref || is_aborted t.controller s then finish t s else open_stream t s

  -- One step of the loop, by its phase: an event that the phase does not await changes nothing.
  unfoldable pub react :
      (to_lower_case : Text → Text) → Phase → Event A → Session → Stream A → Session × Stream A
  react to_lower_case waiting wait_over t s = after_wait t s
  react to_lower_case reading (received item now) t s =
      if is_aborted t.controller s then after_stream now t s else on_item item now t s
  react to_lower_case reading (ended now) t s = after_stream now t s
  react to_lower_case reading (failed failure now) t s =
      after_stream now t (on_error to_lower_case failure t s)
  react to_lower_case _ _ t s = (t, s)

  unfoldable pub step :
      (to_lower_case : Text → Text) → Event A → Session → Stream A → Session × Stream A
  unfolding react
  step to_lower_case event t s = react to_lower_case t.phase event t s

-- `toggleStreaming`: the session of the new stream, if it starts one.
unfoldable pub toggle_streaming : {A : Type 0} → Options → ℕ → Stream A → Option Session × Stream A
toggle_streaming options now s =
    if s.is_streaming then (none, stop_streaming s) else start_streaming options now s
