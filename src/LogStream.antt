-- ===== src/LogStream.antt =====
-- The hook of frontend/src/features/containers/hooks/use-container-log-stream.ts: its callbacks as
-- functions on the record of its state and refs, which is in the module State.
pub mod State
pub mod Session
pub mod Flush
pub mod Ring
pub mod Counters
pub mod Backoff
pub mod Lifecycle
pub mod Reconnect
pub mod Overlap
mod Tests
use logdeck.Base.{
  ℕ, ◌+◌, ◌-◌, min, Bool, true, false, not, Option, none, some, List, [], ◌∷◌, ◌++◌, ltb, nat_eq,
  any, if◌then◌else◌, length, drop,
}
use logdeck.Base.Int.{ℤ, sub_ℕ}
use logdeck.LogStream.State.{
  stream_idle_timeout_ms, ScrollBehavior, smooth, Call, scroll_to_bottom, Stream, is_smooth,
}

module _ {A : Type 0} where
  -- `xs.length > max ? xs.slice(xs.length - max) : xs`
  unfoldable pub cap_lines : ℕ → List A → List A
  cap_lines max xs = if ltb max (length xs) then drop (length xs - max) xs else xs

  abbrev pub call : Call → Stream A → Stream A
  call c s = record s { calls = s.calls ++ c ∷ [] }

  abbrev pub is_aborted : ℕ → Stream A → Bool
  is_aborted c s = any (nat_eq c) s.aborted

  pub set_max_log_lines : ℕ → Stream A → Stream A
  set_max_log_lines max s = record s { max_log_lines_ref = max }

  unfoldable pub reset_pause_and_buffer : Stream A → Stream A
  reset_pause_and_buffer s = record s {
    is_stream_paused = false;
    buffered_count = 0;
    is_stream_paused_ref = false;
    buffered_logs_ref = [];
  }

  unfoldable pub reset_dropped_count : Stream A → Stream A
  reset_dropped_count s = record s {
    dropped_count_ref = 0;
    dropped_count = 0;
    buffered_dropped_count_ref = 0;
    buffered_dropped_count = 0;
  }

  -- A count is never negative here, so `count <= 0` is `count === 0`.
  unfoldable pub record_dropped_lines : ℕ → Stream A → Stream A
  record_dropped_lines count s = if nat_eq count 0 then s else record s {
    dropped_count_ref = s.dropped_count_ref + count;
    dropped_count = s.dropped_count_ref + count;
  }

  unfoldable pub record_buffered_dropped_lines : ℕ → Stream A → Stream A
  record_buffered_dropped_lines count s = if nat_eq count 0 then s else record s {
    buffered_dropped_count_ref = s.buffered_dropped_count_ref + count;
    buffered_dropped_count = s.buffered_dropped_count_ref + count;
  }

  -- A timer that is already set is replaced.
  unfoldable pub schedule_scroll_to_bottom : ℕ → Option ScrollBehavior → Stream A → Stream A
  schedule_scroll_to_bottom delay behavior s = record s {
    scroll_timeout_ref = some (delay, behavior);
  }

  pub scroll_timeout_fires : Stream A → Stream A
  scroll_timeout_fires s = elim s.scroll_timeout_ref [
    | none ↦ s
    | some (delay, behavior) ↦
        call (scroll_to_bottom behavior) (record s { scroll_timeout_ref = none })
  ]

  unfoldable pub trigger_row_animation : ℕ → ℤ → Stream A → Stream A
  trigger_row_animation start end s = record s {
    animated_range = some (record { start = start; end = end });
    animation_timeout_ref = true;
  }

  pub animation_timeout_fires : Stream A → Stream A
  animation_timeout_fires s = record s { animated_range = none }

  -- The part of `flushPendingLogs` behind its early return.
  unfoldable pub flush_lines : Option ScrollBehavior → List A → Stream A → Stream A
  unfolding record_dropped_lines record_buffered_dropped_lines schedule_scroll_to_bottom
      trigger_row_animation
  flush_lines behavior pending s =
      let max = s.max_log_lines_ref in
      let prev_length = s.logs_length_ref in
      let total = prev_length + length pending in
      let dropped = total - max in
      let dropped_from_displayed = min prev_length dropped in
      let next_length = total - dropped in
      let s₁ = record s {
        pending_logs_ref = [];
        logs = cap_lines max (s.logs ++ pending);
        logs_length_ref = next_length;
      } in
      let s₂ = record_dropped_lines dropped_from_displayed s₁ in
      let s₃ = record_buffered_dropped_lines (dropped - dropped_from_displayed) s₂ in
      let s₄ = trigger_row_animation (next_length - length pending) (sub_ℕ next_length 1) s₃ in
      schedule_scroll_to_bottom (if is_smooth behavior then 40 else 100) behavior s₄

  unfoldable pub flush_pending_logs : Option ScrollBehavior → Stream A → Stream A
  flush_pending_logs behavior s = elim s.pending_logs_ref [
    | [] ↦ s
    | x ∷ xs ↦ flush_lines behavior (x ∷ xs) s
  ]

  unfoldable pub sync_buffered_logs : Stream A → Stream A
  unfolding record_buffered_dropped_lines
  sync_buffered_logs s =
      let buffered = s.buffered_logs_ref in
      let max = s.max_log_lines_ref in
      let s₁ =
        if ltb max (length buffered)
        then record (record_buffered_dropped_lines (length buffered - max) s) {
          buffered_logs_ref = drop (length buffered - max) buffered;
        }
        else s in
      record s₁ { buffered_count = length s₁.buffered_logs_ref }

  pub abort : ℕ → Stream A → Stream A
  abort c s = record s { aborted = c ∷ s.aborted }

  -- The idle watchdog of `handleFlushTick`, by the current controller.
  unfoldable pub abort_silent : Option ℕ → ℕ → Stream A → Stream A
  unfolding abort
  abort_silent none now s = s
  abort_silent (some c) now s =
      if ltb stream_idle_timeout_ms (now - s.last_activity_ref) then abort c s else s

  unfoldable pub handle_flush_tick : ℕ → Stream A → Stream A
  handle_flush_tick now s =
      let s₁ = abort_silent s.abort_controller_ref now s in
      if s₁.is_stream_paused_ref then sync_buffered_logs s₁ else flush_pending_logs none s₁

  unfoldable pub stop_flush_interval : Stream A → Stream A
  stop_flush_interval s = record s { flush_interval_ref = false }

  -- Aborts the current connection, if there is one, and forgets it.
  unfoldable pub abort_current : Stream A → Stream A
  unfolding abort
  abort_current s = elim s.abort_controller_ref [
    | none ↦ s
    | some c ↦ record (abort c s) { abort_controller_ref = none }
  ]

  unfoldable pub stop_streaming : Stream A → Stream A
  unfolding reset_pause_and_buffer abort_current
  stop_streaming s =
      record (reset_pause_and_buffer (abort_current (record s { stop_requested_ref = true }))) {
        is_streaming = false;
        is_reconnecting = false;
      }

  -- The branch of `togglePauseStreaming` that resumes.
  unfoldable pub resume : Stream A → Stream A
  resume s =
      let s₁ = record s {
        is_stream_paused_ref = false;
        is_stream_paused = false;
        buffered_count = 0;
      } in
      elim s.buffered_logs_ref [
        | [] ↦ s₁
        | x ∷ xs ↦
            flush_pending_logs (some smooth) (record s₁ {
              pending_logs_ref = s.pending_logs_ref ++ x ∷ xs;
              buffered_logs_ref = [];
            })
      ]

  unfoldable pub toggle_pause_streaming : Stream A → Stream A
  toggle_pause_streaming s =
      if not s.is_streaming
      then s
      else if s.is_stream_paused
      then resume s
      else record (flush_pending_logs none s) {
        is_stream_paused_ref = true;
        is_stream_paused = true;
      }

  unfoldable pub clear_logs : Stream A → Stream A
  unfolding reset_dropped_count
  clear_logs s =
      reset_dropped_count (record s { pending_logs_ref = []; logs = []; logs_length_ref = 0 })
