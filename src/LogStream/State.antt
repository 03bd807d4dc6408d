-- ===== src/LogStream/State.antt =====
-- The React state and the refs of the hook in
-- frontend/src/features/containers/hooks/use-container-log-stream.ts.
use logdeck.Base.{ℕ, Bool, true, false, ◌&&◌, Option, none, some, List}
use logdeck.Base.Int.{ℤ}
use logdeck.Base.Text.{Text, truthy}

abbrev pub stream_idle_timeout_ms : ℕ
stream_idle_timeout_ms = 45000

pub data ScrollBehavior : Type 0 where
  auto instant smooth : ScrollBehavior

pub record IndexRange : Type 0 where
  pub start : ℕ
  pub end : ℤ

-- What a promise is rejected with: an `Error`, or a value that is none.
pub data Failure : Type 0 where
  error : (name message : Text) → Failure
  not_error : Failure

-- The calls that the hook makes of its callers' functions, oldest first in `calls`.
pub data Call : Type 0 where
  reset_state : Call
  fetch_error stream_error : Failure → Call
  scroll_to_bottom : Option ScrollBehavior → Call
  stream_logs : (tail controller : ℕ) → Call

-- The parameters of the hook that its control flow reads.
pub record Options : Type 0 where
  pub container_id : Option Text
  pub host : Option Text
  pub tail : ℕ

-- A controller of the source is its number here; `aborted` lists those that were aborted.
pub record Stream (A : Type 0) : Type 0 where
  pub logs : List A
  pub is_loading_logs : Bool
  pub is_streaming : Bool
  pub is_reconnecting : Bool
  pub is_stream_paused : Bool
  pub buffered_count : ℕ
  pub dropped_count : ℕ
  pub buffered_dropped_count : ℕ
  pub animated_range : Option IndexRange
  pub abort_controller_ref : Option ℕ
  pub stop_requested_ref : Bool
  pub last_activity_ref : ℕ
  pub is_stream_paused_ref : Bool
  pub buffered_logs_ref : List A
  pub pending_logs_ref : List A
  pub logs_length_ref : ℕ
  pub dropped_count_ref : ℕ
  pub buffered_dropped_count_ref : ℕ
  pub max_log_lines_ref : ℕ
  pub flush_interval_ref : Bool
  pub scroll_timeout_ref : Option (ℕ × Option ScrollBehavior)
  pub animation_timeout_ref : Bool
  pub aborted : List ℕ
  pub next_controller : ℕ
  pub calls : List Call

abbrev pub present : Option Text → Bool
present none = false
present (some s) = truthy s

-- `!containerId || !host` is its negation.
unfoldable pub has_target : Options → Bool
has_target o = present o.container_id && present o.host

abbrev pub is_smooth : Option ScrollBehavior → Bool
is_smooth (some smooth) = true
is_smooth _ = false
