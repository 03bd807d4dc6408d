-- ===== src/LogStream/Tests.antt =====
-- Runs of the stream at concrete inputs, and the theorems about it applied to them.
use logdeck.Base.{ℕ, ◌≡◌, refl, true, false, none, some, List, [], ◌∷◌, ◌++◌, arith, length, last_n}
use logdeck.Base.Text.{Text, codes}
use logdeck.LogStream.State.{error, stream_logs, Options, Stream, has_target}
use logdeck.LogStream.{
  abort_silent, handle_flush_tick, flush_pending_logs, flush_lines, stop_streaming,
  toggle_pause_streaming, sync_buffered_logs, resume,
}
use logdeck.LogStream.Session.{
  reconnect_delay, Phase, Session, entry, heartbeat, wait_over, received, ended, failed, fetched,
  fetch_logs, begin_attempt, start_streaming, step, deliver,
}
use logdeck.LogStream.Flush.{IsCapped}
use logdeck.LogStream.Ring.{
  Feed, arrive, tick, toggle_pause, feed, feeds, arrivals, contents, IsRunning,
}
use logdeck.LogStream.Ring.Started.{started, feeds-contents, screen_lem}
use logdeck.LogStream.Counters.{Counted, feeds-Counted}
use logdeck.LogStream.Backoff.{begin_attempt-abort_silent}
use logdeck.LogStream.Lifecycle.{IsStopped, step-stop_streaming}
use logdeck.LogStream.Reconnect.{IsRetrying, step-IsLoss}
use logdeck.LogStream.Overlap.{restart_overlap, fetched_lem}

abbrev lower : Text → Text
lower s = s

abbrev options : Options
options = record { container_id = some (codes "web-1"); host = some (codes "local"); tail = 200 }

-- The hook when it is mounted, for at most three lines.
abbrev mounted : Stream ℕ
mounted = record {
  logs = [];
  is_loading_logs = false;
  is_streaming = false;
  is_reconnecting = false;
  is_stream_paused = false;
  buffered_count = 0;
  dropped_count = 0;
  buffered_dropped_count = 0;
  animated_range = none;
  abort_controller_ref = none;
  stop_requested_ref = false;
  last_activity_ref = 0;
  is_stream_paused_ref = false;
  buffered_logs_ref = [];
  pending_logs_ref = [];
  logs_length_ref = 0;
  dropped_count_ref = 0;
  buffered_dropped_count_ref = 0;
  max_log_lines_ref = 3;
  flush_interval_ref = false;
  scroll_timeout_ref = none;
  animation_timeout_ref = false;
  aborted = [];
  next_controller = 0;
  calls = [];
}

-- Two lines, a tick, a pause, three lines behind it, a tick, and on again.
abbrev script : List (Feed ℕ)
script =
    arrive (entry 1)
    ∷ arrive (entry 2)
    ∷ tick 500
    ∷ toggle_pause
    ∷ arrive (entry 3)
    ∷ arrive heartbeat
    ∷ arrive (entry 4)
    ∷ tick 1000
    ∷ toggle_pause
    ∷ arrive (entry 5)
    ∷ []

-- A stream in the middle of its first connection, with full rows and one line in the queue.
abbrev running : Stream ℕ
running = record mounted {
  logs = 1 ∷ 2 ∷ 3 ∷ [];
  logs_length_ref = 3;
  pending_logs_ref = 4 ∷ [];
  is_streaming = true;
  flush_interval_ref = true;
  abort_controller_ref = some 0;
  next_controller = 1;
}

abbrev reader : Session
reader = record {
  attempt = 0;
  controller = 0;
  has_received_first_entry = true;
  phase = Phase.reading;
}

running-IsCapped : IsCapped running
running-IsCapped = record { counted = refl; capped = omega arith }

running-IsRunning : IsRunning running
running-IsRunning = record {
  capped = running-IsCapped;
  synced = refl;
  quiet = λ h. cc;
  live = λ h. refl;
}

feeds-contents_example :
    let t = feeds script (started options 0 mounted) in
    IsRunning t × (last_n 3 (contents t) ≡ last_n 3 (arrivals script))
unfolding has_target
feeds-contents_example = feeds-contents options 0 mounted refl script

screen_lem_example :
    (handle_flush_tick 1500 (feeds script (started options 0 mounted))).logs ≡ 3 ∷ 4 ∷ 5 ∷ []
unfolding feed deliver toggle_pause_streaming handle_flush_tick abort_silent flush_pending_logs
    flush_lines sync_buffered_logs resume has_target start_streaming
screen_lem_example = screen_lem options 0 mounted refl script 1500 refl

feeds-Counted_example : Counted running 5 (feeds script running)
feeds-Counted_example = feeds-Counted script running running-IsRunning

-- Nine lines came to three rows, which is five dropped and one in the queue.
counts_of_script :
    let t = feeds script running in
    (t.dropped_count ≡ 5) × (t.dropped_count_ref ≡ 5) × (t.buffered_dropped_count ≡ 0)
unfolding feed deliver toggle_pause_streaming handle_flush_tick abort_silent flush_pending_logs
    flush_lines sync_buffered_logs resume
counts_of_script = (refl, refl, refl)

begin_attempt-abort_silent_example :
    let s' = (begin_attempt options 100 (record reader { attempt = 6 }) running).1 in
    (s'.abort_controller_ref ≡ some 1) × (abort_silent s'.abort_controller_ref 30100 s' ≡ s')
unfolding reconnect_delay
begin_attempt-abort_silent_example =
    begin_attempt-abort_silent options 100 30100 (record reader { attempt = 6 }) running
      (omega arith) (omega arith) (omega arith)

step-stop_streaming_example :
    let r = step options lower (received (entry 5) 600) reader (stop_streaming running) in
    IsStopped r × (r.1.abort_controller_ref ≡ none)
step-stop_streaming_example =
    step-stop_streaming options lower (received (entry 5) 600) reader running refl running-IsCapped
      tt

-- A network error on the first connection.
step-IsLoss_example :
    let r =
      step options lower (failed (error (codes "TypeError") (codes "x")) 900) reader running in
    let r' = step options lower wait_over r.0 r.1 in
    IsRetrying reader running r
    × (r'.0.phase ≡ Phase.reading)
    × (r'.1.calls ≡ r.1.calls ++ stream_logs 0 1 ∷ [])
    × (r'.1.logs ≡ running.logs)
step-IsLoss_example =
    step-IsLoss options lower (failed (error (codes "TypeError") (codes "x")) 900) reader running
      refl tt refl refl refl

restart_overlap_example :
    let s' = (start_streaming options 1000 (stop_streaming running)).1 in
    let (t'', s'') = step options lower (ended 1100) reader s' in
    (t''.phase ≡ Phase.closed)
    × (s''.is_streaming ≡ false)
    × (s''.flush_interval_ref ≡ false)
    × (s''.abort_controller_ref ≡ some 1)
unfolding has_target
restart_overlap_example =
    restart_overlap options lower 1000 1100 reader running refl refl refl (omega arith)

fetched_lem_example :
    let t = fetched (1 ∷ 2 ∷ 3 ∷ 4 ∷ 5 ∷ []) (fetch_logs options mounted) in
    (t.logs ≡ 3 ∷ 4 ∷ 5 ∷ [])
    × (t.logs_length_ref ≡ length t.logs)
    × (t.dropped_count_ref ≡ 2)
    × (t.dropped_count ≡ t.dropped_count_ref)
    × (t.is_stream_paused_ref ≡ false)
    × (t.buffered_logs_ref ≡ [])
    × (t.is_loading_logs ≡ false)
unfolding has_target
fetched_lem_example = fetched_lem options (1 ∷ 2 ∷ 3 ∷ 4 ∷ 5 ∷ []) mounted refl
