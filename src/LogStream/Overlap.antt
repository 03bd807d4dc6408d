-- ===== src/LogStream/Overlap.antt =====
-- Two places where the hook's counters and timers are shared by more than one owner.
use logdeck.Base.{
  ℕ, ◌+◌, ◌-◌, ◌<◌, ◌≡◌, refl, sym, ap, ◌∙◌, ◌≢◌, true, false, none, some, List, [], arith, length,
  last_n,
}
use mathlib.Core.Path.{subst}
use logdeck.Base.Text.{Text}
use logdeck.LogStream.State.{Options, Stream, has_target}
use logdeck.LogStream.{stop_flush_interval, stop_streaming}
use logdeck.LogStream.Session.{
  Phase, Session, ended, finish, is_current, after_stream, start_streaming, fetch_logs, fetched,
  react, step,
}
use logdeck.LogStream.Flush.{flush_pending_logs-KeepsControl, length-cap_lines, cap_lines-eq-last_n}
use logdeck.LogStream.Lifecycle.{
  settle-streaming, settle-interval, settle-other, stop_streaming-Stopping,
}

module _ {A : Type 0} (options : Options) where
  -- What a stream looks like behind a restart.
  record Restarted (c : ℕ) (s : Stream A) : Type 0 where
    current : s.abort_controller_ref ≡ some c
    going : s.stop_requested_ref ≡ false
    timed : s.flush_interval_ref ≡ true

  start_streaming-Restarted :
      (now : ℕ) (s : Stream A)
      → has_target options ≡ true
      → Restarted s.next_controller (start_streaming options now s).1
  unfolding start_streaming
  start_streaming-Restarted now s target =
      rw (target, start_streaming) (record { current = refl; going = refl; timed = refl })

  -- The old session sees the controller of the new one, and finishes.
  finish_other :
      (t : Session) (s : Stream A) {c : ℕ}
      → Restarted c s
      → c ≢ t.controller
      → ((finish t s).1.is_streaming ≡ false)
        × ((finish t s).1.flush_interval_ref ≡ false)
        × ((finish t s).1.abort_controller_ref ≡ some c)
  unfolding finish
  finish_other t s r ne =
      let k = flush_pending_logs-KeepsControl none (stop_flush_interval s) in
      (
        settle-streaming t _,
        settle-interval t _ ∙ k.flush_interval,
        settle-other t _ (k.abort_controller ∙ r.current) ne,
      )

  finish-closed : (t : Session) (s : Stream A) → (finish t s).0.phase ≡ Phase.closed
  unfolding finish
  finish-closed t s = refl

  after_stream-other :
      (now : ℕ) (t : Session) (s : Stream A) {c : ℕ}
      → Restarted c s
      → c ≢ t.controller
      → after_stream options now t s ≡ finish t s
  unfolding after_stream
  after_stream-other now t s {c} r ne =
      let other : is_current t s ≡ false = rw r.current (ground arith) in
      let going = r.going in simp (going, other)

  -- A stream that is stopped and started again before the loop of its first session has seen the
  -- stop: when the old connection ends, the old session closes, takes the flush timer away and says
  -- that nothing is streaming, while the current controller is still the one of the new session.
  pub restart_overlap :
      (lower : Text → Text) (now later : ℕ) (t : Session) (s : Stream A)
      → has_target options ≡ true
      → t.phase ≡ Phase.reading
      → s.abort_controller_ref ≡ some t.controller
      → t.controller < s.next_controller
      → let s' = (start_streaming options now (stop_streaming s)).1 in
        let (t'', s'') = step options lower (ended later) t s' in
        (t''.phase ≡ Phase.closed)
        × (s''.is_streaming ≡ false)
        × (s''.flush_interval_ref ≡ false)
        × (s''.abort_controller_ref ≡ some s.next_controller)
  unfolding step
  restart_overlap lower now later t s target phase current old =
      let stop = stop_streaming-Stopping s current in
      let s' : Stream A = (start_streaming options now (stop_streaming s)).1 in
      let r : Restarted s.next_controller s' =
        subst (λ c. Restarted c s') stop.next_controller
          (start_streaming-Restarted now (stop_streaming s) target) in
      let other : s.next_controller ≢ t.controller = λ e. omega arith in
      let e : react options lower t.phase (ended later) t s' ≡ finish t s' =
        ap (λ p. react options lower p (ended later) t s') phase
        ∙ after_stream-other later t s' r other in
      let f = finish_other t s' r other in rw e (finish-closed t s', f.0, f.1, f.2)

  -- What the answer of a fetch does to any state.
  record Shown (entries : List A) (s t : Stream A) : Type 0 where
    logs : t.logs ≡ last_n s.max_log_lines_ref entries
    counted : t.logs_length_ref ≡ length t.logs
    dropped : t.dropped_count_ref ≡ s.dropped_count_ref + (length entries - s.max_log_lines_ref)
    told : s.dropped_count ≡ s.dropped_count_ref → t.dropped_count ≡ t.dropped_count_ref
    paused : t.is_stream_paused_ref ≡ s.is_stream_paused_ref
    buffered : t.buffered_logs_ref ≡ s.buffered_logs_ref
    loading : t.is_loading_logs ≡ false

  fetched-Shown : (entries : List A) (s : Stream A) → Shown entries s (fetched entries s)
  unfolding fetched
  fetched-Shown entries s =
      let n = length-cap_lines s.max_log_lines_ref entries in
      record {
        logs = ground (arith, cap_lines-eq-last_n s.max_log_lines_ref entries);
        counted = ground arith;
        dropped = ground (arith, n);
        told = λ h. ground (arith, n);
        paused = ground arith;
        buffered = ground arith;
        loading = ground arith;
      }

  record Fetching (s t : Stream A) : Type 0 where
    dropped : t.dropped_count_ref ≡ 0
    told : t.dropped_count ≡ 0
    paused : t.is_stream_paused_ref ≡ false
    buffered : t.buffered_logs_ref ≡ []
    max : t.max_log_lines_ref ≡ s.max_log_lines_ref

  fetch_logs-Fetching :
      (s : Stream A) → has_target options ≡ true → Fetching s (fetch_logs options s)
  unfolding fetch_logs
  fetch_logs-Fetching s target =
      rw (target, fetch_logs)
        (record { dropped = refl; told = refl; paused = refl; buffered = refl; max = refl })

  -- A fetch shows the last `maxLogLines` entries, and adds those that it left out, which were never
  -- on screen, to `droppedCount`, by which pins are moved.
  pub fetched_lem :
      (entries : List A) (s : Stream A)
      → has_target options ≡ true
      → let t = fetched entries (fetch_logs options s) in
        (t.logs ≡ last_n s.max_log_lines_ref entries)
        × (t.logs_length_ref ≡ length t.logs)
        × (t.dropped_count_ref ≡ length entries - s.max_log_lines_ref)
        × (t.dropped_count ≡ t.dropped_count_ref)
        × (t.is_stream_paused_ref ≡ false)
        × (t.buffered_logs_ref ≡ [])
        × (t.is_loading_logs ≡ false)
  fetched_lem entries s target =
      let b = fetch_logs-Fetching s target in
      let f = fetched-Shown entries (fetch_logs options s) in
      (
        f.logs ∙ ap (λ n. last_n n entries) b.max,
        f.counted,
        omega (arith, f.dropped, b.dropped, b.max),
        f.told (b.told ∙ sym b.dropped),
        f.paused ∙ b.paused,
        f.buffered ∙ b.buffered,
        f.loading,
      )
