-- ===== src/LogStream/Flush.antt =====
-- What `flushPendingLogs` and the pause leave in the state, one lemma to a function.
use logdeck.Base.{
  ℕ, ◌+◌, ◌-◌, ◌≤◌, min, ◌≡◌, refl, sym, ap, ◌∙◌, Option, none, some, List, [], ◌∷◌, ◌++◌, arith,
  length, last_n, length-append, length-last_n, append-nil, last_n-eq_self, length-drop, Bool-cases,
  inl, inr, ltb,
}
use logdeck.LogStream.State.{stream_idle_timeout_ms, ScrollBehavior, Stream}
use logdeck.LogStream.{cap_lines, flush_lines, flush_pending_logs, sync_buffered_logs, abort_silent}

module _ {A : Type 0} where
  pub cap_lines-eq-last_n : (max : ℕ) (xs : List A) → cap_lines max xs ≡ last_n max xs
  unfolding cap_lines
  cap_lines-eq-last_n max xs = ground (arith, last_n-eq_self max xs)

  pub length-cap_lines : (max : ℕ) (xs : List A) → length (cap_lines max xs) ≡ min max (length xs)
  length-cap_lines max xs = ap length (cap_lines-eq-last_n max xs) ∙ length-last_n max xs

  -- The state in which `logsLengthRef` is right and the cap holds.
  pub record IsCapped (s : Stream A) : Type 0 where
    pub counted : s.logs_length_ref ≡ length s.logs
    pub capped : length s.logs ≤ s.max_log_lines_ref

  -- What a flush does to the fields that other callbacks read.
  pub record Flushed (s t : Stream A) : Type 0 where
    pub logs : t.logs ≡ last_n s.max_log_lines_ref (s.logs ++ s.pending_logs_ref)
    pub counted : t.logs_length_ref ≡ length t.logs
    pub pending : t.pending_logs_ref ≡ []
    pub buffered : t.buffered_logs_ref ≡ s.buffered_logs_ref
    pub max : t.max_log_lines_ref ≡ s.max_log_lines_ref
    pub paused : t.is_stream_paused_ref ≡ s.is_stream_paused_ref
    pub flag : t.is_stream_paused ≡ s.is_stream_paused
    pub told : s.dropped_count ≡ s.dropped_count_ref → t.dropped_count ≡ t.dropped_count_ref
    pub dropped :
        t.dropped_count_ref
        ≡ s.dropped_count_ref
          + min (length s.logs) (length s.logs + length s.pending_logs_ref - s.max_log_lines_ref)
    pub buffered_dropped :
        t.buffered_dropped_count_ref
        ≡ s.buffered_dropped_count_ref
          + (length s.logs
              + length s.pending_logs_ref
              - s.max_log_lines_ref
              - min
                  (length s.logs)
                  (length s.logs + length s.pending_logs_ref - s.max_log_lines_ref))

  -- The fields that `flush_lines` writes, as it writes them.
  module _ (behavior : Option ScrollBehavior) (pending : List A) (s : Stream A) where
    logs-flush_lines :
        (flush_lines behavior pending s).logs ≡ cap_lines s.max_log_lines_ref (s.logs ++ pending)
    unfolding flush_lines
    logs-flush_lines = ground arith

    counted-flush_lines :
        IsCapped s
        → (flush_lines behavior pending s).logs_length_ref
          ≡ length (flush_lines behavior pending s).logs
    counted-flush_lines c = rw logs-flush_lines (
        unfold flush_lines in
        ground (
          arith,
          length-cap_lines s.max_log_lines_ref (s.logs ++ pending),
          length-append s.logs pending,
        ))

    flush_lines-Flushed :
        s.pending_logs_ref ≡ pending → IsCapped s → Flushed s (flush_lines behavior pending s)
    unfolding flush_lines
    flush_lines-Flushed e c = record {
      logs = rw e (logs-flush_lines ∙ cap_lines-eq-last_n s.max_log_lines_ref (s.logs ++ pending));
      counted = counted-flush_lines c;
      pending = ground arith;
      buffered = ground arith;
      max = ground arith;
      paused = ground arith;
      flag = ground arith;
      told = λ h. ground arith;
      dropped = rw e (ground arith);
      buffered_dropped = rw e (ground arith);
    }

  flush_pending_logs_nil :
      (behavior : Option ScrollBehavior) (s : Stream A)
      → s.pending_logs_ref ≡ []
      → flush_pending_logs behavior s ≡ s
  unfolding flush_pending_logs
  flush_pending_logs_nil behavior s e = rw e refl

  flush_pending_logs_cons :
      (behavior : Option ScrollBehavior) (s : Stream A) {x : A} {xs : List A}
      → s.pending_logs_ref ≡ x ∷ xs
      → flush_pending_logs behavior s ≡ flush_lines behavior (x ∷ xs) s
  unfolding flush_pending_logs
  flush_pending_logs_cons behavior s e = ground arith

  nothing-Flushed : (s : Stream A) → s.pending_logs_ref ≡ [] → IsCapped s → Flushed s s
  nothing-Flushed s e c = record {
    logs = rw (e, append-nil) (sym (last_n-eq_self s.max_log_lines_ref s.logs c.capped));
    counted = c.counted;
    pending = e;
    buffered = refl;
    max = refl;
    paused = refl;
    flag = refl;
    told = λ h. h;
    dropped = rw e (ground arith);
    buffered_dropped = rw e (ground arith);
  }

  -- `flushPendingLogs` on both of its branches.
  pub flush_pending_logs-Flushed :
      (behavior : Option ScrollBehavior) (s : Stream A)
      → IsCapped s
      → Flushed s (flush_pending_logs behavior s)
  flush_pending_logs-Flushed behavior s c = by_pending s.pending_logs_ref refl
    where
      by_pending :
          (pending : List A)
          → s.pending_logs_ref ≡ pending
          → Flushed s (flush_pending_logs behavior s)
      by_pending [] e = rw (flush_pending_logs_nil behavior s e) (nothing-Flushed s e c)
      by_pending (x ∷ xs) e =
          rw (flush_pending_logs_cons behavior s e) (flush_lines-Flushed behavior (x ∷ xs) s e c)

  pub Flushed-IsCapped : {s t : Stream A} → Flushed s t → IsCapped t
  Flushed-IsCapped {s} {t} f = record {
    counted = f.counted;
    capped =
        rw (f.logs, f.max)
          (omega (arith, length-last_n s.max_log_lines_ref (s.logs ++ s.pending_logs_ref)));
  }

  -- The backlog that `syncBufferedLogs` keeps, and its count.
  pub sync_buffered_logs-buffered :
      (s : Stream A)
      → (sync_buffered_logs s).buffered_logs_ref ≡ last_n s.max_log_lines_ref s.buffered_logs_ref
  unfolding sync_buffered_logs
  sync_buffered_logs-buffered s =
      ground (arith, last_n-eq_self s.max_log_lines_ref s.buffered_logs_ref)

  pub record KeepsView (s t : Stream A) : Type 0 where
    pub logs : t.logs ≡ s.logs
    pub pending : t.pending_logs_ref ≡ s.pending_logs_ref
    pub counted : t.logs_length_ref ≡ s.logs_length_ref
    pub max : t.max_log_lines_ref ≡ s.max_log_lines_ref
    pub paused : t.is_stream_paused ≡ s.is_stream_paused
    pub paused_ref : t.is_stream_paused_ref ≡ s.is_stream_paused_ref
    pub dropped : t.dropped_count_ref ≡ s.dropped_count_ref
    pub told : t.dropped_count ≡ s.dropped_count
    pub buffered_dropped :
        t.buffered_dropped_count_ref + length t.buffered_logs_ref
        ≡ s.buffered_dropped_count_ref + length s.buffered_logs_ref

  pub sync_buffered_logs-KeepsView : (s : Stream A) → KeepsView s (sync_buffered_logs s)
  unfolding sync_buffered_logs
  sync_buffered_logs-KeepsView s = record {
    logs = ground arith;
    pending = ground arith;
    counted = ground arith;
    max = ground arith;
    paused = ground arith;
    paused_ref = ground arith;
    dropped = ground arith;
    told = ground arith;
    buffered_dropped =
        ground (
          arith,
          length-drop (length s.buffered_logs_ref - s.max_log_lines_ref) s.buffered_logs_ref,
        );
  }

  -- The watchdog does nothing but abort.
  pub abort_silent_aborts :
      (c : Option ℕ) (now : ℕ) (s : Stream A)
      → (cs : List ℕ) × (abort_silent c now s ≡ record s { aborted = cs })
  unfolding abort_silent
  abort_silent_aborts none now s = (s.aborted, refl)
  abort_silent_aborts (some c) now s =
      elim (Bool-cases (ltb stream_idle_timeout_ms (now - s.last_activity_ref))) [
        | inl late ↦ (c ∷ s.aborted, rw late refl)
        | inr fresh ↦ (s.aborted, rw fresh refl)
      ]

  -- A flush leaves the connection alone.
  pub record KeepsControl (s t : Stream A) : Type 0 where
    pub abort_controller : t.abort_controller_ref ≡ s.abort_controller_ref
    pub aborted : t.aborted ≡ s.aborted
    pub flush_interval : t.flush_interval_ref ≡ s.flush_interval_ref
    pub stop_requested : t.stop_requested_ref ≡ s.stop_requested_ref
    pub calls : t.calls ≡ s.calls
    pub next_controller : t.next_controller ≡ s.next_controller

  flush_lines-KeepsControl :
      (behavior : Option ScrollBehavior) (pending : List A) (s : Stream A)
      → KeepsControl s (flush_lines behavior pending s)
  unfolding flush_lines
  flush_lines-KeepsControl behavior pending s = record {
    abort_controller = ground arith;
    aborted = ground arith;
    flush_interval = ground arith;
    stop_requested = ground arith;
    calls = ground arith;
    next_controller = ground arith;
  }

  pub flush_pending_logs-KeepsControl :
      (behavior : Option ScrollBehavior) (s : Stream A)
      → KeepsControl s (flush_pending_logs behavior s)
  flush_pending_logs-KeepsControl behavior s = by_pending s.pending_logs_ref refl
    where
      by_pending :
          (pending : List A)
          → s.pending_logs_ref ≡ pending
          → KeepsControl s (flush_pending_logs behavior s)
      by_pending [] e = rw (flush_pending_logs_nil behavior s e) (record {
        abort_controller = refl;
        aborted = refl;
        flush_interval = refl;
        stop_requested = refl;
        calls = refl;
        next_controller = refl;
      })
      by_pending (x ∷ xs) e =
          rw (flush_pending_logs_cons behavior s e) (flush_lines-KeepsControl behavior (x ∷ xs) s)
