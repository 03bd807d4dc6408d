-- ===== src/LogStream/Ring/Pause.antt =====
-- So does the pause, whichever way it is toggled.
use logdeck.Base.{
  ◌≡◌, refl, sym, ap, ◌∙◌, inl, inr, true, false, none, some, List, [], ◌∷◌, ◌++◌, append-nil,
  arith, Bool-cases, true-ne-false, last_n,
}
use logdeck.LogStream.State.{smooth, Stream}
use logdeck.LogStream.{flush_pending_logs, resume, toggle_pause_streaming}
use logdeck.LogStream.Flush.{flush_pending_logs-Flushed, Flushed-IsCapped}
use logdeck.LogStream.Ring.{
  Feed, arrive, tick, toggle_pause, feed, arrived, contents, IsRunning, Fed, held-Fed,
}
use logdeck.LogStream.Ring.Ticks.{flush-held, flush-Fed, deliver-Fed, handle_flush_tick-Fed}

module _ {A : Type 0} where
  pub resume_nil :
      (s : Stream A)
      → s.buffered_logs_ref ≡ []
      → resume s
        ≡ record s { is_stream_paused_ref = false; is_stream_paused = false; buffered_count = 0 }
  unfolding resume
  resume_nil s e = ground arith

  -- A stream whose backlog is about to be flushed.
  abbrev pub released : Stream A → Stream A
  released s = record s {
    is_stream_paused_ref = false;
    is_stream_paused = false;
    buffered_count = 0;
    pending_logs_ref = s.pending_logs_ref ++ s.buffered_logs_ref;
    buffered_logs_ref = [];
  }

  pub resume_cons :
      (s : Stream A) {x : A} {xs : List A}
      → s.buffered_logs_ref ≡ x ∷ xs
      → resume s ≡ flush_pending_logs (some smooth) (released s)
  unfolding resume
  resume_cons s e = ground arith

  pub released-IsRunning : (s : Stream A) → IsRunning s → IsRunning (released s)
  released-IsRunning s r = record {
    capped = record { counted = r.capped.counted; capped = r.capped.capped };
    synced = refl;
    quiet = λ h. absurd (true-ne-false (sym h));
    live = λ h. refl;
  }

  released-contents : (s : Stream A) → contents (released s) ≡ contents s
  released-contents s = ap (s.logs ++◌) (append-nil (s.pending_logs_ref ++ s.buffered_logs_ref))

  resume-Fed : (s : Stream A) → IsRunning s → Fed s [] (resume s)
  resume-Fed s r = by_backlog s.buffered_logs_ref refl
    where
      by_backlog : (backlog : List A) → s.buffered_logs_ref ≡ backlog → Fed s [] (resume s)
      by_backlog [] e = rw (resume_nil s e) (
          held-Fed
            (record {
              capped = record { counted = r.capped.counted; capped = r.capped.capped };
              synced = refl;
              quiet = λ h. absurd (true-ne-false (sym h));
              live = λ h. e;
            })
            refl refl)
      by_backlog (x ∷ xs) e =
          let open_s = released-IsRunning s r in
          let f =
            flush-Fed open_s refl
              (flush_pending_logs-Flushed (some smooth) (released s) open_s.capped) in
          rw (resume_cons s e) (
            held-Fed f.running f.max (
              f.held
              ∙ ap (last_n s.max_log_lines_ref)
                  (append-nil (contents (released s)) ∙ released-contents s)))

  -- `togglePauseStreaming` when it pauses.
  abbrev pub paused_now : Stream A → Stream A
  paused_now s = record (flush_pending_logs none s) {
    is_stream_paused_ref = true;
    is_stream_paused = true;
  }

  pause-Fed : (s : Stream A) → IsRunning s → Fed s [] (paused_now s)
  pause-Fed s r =
      let f = flush_pending_logs-Flushed none s r.capped in
      let c = Flushed-IsCapped f in
      held-Fed
        (record {
          capped = record { counted = c.counted; capped = c.capped };
          synced = refl;
          quiet = λ h. f.pending;
          live = λ h. absurd (true-ne-false h);
        })
        f.max (flush-held f)

  toggle_pause_streaming-Fed : (s : Stream A) → IsRunning s → Fed s [] (toggle_pause_streaming s)
  unfolding toggle_pause_streaming
  toggle_pause_streaming-Fed s r = elim (Bool-cases s.is_streaming) [
    | inr idle ↦ simp idle (held-Fed r refl refl)
    | inl on ↦ elim (Bool-cases s.is_stream_paused) [
      | inl paused ↦ simp (on, paused) (resume-Fed s r)
      | inr shown ↦ simp (on, shown) (pause-Fed s r)
    ]
  ]

  pub feed-Fed : (f : Feed A) (s : Stream A) → IsRunning s → Fed s (arrived f) (feed f s)
  unfolding feed
  feed-Fed (arrive item) s r = deliver-Fed item s r
  feed-Fed (tick now) s r = handle_flush_tick-Fed now s r
  feed-Fed toggle_pause s r = toggle_pause_streaming-Fed s r
