-- ===== src/LogStream/Ring/Ticks.antt =====
-- Arrivals and ticks of the flush timer keep the invariant and the lines of a running stream.
use logdeck.Base.{
  ℕ, ◌≡◌, refl, sym, ap, ◌∙◌, ◌≡⟨◌⟩◌, ◌∎, inl, inr, true, false, none, List, [], ◌∷◌, ◌++◌,
  append-nil, append_assoc, if◌then◌else◌, Bool-cases, true-ne-false, length, last_n,
  last_n-append_last_n, last_n-append_right,
}
use logdeck.LogStream.State.{Stream}
use logdeck.LogStream.{sync_buffered_logs, flush_pending_logs, handle_flush_tick}
use logdeck.LogStream.Session.{Item, entry, heartbeat, deliver}
use logdeck.LogStream.Flush.{
  Flushed, KeepsView, flush_pending_logs-Flushed, Flushed-IsCapped, sync_buffered_logs-KeepsView,
  sync_buffered_logs-buffered, abort_silent_aborts,
}
use logdeck.LogStream.Ring.{arrive, arrived, contents, IsRunning, Fed, held-Fed}

-- One tick of the flush timer, behind the watchdog.
unfoldable pub tick_lines : {A : Type 0} → Stream A → Stream A
tick_lines s = if s.is_stream_paused_ref then sync_buffered_logs s else flush_pending_logs none s

module _ {A : Type 0} where
  -- A step that moves nothing out of sight of `contents`.
  contents-Fed :
      {s t : Stream A} (xs : List A)
      → IsRunning t
      → t.max_log_lines_ref ≡ s.max_log_lines_ref
      → contents t ≡ contents s ++ xs
      → Fed s xs t
  contents-Fed {s} xs r m e = record {
    running = r;
    max = m;
    held = ap (last_n s.max_log_lines_ref) e;
  }

  pub deliver-paused :
      (x : A) (s : Stream A)
      → s.is_stream_paused_ref ≡ true
      → deliver (entry x) s ≡ record s { buffered_logs_ref = s.buffered_logs_ref ++ x ∷ [] }
  unfolding deliver
  deliver-paused x s e = rw e refl

  pub deliver-live :
      (x : A) (s : Stream A)
      → s.is_stream_paused_ref ≡ false
      → deliver (entry x) s ≡ record s { pending_logs_ref = s.pending_logs_ref ++ x ∷ [] }
  unfolding deliver
  deliver-live x s e = rw e refl

  pub deliver-Fed :
      (item : Item A) (s : Stream A) → IsRunning s → Fed s (arrived (arrive item)) (deliver item s)
  unfolding deliver
  deliver-Fed heartbeat s r = contents-Fed [] r refl (sym (append-nil (contents s)))
  deliver-Fed (entry x) s r = elim (Bool-cases s.is_stream_paused_ref) [
    | inl e ↦ rw (deliver-paused x s e) (
        contents-Fed (x ∷ [])
          (record {
            capped = record { counted = r.capped.counted; capped = r.capped.capped };
            synced = r.synced;
            quiet = r.quiet;
            live = λ h. cc;
          })
          refl (simp append_assoc))
    | inr e ↦ rw (deliver-live x s e) (
        contents-Fed (x ∷ [])
          (record {
            capped = record { counted = r.capped.counted; capped = r.capped.capped };
            synced = r.synced;
            quiet = λ h. cc;
            live = r.live;
          })
          refl (rw (r.live e) (simp (append_assoc, append-nil))))
  ]

  pub flush-held :
      {s t : Stream A}
      → Flushed s t
      → last_n s.max_log_lines_ref (contents t) ≡ last_n s.max_log_lines_ref (contents s)
  flush-held {s} {t} f =
      last_n n (contents t)
      ≡⟨ (rw (f.logs, f.pending, f.buffered) refl) ⟩
        last_n n (last_n n (s.logs ++ s.pending_logs_ref) ++ s.buffered_logs_ref)
      ≡⟨ last_n-append_last_n n (s.logs ++ s.pending_logs_ref) s.buffered_logs_ref ⟩
        last_n n ((s.logs ++ s.pending_logs_ref) ++ s.buffered_logs_ref)
      ≡⟨ ap (last_n n) (append_assoc s.logs s.pending_logs_ref s.buffered_logs_ref) ⟩
        last_n n (contents s) ∎
    where
      n : ℕ
      n = s.max_log_lines_ref

  sync-held :
      (s : Stream A)
      → last_n s.max_log_lines_ref (contents (sync_buffered_logs s))
        ≡ last_n s.max_log_lines_ref (contents s)
  sync-held s =
      last_n n (contents (sync_buffered_logs s))
      ≡⟨ (rw (k.logs, k.pending, sync_buffered_logs-buffered s) refl) ⟩
        last_n n (s.logs ++ (s.pending_logs_ref ++ last_n n s.buffered_logs_ref))
      ≡⟨ ap (last_n n) (sym (append_assoc s.logs s.pending_logs_ref _)) ⟩
        last_n n ((s.logs ++ s.pending_logs_ref) ++ last_n n s.buffered_logs_ref)
      ≡⟨ last_n-append_right n (s.logs ++ s.pending_logs_ref) s.buffered_logs_ref ⟩
        last_n n ((s.logs ++ s.pending_logs_ref) ++ s.buffered_logs_ref)
      ≡⟨ ap (last_n n) (append_assoc s.logs s.pending_logs_ref s.buffered_logs_ref) ⟩
        last_n n (contents s) ∎
    where
      n : ℕ
      n = s.max_log_lines_ref

      k : KeepsView s (sync_buffered_logs s)
      k = sync_buffered_logs-KeepsView s

  -- A flush of a stream that is not paused.
  pub flush-Fed :
      {s t : Stream A} → IsRunning s → s.is_stream_paused_ref ≡ false → Flushed s t → Fed s [] t
  flush-Fed r live f =
      held-Fed
        (record {
          capped = Flushed-IsCapped f;
          synced = f.flag ∙ r.synced ∙ sym f.paused;
          quiet = λ h. f.pending;
          live = λ h. f.buffered ∙ r.live live;
        })
        f.max (flush-held f)

  sync-Fed :
      (s : Stream A) → IsRunning s → s.is_stream_paused_ref ≡ true → Fed s [] (sync_buffered_logs s)
  sync-Fed s r paused =
      held-Fed
        (record {
          capped = record {
            counted = k.counted ∙ r.capped.counted ∙ ap length (sym k.logs);
            capped = rw (k.logs, k.max) r.capped.capped;
          };
          synced = k.paused ∙ r.synced ∙ sym k.paused_ref;
          quiet = λ h. k.pending ∙ r.quiet paused;
          live = λ h. absurd (true-ne-false (sym paused ∙ sym k.paused_ref ∙ h));
        })
        k.max (sync-held s)
    where
      k : KeepsView s (sync_buffered_logs s)
      k = sync_buffered_logs-KeepsView s

  pub tick_lines-Fed : (s : Stream A) → IsRunning s → Fed s [] (tick_lines s)
  unfolding tick_lines
  tick_lines-Fed s r = elim (Bool-cases s.is_stream_paused_ref) [
    | inl e ↦ simp e (sync-Fed s r e)
    | inr e ↦ simp e (flush-Fed r e (flush_pending_logs-Flushed none s r.capped))
  ]

  pub IsRunning-aborted :
      (s : Stream A) (cs : List ℕ) → IsRunning s → IsRunning (record s { aborted = cs })
  IsRunning-aborted s cs r = record {
    capped = record { counted = r.capped.counted; capped = r.capped.capped };
    synced = r.synced;
    quiet = r.quiet;
    live = r.live;
  }

  pub handle_flush_tick-Fed :
      (now : ℕ) (s : Stream A) → IsRunning s → Fed s [] (handle_flush_tick now s)
  unfolding handle_flush_tick tick_lines
  handle_flush_tick-Fed now s r =
      let (cs, e) = abort_silent_aborts s.abort_controller_ref now s in
      let f = tick_lines-Fed (record s { aborted = cs }) (IsRunning-aborted s cs r) in
      rw e (record { running = f.running; max = f.max; held = f.held })

  logs-tick_lines :
      (s : Stream A)
      → IsRunning s
      → s.is_stream_paused_ref ≡ false
      → (tick_lines s).logs ≡ last_n s.max_log_lines_ref (contents s)
  unfolding tick_lines
  logs-tick_lines s r live = simp live (
      (flush_pending_logs-Flushed none s r.capped).logs
      ∙ ap (λ xs. last_n s.max_log_lines_ref (s.logs ++ xs))
          (sym (ap (s.pending_logs_ref ++◌) (r.live live) ∙ append-nil s.pending_logs_ref)))

  -- A tick that finds the stream live shows all that it holds, up to the cap.
  pub logs-handle_flush_tick :
      (now : ℕ) (s : Stream A)
      → IsRunning s
      → s.is_stream_paused_ref ≡ false
      → (handle_flush_tick now s).logs ≡ last_n s.max_log_lines_ref (contents s)
  unfolding handle_flush_tick tick_lines
  logs-handle_flush_tick now s r live =
      let (cs, e) = abort_silent_aborts s.abort_controller_ref now s in
      rw e (logs-tick_lines (record s { aborted = cs }) (IsRunning-aborted s cs r) live)
