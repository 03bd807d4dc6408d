-- ===== src/LogStream/Counters.antt =====
-- The counts of dropped lines: every line is counted once, and the count for pins moves with the
-- rows on screen.
use logdeck.Base.{
  ℕ, ◌+◌, ◌-◌, ◌≤◌, ◌<◌, ◌≡◌, refl, sym, ap, ◌∙◌, ◌≡⟨◌⟩◌, ◌∎, inl, inr, none, some, List, [], ◌∷◌,
  ◌++◌, arith, Bool-cases, length, get_elem?, last_n, length-append, get_elem?-drop,
  get_elem?-append_left, length-last_n,
}
use logdeck.LogStream.State.{smooth, Stream}
use logdeck.LogStream.{handle_flush_tick, resume, toggle_pause_streaming}
use logdeck.LogStream.Session.{Item, entry, heartbeat, deliver}
use logdeck.LogStream.Flush.{
  IsCapped, Flushed, flush_pending_logs-Flushed, sync_buffered_logs-KeepsView, abort_silent_aborts,
}
use logdeck.LogStream.Ring.{
  Feed, arrive, tick, toggle_pause, feed, feeds, arrived, arrivals, IsRunning,
}
use logdeck.LogStream.Ring.Ticks.{tick_lines, IsRunning-aborted, deliver-paused, deliver-live}
use logdeck.LogStream.Ring.Pause.{feed-Fed, released, released-IsRunning, resume_nil, resume_cons}

module _ {A : Type 0} where
  -- The lines that a stream holds and those that it has dropped.
  abbrev pub accounted : Stream A → ℕ
  accounted s =
      length s.logs
      + length s.pending_logs_ref
      + length s.buffered_logs_ref
      + s.dropped_count_ref
      + s.buffered_dropped_count_ref

  -- From `s` to `t` `n` lines arrived, and rows of the screen moved up as far as the count of
  -- dropped lines grew.
  pub record Counted (s : Stream A) (n : ℕ) (t : Stream A) : Type 0 where
    pub total : accounted t ≡ accounted s + n
    pub grows : s.dropped_count_ref ≤ t.dropped_count_ref
    pub reaches : s.dropped_count_ref + length s.logs ≤ t.dropped_count_ref + length t.logs
    pub told : s.dropped_count ≡ s.dropped_count_ref → t.dropped_count ≡ t.dropped_count_ref
    pub moved :
        (i : ℕ)
        → t.dropped_count_ref ≤ s.dropped_count_ref + i
        → i < length s.logs
        → get_elem? t.logs (s.dropped_count_ref + i - t.dropped_count_ref) ≡ get_elem? s.logs i

  Flushed-total : {s t : Stream A} → Flushed s t → accounted t ≡ accounted s
  Flushed-total {s} {t} f =
      rw (f.pending, f.buffered, f.logs, f.dropped, f.buffered_dropped)
        (omega (
          arith,
          length-last_n s.max_log_lines_ref (s.logs ++ s.pending_logs_ref),
          length-append s.logs s.pending_logs_ref,
        ))

  Flushed-moved :
      {s t : Stream A} (i : ℕ)
      → IsCapped s
      → Flushed s t
      → t.dropped_count_ref ≤ s.dropped_count_ref + i
      → i < length s.logs
      → get_elem? t.logs (s.dropped_count_ref + i - t.dropped_count_ref) ≡ get_elem? s.logs i
  Flushed-moved {s} {t} i c f shown inside =
      let n = s.max_log_lines_ref in
      let all_lines = s.logs ++ s.pending_logs_ref in
      let k = s.dropped_count_ref + i - t.dropped_count_ref in
      let e : length all_lines - n + k ≡ i =
        omega (arith, f.dropped, length-append s.logs s.pending_logs_ref) in
      get_elem? t.logs k
      ≡⟨ ap (λ xs. get_elem? xs k) f.logs ⟩ get_elem? (last_n n all_lines) k
      ≡⟨ get_elem?-drop (length all_lines - n) k all_lines ⟩
        get_elem? all_lines (length all_lines - n + k)
      ≡⟨ ap (λ j. get_elem? all_lines j) e ⟩ get_elem? all_lines i
      ≡⟨ get_elem?-append_left s.logs s.pending_logs_ref i inside ⟩ get_elem? s.logs i ∎

  Flushed-Counted : {s t : Stream A} → IsCapped s → Flushed s t → Counted s 0 t
  Flushed-Counted {s} {t} c f = record {
    total = omega (arith, Flushed-total f);
    grows = omega (arith, f.dropped);
    reaches = rw f.logs (
        omega (
          arith,
          f.dropped,
          length-last_n s.max_log_lines_ref (s.logs ++ s.pending_logs_ref),
          length-append s.logs s.pending_logs_ref,
          c.capped,
        ));
    told = f.told;
    moved = λ i. Flushed-moved i c f;
  }

  Counted-trans : {s t u : Stream A} {m n : ℕ} → Counted s m t → Counted t n u → Counted s (m + n) u
  Counted-trans {s} {t} {u} f g = record {
    total = omega (arith, f.total, g.total);
    grows = omega (arith, f.grows, g.grows);
    reaches = omega (arith, f.reaches, g.reaches);
    told = λ h. g.told (f.told h);
    moved = λ i shown inside.
        let j = s.dropped_count_ref + i - t.dropped_count_ref in
        let e : t.dropped_count_ref + j - u.dropped_count_ref
            ≡ s.dropped_count_ref + i - u.dropped_count_ref =
          omega (arith, g.grows) in
        rw (← e) (
          g.moved j (omega (arith, g.grows)) (omega (arith, f.reaches))
          ∙ f.moved i (omega (arith, g.grows)) inside);
  }

  same-Counted :
      {s t : Stream A} (n : ℕ)
      → t.logs ≡ s.logs
      → t.dropped_count_ref ≡ s.dropped_count_ref
      → t.dropped_count ≡ s.dropped_count
      → accounted t ≡ accounted s + n
      → Counted s n t
  same-Counted {s} {t} n l d shown e = record {
    total = e;
    grows = omega (arith, d);
    reaches = rw l (omega (arith, d));
    told = λ h. shown ∙ h ∙ sym d;
    moved = λ i seen inside.
        let k : s.dropped_count_ref + i - t.dropped_count_ref ≡ i = omega (arith, d) in
        rw (l, k) refl;
  }

  deliver-Counted :
      (item : Item A) (s : Stream A) → Counted s (length (arrived (arrive item))) (deliver item s)
  unfolding deliver
  deliver-Counted heartbeat s = same-Counted 0 refl refl refl (omega arith)
  deliver-Counted (entry x) s = elim (Bool-cases s.is_stream_paused_ref) [
    | inl e ↦
        rw (deliver-paused x s e) (
          same-Counted 1 refl refl refl (omega (arith, length-append s.buffered_logs_ref (x ∷ []))))
    | inr e ↦
        rw (deliver-live x s e)
          (same-Counted 1 refl refl refl (omega (arith, length-append s.pending_logs_ref (x ∷ []))))
  ]

  tick_lines-Counted : (s : Stream A) → IsRunning s → Counted s 0 (tick_lines s)
  unfolding tick_lines
  tick_lines-Counted s r = elim (Bool-cases s.is_stream_paused_ref) [
    | inl e ↦
        let k = sync_buffered_logs-KeepsView s in
        simp e (
          same-Counted 0 k.logs k.dropped k.told
            (rw (k.logs, k.pending) (omega (arith, k.buffered_dropped, k.dropped))))
    | inr e ↦ simp e (Flushed-Counted r.capped (flush_pending_logs-Flushed none s r.capped))
  ]

  handle_flush_tick-Counted :
      (now : ℕ) (s : Stream A) → IsRunning s → Counted s 0 (handle_flush_tick now s)
  unfolding handle_flush_tick tick_lines
  handle_flush_tick-Counted now s r =
      let (cs, e) = abort_silent_aborts s.abort_controller_ref now s in
      let c = tick_lines-Counted (record s { aborted = cs }) (IsRunning-aborted s cs r) in
      rw e (record {
        total = c.total;
        grows = c.grows;
        reaches = c.reaches;
        told = c.told;
        moved = c.moved;
      })

  resume-Counted : (s : Stream A) → IsRunning s → Counted s 0 (resume s)
  resume-Counted s r = by_backlog s.buffered_logs_ref refl
    where
      by_backlog : (backlog : List A) → s.buffered_logs_ref ≡ backlog → Counted s 0 (resume s)
      by_backlog [] e = rw (resume_nil s e) (same-Counted 0 refl refl refl (omega arith))
      by_backlog (x ∷ xs) e =
          let c = (released-IsRunning s r).capped in
          rw (resume_cons s e) (
            Counted-trans
              (same-Counted {t = released s} 0 refl refl refl
                (omega (arith, length-append s.pending_logs_ref s.buffered_logs_ref)))
              (Flushed-Counted c (flush_pending_logs-Flushed (some smooth) (released s) c)))

  toggle_pause_streaming-Counted :
      (s : Stream A) → IsRunning s → Counted s 0 (toggle_pause_streaming s)
  unfolding toggle_pause_streaming
  toggle_pause_streaming-Counted s r = elim (Bool-cases s.is_streaming) [
    | inr idle ↦ simp idle (same-Counted 0 refl refl refl (omega arith))
    | inl on ↦ elim (Bool-cases s.is_stream_paused) [
      | inl paused ↦ simp (on, paused) (resume-Counted s r)
      | inr shown ↦
          let c = Flushed-Counted r.capped (flush_pending_logs-Flushed none s r.capped) in
          simp (on, shown)
            (record {
              total = c.total;
              grows = c.grows;
              reaches = c.reaches;
              told = c.told;
              moved = c.moved;
            })
    ]
  ]

  feed-Counted :
      (f : Feed A) (s : Stream A) → IsRunning s → Counted s (length (arrived f)) (feed f s)
  unfolding feed
  feed-Counted (arrive item) s r = deliver-Counted item s
  feed-Counted (tick now) s r = handle_flush_tick-Counted now s r
  feed-Counted toggle_pause s r = toggle_pause_streaming-Counted s r

  -- Through any run of a stream: each line that arrived is on screen, queued, in the backlog, or in
  -- one of the two counts of dropped lines; and a row on screen whose index is at least what
  -- `droppedCount` grew by is found that much further up, the other rows having left.
  pub feeds-Counted :
      (fs : List (Feed A)) (s : Stream A)
      → IsRunning s
      → Counted s (length (arrivals fs)) (feeds fs s)
  feeds-Counted [] s r = same-Counted 0 refl refl refl (omega arith)
  feeds-Counted (f ∷ fs) s r =
      let here = feed-Counted f s r in
      let later = feeds-Counted fs (feed f s) (feed-Fed f s r).running in
      rw (length-append (arrived f) (arrivals fs)) (Counted-trans here later)
