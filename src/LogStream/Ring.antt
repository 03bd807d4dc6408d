-- ===== src/LogStream/Ring.antt =====
-- A running stream against its specification: the view is the end of everything that arrived,
-- whatever the flushes and pauses in between.
pub mod Ticks
pub mod Pause
pub mod Started
use logdeck.Base.{
  ℕ, max, ◌≡◌, sym, ap, ◌∙◌, ◌≡⟨◌⟩◌, ◌∎, true, false, List, [], ◌∷◌, ◌++◌, append-nil, append_assoc,
  last_n, last_n-append_last_n,
}
use logdeck.LogStream.State.{Stream}
use logdeck.LogStream.{handle_flush_tick, toggle_pause_streaming}
use logdeck.LogStream.Session.{Item, entry, deliver}
use logdeck.LogStream.Flush.{IsCapped}

-- What reaches a stream between its start and its stop.
pub data Feed (A : Type 0) : Type 0 where
  arrive : Item A → Feed A
  tick : (now : ℕ) → Feed A
  toggle_pause : Feed A

module _ {A : Type 0} where
  unfoldable pub feed : Feed A → Stream A → Stream A
  feed (arrive item) s = deliver item s
  feed (tick now) s = handle_flush_tick now s
  feed toggle_pause s = toggle_pause_streaming s

  abbrev pub feeds : List (Feed A) → Stream A → Stream A
  feeds [] s = s
  feeds (f ∷ fs) s = feeds fs (feed f s)

  -- The entries among the feeds, in order.
  abbrev pub arrived : Feed A → List A
  arrived (arrive (entry x)) = x ∷ []
  arrived _ = []

  abbrev pub arrivals : List (Feed A) → List A
  arrivals [] = []
  arrivals (f ∷ fs) = arrived f ++ arrivals fs

  -- Everything that the stream holds, oldest first.
  abbrev pub contents : Stream A → List A
  contents s = s.logs ++ (s.pending_logs_ref ++ s.buffered_logs_ref)

  -- The invariant of a running stream: only a paused stream has a backlog, and it has no
  -- pending lines.
  pub record IsRunning (s : Stream A) : Type 0 where
    pub capped : IsCapped s
    pub synced : s.is_stream_paused ≡ s.is_stream_paused_ref
    pub quiet : s.is_stream_paused_ref ≡ true → s.pending_logs_ref ≡ []
    pub live : s.is_stream_paused_ref ≡ false → s.buffered_logs_ref ≡ []

  -- From `s` to `t` the entries `xs` arrived.
  pub record Fed (s : Stream A) (xs : List A) (t : Stream A) : Type 0 where
    pub running : IsRunning t
    pub max : t.max_log_lines_ref ≡ s.max_log_lines_ref
    pub held :
        last_n s.max_log_lines_ref (contents t) ≡ last_n s.max_log_lines_ref (contents s ++ xs)

  pub Fed-trans : {s t u : Stream A} {xs ys : List A} → Fed s xs t → Fed t ys u → Fed s (xs ++ ys) u
  Fed-trans {s} {t} {u} {xs} {ys} f g = record {
    running = g.running;
    max = g.max ∙ f.max;
    held =
        last_n n (contents u)
        ≡⟨ (rw f.max at g.held) ⟩ last_n n (contents t ++ ys)
        ≡⟨ sym (last_n-append_last_n n (contents t) ys) ⟩ last_n n (last_n n (contents t) ++ ys)
        ≡⟨ ap (λ zs. last_n n (zs ++ ys)) f.held ⟩ last_n n (last_n n (contents s ++ xs) ++ ys)
        ≡⟨ last_n-append_last_n n (contents s ++ xs) ys ⟩ last_n n ((contents s ++ xs) ++ ys)
        ≡⟨ ap (last_n n) (append_assoc (contents s) xs ys) ⟩ last_n n (contents s ++ (xs ++ ys)) ∎;
  }
    where
      n : ℕ
      n = s.max_log_lines_ref

  pub held-Fed :
      {s t : Stream A}
      → IsRunning t
      → t.max_log_lines_ref ≡ s.max_log_lines_ref
      → last_n s.max_log_lines_ref (contents t) ≡ last_n s.max_log_lines_ref (contents s)
      → Fed s [] t
  held-Fed {s} r m h = record {
    running = r;
    max = m;
    held = h ∙ ap (last_n s.max_log_lines_ref) (sym (append-nil (contents s)));
  }
