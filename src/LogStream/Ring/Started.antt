-- ===== src/LogStream/Ring/Started.antt =====
-- Every run of a stream, from its start.
use logdeck.Base.{ℕ, ◌≡◌, refl, ap, ◌∙◌, true, false, List, [], ◌∷◌, ◌++◌, last_n}
use logdeck.LogStream.State.{Options, Stream, has_target}
use logdeck.LogStream.{handle_flush_tick}
use logdeck.LogStream.Session.{start_streaming}
use Prim.Native.Nat.{zero-le}
use logdeck.LogStream.Ring.{
  Feed, feed, feeds, arrivals, contents, IsRunning, Fed, Fed-trans, held-Fed,
}
use logdeck.LogStream.Ring.Ticks.{logs-handle_flush_tick}
use logdeck.LogStream.Ring.Pause.{feed-Fed}

module _ {A : Type 0} where
  pub feeds-Fed :
      (fs : List (Feed A)) (s : Stream A) → IsRunning s → Fed s (arrivals fs) (feeds fs s)
  feeds-Fed [] s r = held-Fed r refl refl
  feeds-Fed (f ∷ fs) s r =
      let here = feed-Fed f s r in Fed-trans here (feeds-Fed fs (feed f s) here.running)

-- What `startStreaming` leaves: a running stream that holds nothing.
abbrev pub started : {A : Type 0} → Options → ℕ → Stream A → Stream A
started options now s = (start_streaming options now s).1

module _ {A : Type 0} (options : Options) (now : ℕ) (s : Stream A)
    (target : has_target options ≡ true) where
  started-IsRunning : IsRunning (started options now s)
  unfolding start_streaming
  started-IsRunning =
      rw (target, started, start_streaming)
        (record {
          capped = record { counted = refl; capped = zero-le };
          synced = refl;
          quiet = λ h. refl;
          live = λ h. refl;
        })

  started-contents : contents (started options now s) ≡ []
  unfolding start_streaming
  started-contents = rw (target, started, start_streaming)

  started-max : (started options now s).max_log_lines_ref ≡ s.max_log_lines_ref
  unfolding start_streaming
  started-max = rw (target, started, start_streaming)

  module _ (fs : List (Feed A)) where
    started-Fed : Fed (started options now s) (arrivals fs) (feeds fs (started options now s))
    started-Fed = feeds-Fed fs (started options now s) started-IsRunning

    -- After a start, whatever arrives and however often the stream is flushed, paused and resumed:
    -- the invariant of a running stream holds, and the lines on screen, in the queue and in the
    -- backlog end with the same `maxLogLines` lines, in order, as all that arrived.
    pub feeds-contents :
        let t = feeds fs (started options now s) in
        IsRunning t
        × (last_n s.max_log_lines_ref (contents t) ≡ last_n s.max_log_lines_ref (arrivals fs))
    feeds-contents =
        let f = started-Fed in
        (
          f.running,
          rw started-max at (
              f.held
              ∙ ap (λ xs. last_n (started options now s).max_log_lines_ref (xs ++ arrivals fs))
                  started-contents),
        )

    -- A tick that finds the stream not paused puts exactly the last `maxLogLines` lines of all that
    -- arrived since the start on screen.
    pub screen_lem :
        (later : ℕ)
        → (feeds fs (started options now s)).is_stream_paused_ref ≡ false
        → (handle_flush_tick later (feeds fs (started options now s))).logs
          ≡ last_n s.max_log_lines_ref (arrivals fs)
    screen_lem later live =
        let f = started-Fed in
        logs-handle_flush_tick later _ f.running live ∙ (rw (f.max, started-max) feeds-contents.1)
