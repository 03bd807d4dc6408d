-- ===== src/LogStream/Reconnect.antt =====
-- A connection that is lost without a stop comes back.
use logdeck.Base.{
  ℕ, ◌+◌, ◌<◌, ◌≡◌, refl, sym, ap, ◌∙◌, true, false, some, [], ◌∷◌, ◌++◌, arith, ltb, nat_eq,
}
use mathlib.Core.Path.{subst}
use logdeck.Base.Text.{Text}
use logdeck.LogStream.State.{Options, Stream, stream_logs}
use logdeck.LogStream.{is_aborted}
use logdeck.LogStream.Session.{
  Phase, Session, Event, wait_over, received, ended, failed, is_current, after_stream, after_wait,
  begin_attempt, react, step,
}
use logdeck.LogStream.Lifecycle.{on_error-same}

-- The events by which a connection ends by itself.
abbrev pub IsLoss : {A : Type 0} → Event A → Type 0
IsLoss wait_over = ⊥
IsLoss (received _ _) = ⊥
IsLoss (ended _) = Unit
IsLoss (failed _ _) = Unit

module _ {A : Type 0} where
  -- From `(t, s)` the session went into the wait before its next attempt.
  pub record IsRetrying (t : Session) (s : Stream A) (r : Session × Stream A) : Type 0 where
    pub phase : r.0.phase ≡ Phase.waiting
    pub attempt : r.0.attempt ≡ t.attempt + 1
    pub controller : r.0.controller ≡ s.next_controller
    pub current : r.1.abort_controller_ref ≡ some s.next_controller
    pub reconnecting : r.1.is_reconnecting ≡ true
    pub streaming : r.1.is_streaming ≡ s.is_streaming
    pub logs : r.1.logs ≡ s.logs
    pub pending : r.1.pending_logs_ref ≡ s.pending_logs_ref
    pub buffered : r.1.buffered_logs_ref ≡ s.buffered_logs_ref
    pub stop_requested : r.1.stop_requested_ref ≡ s.stop_requested_ref
    pub aborted : r.1.aborted ≡ s.aborted

  module _ (options : Options) (lower : Text → Text) where
    after_stream-retries :
        (now : ℕ) (t : Session) (s : Stream A)
        → s.stop_requested_ref ≡ false
        → s.abort_controller_ref ≡ some t.controller
        → IsRetrying t s (after_stream options now t s)
    unfolding after_stream begin_attempt
    after_stream-retries now t s going current =
        let here : is_current t s ≡ true = ground arith in
        let more : ltb 0 (t.attempt + 1) ≡ true = ground arith in
        simp (going, here, more)
          (record {
            phase = refl;
            attempt = refl;
            controller = refl;
            current = refl;
            reconnecting = refl;
            streaming = refl;
            logs = refl;
            pending = refl;
            buffered = refl;
            stop_requested = sym going;
            aborted = refl;
          })

    react-retries :
        (e : Event A) (t : Session) (s : Stream A)
        → IsLoss e
        → s.stop_requested_ref ≡ false
        → s.abort_controller_ref ≡ some t.controller
        → IsRetrying t s (react options lower Phase.reading e t s)
    unfolding react
    react-retries wait_over t s loss going current = absurd loss
    react-retries (received item now) t s loss going current = absurd loss
    react-retries (ended now) t s loss going current = after_stream-retries now t s going current
    react-retries (failed f now) t s loss going current =
        let (cs, e) = on_error-same options lower f t s in
        let r = after_stream-retries now t (record s { calls = cs }) going current in
        rw e (record {
          phase = r.phase;
          attempt = r.attempt;
          controller = r.controller;
          current = r.current;
          reconnecting = r.reconnecting;
          streaming = r.streaming;
          logs = r.logs;
          pending = r.pending;
          buffered = r.buffered;
          stop_requested = r.stop_requested;
          aborted = r.aborted;
        })

    waited :
        (t : Session) (s : Stream A)
        → s.stop_requested_ref ≡ false
        → is_aborted t.controller s ≡ false
        → 0 < t.attempt
        → let r = after_wait options t s in
          (r.0.phase ≡ Phase.reading)
          × (r.1.calls ≡ s.calls ++ stream_logs 0 t.controller ∷ [])
          × (r.1.logs ≡ s.logs)
    unfolding after_wait
    waited t s going whole later =
        let again : nat_eq t.attempt 0 ≡ false = ground arith in
        simp (going, whole, again) (refl, refl, refl)

    -- A connection that ends or fails while no stop was asked for makes the session wait, with
    -- `attempt` one higher and a new controller; the rows on screen, the queue and the backlog stay,
    -- and so does `isStreaming`. When the wait is over the next connection is opened, and it asks
    -- for no old lines.
    pub step-IsLoss :
        (e : Event A) (t : Session) (s : Stream A)
        → t.phase ≡ Phase.reading
        → IsLoss e
        → s.stop_requested_ref ≡ false
        → s.abort_controller_ref ≡ some t.controller
        → is_aborted s.next_controller s ≡ false
        → let r = step options lower e t s in
          let r' = step options lower wait_over r.0 r.1 in
          IsRetrying t s r
          × (r'.0.phase ≡ Phase.reading)
          × (r'.1.calls ≡ r.1.calls ++ stream_logs 0 s.next_controller ∷ [])
          × (r'.1.logs ≡ s.logs)
    unfolding step
    step-IsLoss e t s phase loss going current fresh =
        let i : IsRetrying t s (react options lower t.phase e t s) =
          subst (λ p. IsRetrying t s (react options lower p e t s)) (sym phase)
            (react-retries e t s loss going current) in
        let r = react options lower t.phase e t s in
        let w =
          waited r.0 r.1 (i.stop_requested ∙ going) (rw (i.aborted, i.controller) fresh)
            (omega (arith, i.attempt)) in
        let later : react options lower r.0.phase wait_over r.0 r.1 ≡ after_wait options r.0 r.1 =
          ap (λ p. react options lower p wait_over r.0 r.1) i.phase in
        rw later (i, w.0, rw i.controller at w.1, w.2 ∙ i.logs)
