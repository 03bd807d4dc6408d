-- ===== src/LogStream/Lifecycle.antt =====
-- How a session ends, and how it comes back after a lost connection.
use logdeck.Base.{
  ℕ, ◌≡◌, refl, ◌∙◌, ◌≢◌, ◌⊎◌, inl, inr, true, false, not, ◌&&◌, none, some, List, [], ◌∷◌, ◌++◌,
  arith, nat_eq, Bool-cases,
}
use logdeck.Base.Text.{Text}
use logdeck.LogStream.State.{Failure, Call, Options, Stream, stream_error}
use logdeck.LogStream.{stop_streaming, stop_flush_interval, is_aborted}
use logdeck.LogStream.Session.{
  Phase, waiting, reading, closed, Session, Event, wait_over, received, ended, failed, settle,
  finish, after_stream, after_wait, on_error, is_error, is_abort, react, step,
}
use logdeck.LogStream.Flush.{IsCapped, flush_pending_logs-KeepsControl, flush_pending_logs-Flushed}

-- The events that end the current await of a session.
abbrev pub Awaits : {A : Type 0} → Phase → Event A → Type 0
Awaits waiting wait_over = Unit
Awaits waiting (received _ _) = ⊥
Awaits waiting (ended _) = ⊥
Awaits waiting (failed _ _) = ⊥
Awaits reading wait_over = ⊥
Awaits reading (received _ _) = Unit
Awaits reading (ended _) = Unit
Awaits reading (failed _ _) = Unit
Awaits closed _ = ⊥

module _ {A : Type 0} where
  -- The state that a stream comes to rest in.
  pub record IsStopped (r : Session × Stream A) : Type 0 where
    pub closed : r.0.phase ≡ Phase.closed
    pub loading : r.1.is_loading_logs ≡ false
    pub streaming : r.1.is_streaming ≡ false
    pub reconnecting : r.1.is_reconnecting ≡ false
    pub interval : r.1.flush_interval_ref ≡ false
    pub pending : r.1.pending_logs_ref ≡ []

  pub settle-streaming : (t : Session) (s : Stream A) → (settle t s).is_streaming ≡ false
  unfolding settle
  settle-streaming t s = ground arith

  settle-loading : (t : Session) (s : Stream A) → (settle t s).is_loading_logs ≡ false
  unfolding settle
  settle-loading t s = ground arith

  settle-reconnecting : (t : Session) (s : Stream A) → (settle t s).is_reconnecting ≡ false
  unfolding settle
  settle-reconnecting t s = ground arith

  pub settle-interval :
      (t : Session) (s : Stream A) → (settle t s).flush_interval_ref ≡ s.flush_interval_ref
  unfolding settle
  settle-interval t s = ground arith

  settle-pending : (t : Session) (s : Stream A) → (settle t s).pending_logs_ref ≡ s.pending_logs_ref
  unfolding settle
  settle-pending t s = ground arith

  pub settle-other :
      (t : Session) (s : Stream A) {c : ℕ}
      → s.abort_controller_ref ≡ some c
      → c ≢ t.controller
      → (settle t s).abort_controller_ref ≡ some c
  unfolding settle
  settle-other t s {c} e ne =
      let other : nat_eq c t.controller ≡ false = ground arith in ground arith

  settle-current :
      (t : Session) (s : Stream A)
      → (s.abort_controller_ref ≡ none) ⊎ (s.abort_controller_ref ≡ some t.controller)
      → (settle t s).abort_controller_ref ≡ none
  unfolding settle
  settle-current t s h = ground arith

  pub finish-IsStopped : (t : Session) (s : Stream A) → IsCapped s → IsStopped (finish t s)
  unfolding finish
  finish-IsStopped t s c =
      let s₁ = stop_flush_interval s in
      let c₁ : IsCapped s₁ = record { counted = c.counted; capped = c.capped } in
      record {
        closed = refl;
        loading = settle-loading t _;
        streaming = settle-streaming t _;
        reconnecting = settle-reconnecting t _;
        interval = settle-interval t _ ∙ (flush_pending_logs-KeepsControl none s₁).flush_interval;
        pending = settle-pending t _ ∙ (flush_pending_logs-Flushed none s₁ c₁).pending;
      }

  finish-current :
      (t : Session) (s : Stream A)
      → (s.abort_controller_ref ≡ none) ⊎ (s.abort_controller_ref ≡ some t.controller)
      → (finish t s).1.abort_controller_ref ≡ none
  unfolding finish
  finish-current t s h =
      settle-current t _
        (rw (flush_pending_logs-KeepsControl none (stop_flush_interval s)).abort_controller h)

  -- What `stopStreaming` does to a connected stream.
  pub record Stopping (c : ℕ) (s t : Stream A) : Type 0 where
    pub requested : t.stop_requested_ref ≡ true
    pub forgotten : t.abort_controller_ref ≡ none
    pub aborted : t.aborted ≡ c ∷ s.aborted
    pub streaming : t.is_streaming ≡ false
    pub next_controller : t.next_controller ≡ s.next_controller
    pub capped : IsCapped s → IsCapped t

  pub stop_streaming-Stopping :
      (s : Stream A) {c : ℕ} → s.abort_controller_ref ≡ some c → Stopping c s (stop_streaming s)
  unfolding stop_streaming
  stop_streaming-Stopping s e = record {
    requested = ground arith;
    forgotten = ground arith;
    aborted = ground arith;
    streaming = refl;
    next_controller = ground arith;
    capped = λ c. ground arith;
  }

  module _ (options : Options) (lower : Text → Text) where
    after_stream-requested :
        (now : ℕ) (t : Session) (s : Stream A)
        → s.stop_requested_ref ≡ true
        → after_stream options now t s ≡ finish t s
    unfolding after_stream
    after_stream-requested now t s e = simp e

    pub on_error-same :
        (f : Failure) (t : Session) (s : Stream A)
        → (cs : List Call) × (on_error lower f t s ≡ record s { calls = cs })
    unfolding on_error
    on_error-same f t s =
        elim (Bool-cases (is_error f && not (is_abort lower f) && nat_eq t.attempt 0)) [
          | inl told ↦ (s.calls ++ stream_error f ∷ [], rw told refl)
          | inr untold ↦ (s.calls, rw untold refl)
        ]

    after_wait-requested :
        (t : Session) (s : Stream A)
        → s.stop_requested_ref ≡ true
        → after_wait options t s ≡ finish t s
    unfolding after_wait
    after_wait-requested t s e = simp e

    -- Once the stop was asked for, the event that a session awaits makes it finish.
    react-finish :
        (e : Event A) (p : Phase) (t : Session) (s : Stream A)
        → Awaits p e
        → s.stop_requested_ref ≡ true
        → is_aborted t.controller s ≡ true
        → (cs : List Call) × (react options lower p e t s ≡ finish t (record s { calls = cs }))
    unfolding react
    react-finish wait_over waiting t s w asked cut = (s.calls, after_wait-requested t s asked)
    react-finish (received item now) reading t s w asked cut =
        (s.calls, rw cut (after_stream-requested now t s asked))
    react-finish (ended now) reading t s w asked cut =
        (s.calls, after_stream-requested now t s asked)
    react-finish (failed f now) reading t s w asked cut =
        let (cs, e) = on_error-same f t s in
        (cs, rw e (after_stream-requested now t (record s { calls = cs }) asked))
    react-finish wait_over reading t s w asked cut = absurd w
    react-finish wait_over closed t s w asked cut = absurd w
    react-finish (received item now) waiting t s w asked cut = absurd w
    react-finish (received item now) closed t s w asked cut = absurd w
    react-finish (ended now) waiting t s w asked cut = absurd w
    react-finish (ended now) closed t s w asked cut = absurd w
    react-finish (failed f now) waiting t s w asked cut = absurd w
    react-finish (failed f now) closed t s w asked cut = absurd w

    -- A stop ends the current session at the next event that it awaits, whichever that is: the
    -- session is closed, nothing is loading, streaming or reconnecting, the flush timer is off, no
    -- line is left in the queue, and no controller is kept.
    pub step-stop_streaming :
        (e : Event A) (t : Session) (s : Stream A)
        → s.abort_controller_ref ≡ some t.controller
        → IsCapped s
        → Awaits t.phase e
        → let r = step options lower e t (stop_streaming s) in
          IsStopped r × (r.1.abort_controller_ref ≡ none)
    unfolding step
    step-stop_streaming e t s current c awaits =
        let stop = stop_streaming-Stopping s current in
        let c' = stop.capped c in
        let cut : is_aborted t.controller (stop_streaming s) ≡ true =
          rw stop.aborted (ground arith) in
        let (cs, finished) =
          react-finish e t.phase t (stop_streaming s) awaits stop.requested cut in
        let s' : Stream A = record (stop_streaming s) { calls = cs } in
        rw finished (
          finish-IsStopped t s' (record { counted = c'.counted; capped = c'.capped }),
          finish-current t s' (inl stop.forgotten),
        )
