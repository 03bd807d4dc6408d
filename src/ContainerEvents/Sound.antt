-- ===== src/ContainerEvents/Sound.antt =====
-- What holds of the subscription in any run.
use logdeck.Base.{
  ℕ, ◌+◌, ◌≤◌, Bool, true, false, ◌≡◌, refl, ap, ◌∙◌, List, [], ◌∷◌, map, any, filter, All,
  Bool-cases, inl, inr, arith, if◌then◌else◌,
}
use logdeck.ContainerEvents.{
  ContainerEvent, initial_retry_delay_ms, max_retry_delay_ms, Phase, connecting, streaming, waiting,
  is_connecting, is_streaming, is_waiting, is_subscribed, Effect, EventsHook, stands, change_effect,
  run_effect, cleanup, set_visible, opened, arrived, ended, timer_fired,
}

pub data HookEvent : Type 0 where
  visibility : Bool → HookEvent
  stream_opens : ℕ → HookEvent
  event_arrives : ℕ → ContainerEvent → HookEvent
  stream_ends : ℕ → HookEvent
  timer_fires : ℕ → HookEvent

abbrev pub perform : HookEvent → EventsHook → EventsHook
perform (visibility shown) s = set_visible shown s
perform (stream_opens n) s = opened n s
perform (event_arrives n event) s = arrived n event s
perform (stream_ends n) s = ended n s
perform (timer_fires n) s = timer_fired n s

abbrev pub run : List HookEvent → EventsHook → EventsHook
run [] s = s
run (x ∷ xs) s = run xs (perform x s)

-- The effects that are not cleaned up.
abbrev pub live : List Effect → ℕ
live [] = 0
live (e ∷ es) = (if e.aborted then 0 else 1) + live es

abbrev pub open_stream : Effect → Bool
open_stream e = is_streaming e.phase

abbrev pub InBounds : Effect → Type 0
InBounds e = (initial_retry_delay_ms ≤ e.retry_delay) × (e.retry_delay ≤ max_retry_delay_ms)

pub record IsSound (s : EventsHook) : Type 0 where
  pub one_subscription : live s.effects ≡ (if s.is_visible then 1 else 0)
  pub connected : s.is_connected ≡ true → any open_stream s.effects ≡ true
  pub delays : All InBounds s.effects

-- A change that keeps `aborted` keeps what is live.
module _ (n : ℕ) (p : Phase → Bool) (f : Effect → Effect) where
  live-change_effect :
      ((e : Effect) → (f e).aborted ≡ e.aborted)
      → (es : List Effect) → live (change_effect n p f es) ≡ live es
  live-change_effect same [] = refl
  live-change_effect same (e ∷ es) = elim (Bool-cases (stands n p e)) [
    | inl q ↦
        rw (q, same e) (ap (λ k. (if e.aborted then 0 else 1) + k) (live-change_effect same es))
    | inr q ↦ rw q (ap (λ k. (if e.aborted then 0 else 1) + k) (live-change_effect same es))
  ]

  InBounds-change_effect :
      ((e : Effect) → InBounds e → InBounds (f e))
      → (es : List Effect) → All InBounds es
      → All InBounds (change_effect n p f es)
  InBounds-change_effect keeps [] h = tt
  InBounds-change_effect keeps (e ∷ es) h = elim (Bool-cases (stands n p e)) [
    | inl q ↦ rw q (keeps e h.0, InBounds-change_effect keeps es h.1)
    | inr q ↦ rw q (h.0, InBounds-change_effect keeps es h.1)
  ]

  -- What is changed into an open stream is one; what was open and is not changed stays so.
  open-changed :
      ((e : Effect) → open_stream (f e) ≡ true)
      → (es : List Effect) → any (stands n p) es ≡ true
      → any open_stream (change_effect n p f es) ≡ true
  open-changed opens [] h = h
  open-changed opens (e ∷ es) h = elim (Bool-cases (stands n p e)) [
    | inl q ↦ rw (q, opens e) refl
    | inr q ↦ let rest = open-changed opens es (rw q at h) in rw q (ground arith)
  ]

  open-kept :
      ((e : Effect) → p e.phase ≡ true → open_stream e ≡ false)
      → (es : List Effect) → any open_stream es ≡ true
      → any open_stream (change_effect n p f es) ≡ true
  open-kept never [] h = h
  open-kept never (e ∷ es) h = elim (Bool-cases (stands n p e)) [
    | inl q ↦
        let closed : open_stream e ≡ false = never e (ground arith) in
        let rest = open-kept never es (ground arith) in rw q (ground arith)
    | inr q ↦ elim (Bool-cases (open_stream e)) [
      | inl o ↦ rw (q, o) refl
      | inr o ↦ let rest = open-kept never es (ground arith) in rw q (ground arith)
    ]
  ]

module _ (q : Effect → Bool) where
  -- Only what is cleaned up is dropped.
  live-filter :
      ((e : Effect) → q e ≡ false → e.aborted ≡ true)
      → (es : List Effect) → live (filter q es) ≡ live es
  live-filter only [] = refl
  live-filter only (e ∷ es) = elim (Bool-cases (q e)) [
    | inl k ↦ rw k (ap (λ m. (if e.aborted then 0 else 1) + m) (live-filter only es))
    | inr d ↦ rw (d, only e d) (omega (arith, live-filter only es))
  ]

  InBounds-filter : (es : List Effect) → All InBounds es → All InBounds (filter q es)
  InBounds-filter [] h = tt
  InBounds-filter (e ∷ es) h = elim (Bool-cases (q e)) [
    | inl k ↦ rw k (h.0, InBounds-filter es h.1)
    | inr d ↦ rw d (InBounds-filter es h.1)
  ]

live-abort : (es : List Effect) → live (map (λ (e : Effect). record e { aborted = true }) es) ≡ 0
live-abort [] = refl
live-abort (e ∷ es) = omega (arith, live-abort es)

InBounds-abort :
    (es : List Effect)
    → All InBounds es
    → All InBounds (map (λ (e : Effect). record e { aborted = true }) es)
InBounds-abort [] h = tt
InBounds-abort (e ∷ es) h = (h.0, InBounds-abort es h.1)

IsSound-set_visible : (shown : Bool) (s : EventsHook) → IsSound s → IsSound (set_visible shown s)
unfolding set_visible run_effect cleanup
IsSound-set_visible true s h = elim (Bool-cases s.is_visible) [
  | inl v ↦ rw (v, set_visible) (rw v at h)
  | inr v ↦
      let none_live : live s.effects ≡ 0 = h.one_subscription ∙ ap (λ b. if b then 1 else 0) v in
      rw (v, set_visible)
        (record {
          one_subscription = omega (arith, none_live);
          connected = λ c. ground (arith, h.connected c);
          delays = ((omega arith, omega arith), h.delays);
        })
]
IsSound-set_visible false s h = elim (Bool-cases s.is_visible) [
  | inr v ↦ rw (v, set_visible) (rw v at h)
  | inl v ↦
      rw (v, set_visible)
        (record {
          one_subscription = live-abort _;
          connected = λ c. cc;
          delays = InBounds-abort _ (InBounds-filter _ s.effects h.delays);
        })
]

IsSound-opened : (n : ℕ) (s : EventsHook) → IsSound s → IsSound (opened n s)
unfolding opened
IsSound-opened n s h = elim (Bool-cases (any (stands n is_connecting) s.effects)) [
  | inr v ↦ rw v h
  | inl v ↦ rw v (record {
    one_subscription =
        live-change_effect n is_connecting _ (λ e. refl) s.effects ∙ h.one_subscription;
    connected = λ c. open-changed n is_connecting _ (λ e. refl) s.effects v;
    delays =
        InBounds-change_effect n is_connecting _ (λ e b. (omega arith, omega arith)) s.effects
          h.delays;
  })
]

IsSound-arrived :
    (n : ℕ) (event : ContainerEvent) (s : EventsHook) → IsSound s → IsSound (arrived n event s)
unfolding arrived
IsSound-arrived n event s h = elim (Bool-cases (any (stands n is_streaming) s.effects)) [
  | inr v ↦ rw v h
  | inl v ↦
      rw v (record {
        one_subscription = h.one_subscription;
        connected = h.connected;
        delays = h.delays;
      })
]

IsSound-ended : (n : ℕ) (s : EventsHook) → IsSound s → IsSound (ended n s)
unfolding ended
IsSound-ended n s h = elim (Bool-cases (any (stands n is_subscribed) s.effects)) [
  | inr v ↦ rw v h
  | inl v ↦ rw v (record {
    one_subscription =
        live-change_effect n is_subscribed _ (λ e. refl) _
        ∙ live-filter _ (λ e dropped. ground arith) s.effects
        ∙ h.one_subscription;
    connected = λ c. cc;
    delays =
        InBounds-change_effect n is_subscribed _ (λ e b. (omega (arith, b), omega (arith, b))) _
          (InBounds-filter _ s.effects h.delays);
  })
]

IsSound-timer_fired : (n : ℕ) (s : EventsHook) → IsSound s → IsSound (timer_fired n s)
unfolding timer_fired
IsSound-timer_fired n s h = record {
  one_subscription = live-change_effect n is_waiting _ (λ e. refl) s.effects ∙ h.one_subscription;
  connected = λ c. open-kept n is_waiting _ (λ e w. closed e.phase w) s.effects (h.connected c);
  delays = InBounds-change_effect n is_waiting _ (λ e b. b) s.effects h.delays;
}
  where
    closed : (p : Phase) → is_waiting p ≡ true → is_streaming p ≡ false
    closed connecting w = refl
    closed streaming w = cc
    closed waiting w = refl

IsSound-perform : (x : HookEvent) (s : EventsHook) → IsSound s → IsSound (perform x s)
IsSound-perform (visibility shown) s = IsSound-set_visible shown s
IsSound-perform (stream_opens n) s = IsSound-opened n s
IsSound-perform (event_arrives n event) s = IsSound-arrived n event s
IsSound-perform (stream_ends n) s = IsSound-ended n s
IsSound-perform (timer_fires n) s = IsSound-timer_fired n s

-- However streams open, end and fail and the page is hidden and shown: while the page is visible there
-- is exactly one subscription that is not cleaned up, and while it is hidden there is none. The hook says
-- that it is connected only while a stream is open. The wait before a new try is between a second and
-- half a minute. This is so if it was so at first.
pub run-IsSound : (xs : List HookEvent) (s : EventsHook) → IsSound s → IsSound (run xs s)
run-IsSound [] s h = h
run-IsSound (x ∷ xs) s h = run-IsSound xs (perform x s) (IsSound-perform x s h)
