-- ===== src/LogStream/Backoff.antt =====
-- The waits between two connections, and the idle watchdog.
use logdeck.Base.{
  ℕ, zero, suc, ◌+◌, ◌-◌, ◌*◌, ◌^◌, ◌≤◌, ◌<◌, min, ◌≡◌, refl, true, false, some, arith, ltb,
}
use native.Mathlib.Nat.{pow-suc}
use logdeck.LogStream.State.{stream_idle_timeout_ms, Options, Stream}
use logdeck.LogStream.{abort_silent}
use logdeck.LogStream.Session.{
  reconnect_min_delay_ms, reconnect_max_delay_ms, reconnect_delay, Session, begin_attempt,
}

two-pow-pos : (n : ℕ) → 1 ≤ 2 ^ n
two-pow-pos zero = omega arith
two-pow-pos (suc n) = omega (arith, two-pow-pos n, pow-suc 2 n)

reconnect_delay-suc :
    (n : ℕ)
    → reconnect_delay (suc (suc n)) ≡ min (2 * reconnect_delay (suc n)) reconnect_max_delay_ms
unfolding reconnect_delay
reconnect_delay-suc n =
    let e : suc (suc n) - 1 ≡ suc n = omega arith in
    let e' : suc n - 1 ≡ n = omega arith in rw (e, e') (omega (arith, pow-suc 2 n))

-- The wait before the first reconnect is the minimum; each further one doubles it, up to the
-- maximum, which lies below the idle timeout.
pub reconnect_delay_lem :
    (n : ℕ)
    → (reconnect_delay 1 ≡ reconnect_min_delay_ms)
      × (reconnect_delay (suc (suc n)) ≡ min (2 * reconnect_delay (suc n)) reconnect_max_delay_ms)
      × (reconnect_min_delay_ms ≤ reconnect_delay n)
      × (reconnect_delay n ≤ reconnect_max_delay_ms)
      × (reconnect_delay n < stream_idle_timeout_ms)
unfolding reconnect_delay
reconnect_delay_lem n =
    let p = two-pow-pos (n - 1) in
    (refl, reconnect_delay-suc n, omega (arith, p), omega arith, omega arith)

-- While a session waits to reconnect, no tick of the flush timer finds the connection silent for
-- too long: the watchdog, at any time up to the end of the wait, leaves the state as it is.
pub begin_attempt-abort_silent :
    {A : Type 0} (options : Options) (now later : ℕ) (t : Session) (s : Stream A)
    → 0 < t.attempt
    → now ≤ later
    → later ≤ now + reconnect_delay t.attempt
    → let s' = (begin_attempt options now t s).1 in
      (s'.abort_controller_ref ≡ some s.next_controller)
      × (abort_silent s'.abort_controller_ref later s' ≡ s')
unfolding begin_attempt abort_silent
begin_attempt-abort_silent options now later t s waits from until =
    let (_, _, _, _, below) = reconnect_delay_lem t.attempt in
    let first : ltb 0 t.attempt ≡ true = ground arith in
    let fresh : ltb stream_idle_timeout_ms (later - now) ≡ false = ground arith in
    simp (first, fresh) (refl, refl)
