-- ===== src/ContainerEvents.antt =====
-- The subscription to the lifecycle events of containers:
-- frontend/src/features/containers/hooks/use-container-events.ts.
pub mod Sound
mod Tests
use logdeck.Base.{
  ℕ, ◌+◌, ◌*◌, min, Bool, true, false, not, ◌&&◌, ◌||◌, List, [], ◌∷◌, ◌++◌, map, any, filter,
  nat_eq, if◌then◌else◌,
}
use logdeck.Base.Text.{Text}

pub record ContainerEvent : Type 0 where
  pub host : Text
  pub container_id : Text
  pub container_name : Text
  pub action : Text
  pub timestamp : ℕ

abbrev pub initial_retry_delay_ms : ℕ
initial_retry_delay_ms = 1000

abbrev pub max_retry_delay_ms : ℕ
max_retry_delay_ms = 30000

-- Where `subscribe` stands: before the stream is open, in its `for await`, or with the timer of the next
-- try running.
pub data Phase : Type 0 where
  connecting streaming waiting : Phase

abbrev pub is_connecting : Phase → Bool
is_connecting connecting = true
is_connecting _ = false

abbrev pub is_streaming : Phase → Bool
is_streaming streaming = true
is_streaming _ = false

abbrev pub is_waiting : Phase → Bool
is_waiting waiting = true
is_waiting _ = false

-- The variables of one run of the effect. After its cleanup it goes on until its stream has ended.
pub record Effect : Type 0 where
  pub number : ℕ
  pub aborted : Bool
  pub retry_delay : ℕ
  pub phase : Phase

-- The state of the hook, the effects that have not come to an end, and the events handed on.
pub record EventsHook : Type 0 where
  pub is_connected : Bool
  pub is_visible : Bool
  pub effects : List Effect
  pub next_number : ℕ
  pub handed_on : List ContainerEvent

abbrev pub stands : ℕ → (Phase → Bool) → Effect → Bool
stands n p e = nat_eq e.number n && p e.phase

abbrev pub change_effect : ℕ → (Phase → Bool) → (Effect → Effect) → List Effect → List Effect
change_effect n p f es = map (λ e. if stands n p e then f e else e) es

-- The effect of a visible page.
unfoldable pub run_effect : EventsHook → EventsHook
run_effect s = record s {
  effects =
      record {
        number = s.next_number;
        aborted = false;
        retry_delay = initial_retry_delay_ms;
        phase = connecting;
      }
      ∷ s.effects;
  next_number = s.next_number + 1;
}

-- Its cleanup: abort, no timer, not connected. What waits for its timer is at its end.
unfoldable pub cleanup : EventsHook → EventsHook
cleanup s = record s {
  effects =
      map (λ (e : Effect). record e { aborted = true })
        (filter (λ (e : Effect). e.aborted || not (is_waiting e.phase)) s.effects);
  is_connected = false;
}

-- The effect depends on `isVisible`, so it runs again when that changes.
unfoldable pub set_visible : Bool → EventsHook → EventsHook
unfolding run_effect cleanup
set_visible true s = if s.is_visible then s else run_effect (record s { is_visible = true })
set_visible false s = if s.is_visible then cleanup (record s { is_visible = false }) else s

-- `onOpen`
unfoldable pub opened : ℕ → EventsHook → EventsHook
opened n s =
    if any (stands n is_connecting) s.effects
    then record s {
      is_connected = true;
      effects =
          change_effect n is_connecting
            (λ e. record e { phase = streaming; retry_delay = initial_retry_delay_ms }) s.effects;
    }
    else s

-- A turn of the `for await`.
unfoldable pub arrived : ℕ → ContainerEvent → EventsHook → EventsHook
arrived n event s =
    if any (stands n is_streaming) s.effects
    then record s { handed_on = s.handed_on ++ event ∷ [] }
    else s

abbrev pub is_subscribed : Phase → Bool
is_subscribed phase = not (is_waiting phase)

-- What stands behind the `try`: an aborted effect is at its end, another sets its timer.
unfoldable pub ended : ℕ → EventsHook → EventsHook
ended n s =
    if any (stands n is_subscribed) s.effects
    then record s {
      is_connected = false;
      effects =
          change_effect n is_subscribed
            (λ e. record e {
              phase = waiting;
              retry_delay = min (e.retry_delay * 2) max_retry_delay_ms;
            })
            (filter (λ e. not (stands n is_subscribed e && e.aborted)) s.effects);
    }
    else s

-- The timer.
unfoldable pub timer_fired : ℕ → EventsHook → EventsHook
timer_fired n s = record s {
  effects = change_effect n is_waiting (λ e. record e { phase = connecting }) s.effects;
}
