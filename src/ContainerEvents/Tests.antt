-- ===== src/ContainerEvents/Tests.antt =====
-- A page that is hidden and shown while its stream is being opened, and the theorem about it applied.
use logdeck.Base.{true, false, refl, [], ◌∷◌}
use logdeck.ContainerEvents.{EventsHook}
use logdeck.ContainerEvents.Sound.{
  visibility, stream_opens, stream_ends, timer_fires, run, IsSound, run-IsSound,
}

abbrev hidden : EventsHook
hidden = record {
  is_connected = false;
  is_visible = false;
  effects = [];
  next_number = 0;
  handed_on = [];
}

hidden-IsSound : IsSound hidden
hidden-IsSound = record { one_subscription = refl; connected = λ c. cc; delays = tt }

run-IsSound_example : IsSound (
    run
      (visibility true
        ∷ stream_ends 0
        ∷ timer_fires 0
        ∷ stream_opens 0
        ∷ visibility false
        ∷ visibility true
        ∷ stream_ends 0
        ∷ [])
      hidden)
run-IsSound_example =
    run-IsSound
      (visibility true
        ∷ stream_ends 0
        ∷ timer_fires 0
        ∷ stream_opens 0
        ∷ visibility false
        ∷ visibility true
        ∷ stream_ends 0
        ∷ [])
      hidden hidden-IsSound
