-- ===== src/StatsHistory/Tests.antt =====
-- A container that is there, gone, and there again.
use logdeck.Base.{ℕ, ◌≤◌, ◌≡◌, refl, none, some, List, [], ◌∷◌, length}
use logdeck.Base.Text.{Text, text_Key, codes}
use logdeck.Base.JsMap.{get, set}
use logdeck.LogEntries.{or_null}
use logdeck.StatsHistory.{ContainerStats, append_samples}
use logdeck.StatsHistory.Traces.{trace, capped, append_batches, append_batches-trace}

abbrev stat : Text → ℕ → ContainerStats ℕ
stat id n = record { id = id; cpu_percent = n; memory_percent = n }

abbrev batches : List (List (ContainerStats ℕ))
batches =
    (stat (codes "a") 1 ∷ stat (codes "b") 2 ∷ [])
    ∷ (stat (codes "b") 3 ∷ [])
    ∷ (stat (codes "a") 4 ∷ stat (codes "b") 5 ∷ [])
    ∷ []

history_of_a :
    get (codes "a") (append_batches batches []) ≡ some (record { cpu = 4; memory_percent = 4 } ∷ [])
unfolding append_samples get set
history_of_a = refl

append_batches-trace_example :
    (get (codes "b") (append_batches batches []) ≡ capped (trace (codes "b") batches none))
    × (length (or_null (get (codes "b") (append_batches batches [])) []) ≤ 60)
append_batches-trace_example = append_batches-trace (codes "b") batches
