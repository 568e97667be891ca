-- ===== src/Tests/Tubes.antt =====
-- A tube at concrete inputs: a shot while a swap is under way.
use seg.Prelude.{true, false, List, [], ◌∷◌, ◌≡◌, ◌≤◌, arith}
use seg.Match.Tubes.{TubeState, unloading, Stats, reload_for, fired, can_fire}
use seg.Match.Tubes.Timing.{TubeCommand, choose, swap, tick, commands, fired-holds}

abbrev stats : Stats
stats = record { reload = 300; countermeasure_reload = 900 }

abbrev swapping : TubeState
swapping = record { index = 0; weapon = 1; next = 2; status = unloading; ready_in = 60 }

abbrev meanwhile : List TubeCommand
meanwhile = tick 50 ∷ choose 3 ∷ swap 4 ∷ tick 200 ∷ []

fired-holds_example :
    (can_fire (λ w. true) (commands stats meanwhile (fired swapping stats)) ≡ false)
    × (100 ≤ reload_for stats)
unfolding reload_for
fired-holds_example = fired-holds (λ w. true) swapping stats meanwhile (omega arith)
