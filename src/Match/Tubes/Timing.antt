-- ===== src/Match/Tubes/Timing.antt =====
-- How long a tube that was fired stays unready.
use seg.Prelude.{
  ℕ, ◌+◌, ◌-◌, ◌≤◌, ◌<◌, Bool, true, false, List, [], ◌∷◌, ◌≡◌, refl, arith, ltb, ◌==◌, max, inl,
  inr, Bool-cases,
}
use seg.Match.Tubes.{
  TubeStatus, reloading, TubeState, Stats, reload_for, fired, choose_for, choose_next, swap_from,
  swap_to, step_from, step_tube, can_fire,
}

abbrev made : ℕ → ℕ → ℕ → TubeStatus → ℕ → TubeState
made index weapon next status left = record {
  index = index;
  weapon = weapon;
  next = next;
  status = status;
  ready_in = left;
}

-- What a player and the clock do to a tube between two shots.
pub data TubeCommand : Type 0 where
  choose : ℕ → TubeCommand
  swap : ℕ → TubeCommand
  tick : ℕ → TubeCommand

unfoldable pub command : Stats → TubeCommand → TubeState → TubeState
command stats (choose weapon) tube = choose_next tube weapon
command stats (swap weapon) tube = swap_to tube weapon
command stats (tick dt) tube = step_tube tube stats dt

unfoldable pub commands : Stats → List TubeCommand → TubeState → TubeState
commands stats [] tube = tube
commands stats (c ∷ cs) tube = commands stats cs (command stats c tube)

abbrev pub time_of : List TubeCommand → ℕ
time_of [] = 0
time_of (tick dt ∷ cs) = dt + time_of cs
time_of (choose weapon ∷ cs) = time_of cs
time_of (swap weapon ∷ cs) = time_of cs

-- A tube that is reloading for longer than the commands take is still reloading after them.
still_reloading :
    (i w n left : ℕ) (stats : Stats) (cs : List TubeCommand)
    → time_of cs < left
    → (commands stats cs (made i w n reloading left)).status ≡ reloading
unfolding commands command swap_to swap_from choose_next choose_for step_tube step_from
still_reloading i w n left stats [] h = refl
still_reloading i w n left stats (tick dt ∷ cs) h =
    let e : ltb dt left ≡ true = ground arith in
    rw (e, commands, command, step_tube, step_from)
      (still_reloading i w n (left - dt) stats cs (omega arith))
still_reloading i w n left stats (choose weapon ∷ cs) h = elim (Bool-cases (n == weapon)) [
  | inl e ↦ rw (e, commands, command, choose_next) (still_reloading i w n left stats cs h)
  | inr e ↦ rw (e, commands, command, choose_next) (still_reloading i weapon weapon left stats cs h)
]
still_reloading i w n left stats (swap weapon ∷ cs) h = still_reloading i w n left stats cs h

-- After a shot, whatever the player chooses or swaps meanwhile, the tube does not fire again before
-- the reload of the boat is over, which takes a tenth of a second at least.
pub fired-holds :
    (is_tube_weapon : ℕ → Bool) (tube : TubeState) (stats : Stats) (cs : List TubeCommand)
    → time_of cs < reload_for stats
    → (can_fire is_tube_weapon (commands stats cs (fired tube stats)) ≡ false)
      × (100 ≤ reload_for stats)
unfolding can_fire fired reload_for
fired-holds is_tube_weapon tube stats cs h = (
  rw (still_reloading tube.index tube.next tube.next (max 100 stats.reload) stats cs h) refl,
  ground arith,
)
