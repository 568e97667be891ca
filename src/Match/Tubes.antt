-- ===== src/Match/Tubes.antt =====
-- packages/shared/src/match/tubes.ts. Seconds, which are floating point numbers there, are natural
-- numbers of milliseconds; the rounding of the additions is not modelled. `remaining` is kept
-- apart as what is left and what a tick has over. Weapon ids are numbers; which of them a tube
-- fires and their names, out of the content tables, are parameters.
pub mod Timing
use seg.Prelude.{
  ℕ, ◌+◌, ◌-◌, String, Bool, true, false, ◌&&◌, Option, none, some, ltb, ◌==◌, if◌then◌else◌, max,
}

pub data TubeStatus : Type 0 where
  loaded reloading unloading empty : TubeStatus

abbrev pub is_loaded : TubeStatus → Bool
is_loaded loaded = true
is_loaded _ = false

pub record TubeState : Type 0 where
  pub index : ℕ
  pub weapon : ℕ
  pub next : ℕ
  pub status : TubeStatus
  pub ready_in : ℕ

-- The two statistics that the loading gear reads.
pub record Stats : Type 0 where
  pub reload : ℕ
  pub countermeasure_reload : ℕ

abbrev pub unload_time : ℕ
unload_time = 8000

unfoldable pub reload_for : Stats → ℕ
reload_for stats = max 100 stats.reload

unfoldable pub countermeasure_reload_for : Stats → ℕ
countermeasure_reload_for stats = max 100 stats.countermeasure_reload

unfoldable pub new_tube : ℕ → ℕ → TubeState
new_tube index weapon = record {
  index = index;
  weapon = weapon;
  next = weapon;
  status = loaded;
  ready_in = 0;
}

unfoldable pub can_fire : (ℕ → Bool) → TubeState → Bool
can_fire is_tube_weapon tube = is_loaded tube.status && is_tube_weapon tube.weapon

unfoldable pub fired : TubeState → Stats → TubeState
fired tube stats = record tube {
  weapon = tube.next;
  status = reloading;
  ready_in = reload_for stats;
}

unfoldable pub choose_for : TubeStatus → TubeState → ℕ → TubeState
choose_for reloading tube weapon = record tube { next = weapon; weapon = weapon }
choose_for _ tube weapon = record tube { next = weapon }

unfoldable pub choose_next : TubeState → ℕ → TubeState
choose_next tube weapon = if tube.next == weapon then tube else choose_for tube.status tube weapon

unfoldable pub swap_from : TubeStatus → TubeState → ℕ → TubeState
swap_from loaded tube weapon = record tube {
  next = weapon;
  status = unloading;
  ready_in = unload_time;
}
swap_from _ tube weapon = tube

unfoldable pub swap_to : TubeState → ℕ → TubeState
swap_to tube weapon = swap_from tube.status tube weapon

-- `Math.max(0, reloadSecondsFor(stats) + remaining)`, where `remaining` is minus what is over.
unfoldable pub step_from : TubeStatus → TubeState → Stats → ℕ → TubeState
step_from reloading tube stats dt =
    if ltb dt tube.ready_in
    then record tube { ready_in = tube.ready_in - dt }
    else record tube { status = loaded; ready_in = 0 }
step_from unloading tube stats dt =
    if ltb dt tube.ready_in then record tube { ready_in = tube.ready_in - dt } else record tube {
      weapon = tube.next;
      status = reloading;
      ready_in = reload_for stats - (dt - tube.ready_in);
    }
step_from _ tube stats dt = tube

unfoldable pub step_tube : TubeState → Stats → ℕ → TubeState
step_tube tube stats dt = step_from tube.status tube stats dt

-- The text of why a tube cannot fire, with the number that the player sees.
pub data TubeProblem : Type 0 where
  is_reloading is_being_emptied is_out_of_action : ℕ → TubeProblem
  cannot_be_fired : String → TubeProblem

unfoldable pub problem_of : TubeStatus → (ℕ → String) → TubeState → TubeProblem
problem_of reloading name tube = is_reloading (tube.index + 1)
problem_of unloading name tube = is_being_emptied (tube.index + 1)
problem_of empty name tube = is_out_of_action (tube.index + 1)
problem_of loaded name tube = cannot_be_fired (name tube.weapon)

unfoldable pub describe_tube_problem : (ℕ → Bool) → (ℕ → String) → TubeState → Option TubeProblem
describe_tube_problem is_tube_weapon name tube =
    if is_loaded tube.status && is_tube_weapon tube.weapon
    then none
    else some (problem_of tube.status name tube)

pub data LauncherStatus : Type 0 where
  ready refilling : LauncherStatus

pub record CountermeasureState : Type 0 where
  pub status : LauncherStatus
  pub ready_in : ℕ

unfoldable pub new_launcher : CountermeasureState
new_launcher = record { status = ready; ready_in = 0 }

abbrev pub is_ready : LauncherStatus → Bool
is_ready ready = true
is_ready refilling = false

unfoldable pub can_drop : CountermeasureState → Bool
can_drop launcher = is_ready launcher.status

unfoldable pub dropped : CountermeasureState → Stats → CountermeasureState
dropped launcher stats = record launcher {
  status = refilling;
  ready_in = countermeasure_reload_for stats;
}

unfoldable pub step_launcher_from : LauncherStatus → CountermeasureState → ℕ → CountermeasureState
step_launcher_from ready launcher dt = launcher
step_launcher_from refilling launcher dt =
    if ltb dt launcher.ready_in
    then record launcher { ready_in = launcher.ready_in - dt }
    else record { status = ready; ready_in = 0 }

unfoldable pub step_launcher : CountermeasureState → ℕ → CountermeasureState
step_launcher launcher dt = step_launcher_from launcher.status launcher dt
