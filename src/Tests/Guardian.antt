-- ===== src/Tests/Guardian.antt =====
-- The guardian's theorems on the project of the fixtures.
use daemon_go.Prelude.{◌+◌, ◌≡◌, refl}
use daemon_go.Prelude.Int.{pos, times}
use daemon_go.Os.{second}
use daemon_go.Guardian.{Scene, new_guardian}
use daemon_go.Guardian.Probe.{wait_loop, wait_fuel, wait_for_startup, add_duration}
use daemon_go.Guardian.Probe.Found.{wait_loop_fuel}
use daemon_go.Guardian.Start.{start_project}
use daemon_go.Guardian.Start.Outcome.{Outcome, start_project-Outcome}
use daemon_go.Tests.Fixtures.{dead_world, plain_setup, fresh_scene}

abbrev dead_scene : Scene
dead_scene = fresh_scene dead_world

start_project-Outcome_example : Outcome dead_scene.guardian (start_project plain_setup dead_scene)
unfolding new_guardian
start_project-Outcome_example = start_project-Outcome plain_setup dead_scene refl

wait_loop_fuel_example :
    let timeout = times (pos 2) second in
    wait_loop (3 + wait_fuel timeout) (add_duration 1_000 timeout) dead_scene
    ≡ wait_for_startup dead_scene
unfolding new_guardian
wait_loop_fuel_example = wait_loop_fuel 3 dead_scene
