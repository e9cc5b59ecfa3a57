-- ===== src/Tests/Actions.antt =====
-- The theorems on actions at concrete commands.
use daemon_go.Prelude.{
  ◌≡◌, ◌≢◌, ◌↔◌, refl, true, none, some, List, [], ◌∷◌, ◌++◌, map, Text, Dict, codes, ◌==◌, All,
  lookup, arith, split_from,
}
use daemon_go.Os.{World, run_cmd}
use daemon_go.Actions.Allowed.{param, absolute_path, is_command_allowed, run_command}
use daemon_go.Actions.Allowed.Guarded.{Allows, Ran, is_command_allowed_iff, run_command-Ran}
use daemon_go.Actions.Kill.{listening_pid, kill_port, netstat, taskkill, run_here}
use daemon_go.Actions.Kill.Targets.{here, targets, lines_of, Listeners, kill_port_lem}
use daemon_go.Actions.Split.{split_command}
use daemon_go.Actions.Split.Parts.{
  IsWord, odd_quotes, command_line, split_command-eq-none_iff, split_command-command_line,
}
use daemon_go.Config.{ActionConfig}
use daemon_go.Tests.Fixtures.{java, plain_platform, quiet_world, dead_world}

abbrev java_line : Text
java_line = codes "C:/java.exe -jar \"api.jar\""

abbrev java_params : Dict Text
java_params = (codes "command", java_line) ∷ (codes "workDir", codes "C:/srv") ∷ []

run_command-Ran_example :
    Ran plain_platform
      (java ∷ [])
      java_params
      dead_world
      (run_command plain_platform (java ∷ []) java_params dead_world)
run_command-Ran_example = run_command-Ran plain_platform (java ∷ []) java_params dead_world

is_command_allowed_iff_example :
    (is_command_allowed plain_platform
        (codes "C:/java.exe")
        (codes "-jar" ∷ codes "api.jar" ∷ [])
        (java ∷ [])
      ≡ true)
    ↔ Allows plain_platform
        (absolute_path plain_platform (codes "C:/java.exe"))
        (codes "-jar" ∷ codes "api.jar" ∷ [])
        (java ∷ [])
is_command_allowed_iff_example =
    is_command_allowed_iff plain_platform (codes "C:/java.exe")
      (codes "-jar" ∷ codes "api.jar" ∷ []) (java ∷ [])

java_allowed :
    is_command_allowed plain_platform
      (codes "C:/java.exe")
      (codes "-jar" ∷ codes "api.jar" ∷ [])
      (java ∷ [])
    ≡ true
unfolding is_command_allowed ◌==◌
java_allowed = refl

-- One line for port 80 and one for port 8080.
abbrev listening_world : World
listening_world =
    quiet_world
      (codes "TCP 0.0.0.0:80 0.0.0.0:0 LISTENING 12\nTCP 0.0.0.0:8080 0.0.0.0:0 LISTENING 34")

abbrev port_params : Dict Text
port_params = (codes "port", codes "80") ∷ []

port_named : param (codes "port") port_params ≢ []
unfolding lookup ◌==◌
port_named e = cc

kill_port_lem_example :
    ((kill_port port_params listening_world).0 ≡ none)
    × (pids : List Text) × Listeners
        (lines_of (run_here (netstat (param (codes "port") port_params)) listening_world).0)
        pids
    × ((kill_port port_params listening_world).1.ran
        ≡ []
          ++ here (netstat (param (codes "port") port_params))
            ∷ map (λ pid. here (taskkill pid)) pids)
kill_port_lem_example = kill_port_lem port_params listening_world port_named

-- Asked for port 80, the action ends the process of port 8080 as well.
kills_both_ports :
    targets (lines_of (run_here (netstat (codes "80")) listening_world).0)
    ≡ codes "12" ∷ codes "34" ∷ []
unfolding targets run_cmd listening_pid split_from ◌==◌
kills_both_ports = refl

java_split :
    split_command java_line ≡ some (codes "C:/java.exe" ∷ codes "-jar" ∷ codes "api.jar" ∷ [])
unfolding split_command
java_split = refl

split_command-eq-none_iff_example :
    (split_command (codes "a \"b") ≡ none) ↔ (odd_quotes (codes "a \"b") ≡ true)
split_command-eq-none_iff_example = split_command-eq-none_iff (codes "a \"b")

abbrev two_words : List Text
two_words = codes "a b" ∷ codes "c" ∷ []

two_words-IsWord : All IsWord two_words
two_words-IsWord = (
  ((λ e. cc), ((λ e. omega arith), ((λ e. omega arith), ((λ e. omega arith), tt)))),
  (((λ e. cc), ((λ e. omega arith), tt)), tt),
)

split_command-command_line_example : split_command (command_line two_words) ≡ some two_words
split_command-command_line_example = split_command-command_line two_words two_words-IsWord

abbrev wait_config : ActionConfig
wait_config = record { kind = codes "wait"; params = (codes "millis", codes "5") ∷ [] }
