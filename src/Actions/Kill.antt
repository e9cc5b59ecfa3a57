-- ===== src/Actions/Kill.antt =====
-- KillProcessAction, KillPortAction and KillWindowAction of internal/actions/actions.go.
pub mod Targets
use daemon_go.Prelude.{
  ℕ, zero, suc, Bool, true, false, ◌||◌, ◌&&◌, not, Option, none, some, List, [], ◌∷◌, ◌++◌, Text,
  Dict, codes, ◌==◌, contains, fields, split_from, trim_space, is_empty, ltb, length, if◌then◌else◌,
}
use daemon_go.Os.{Error, World, Output, run_cmd}
use daemon_go.Actions.Allowed.{param}

-- exec.Command(argv...) in the daemon's own directory
abbrev pub run_here : List Text → World → Output × World
run_here argv w = run_cmd (record { argv = argv; dir = [] }) w

-- the texts by which taskkill says that there is no such process
abbrev pub says_not_found : Text → Bool
says_not_found out =
    contains out (codes "没有找到进程") || contains out (codes "not found") || contains out (codes "没有找到")

abbrev pub error_text : Option Error → Text
error_text none = []
error_text (some e) = e

-- what follows a command whose failure is forgiven where `excused` holds
abbrev after_kill : Text → Option Error → Bool → Option Error
after_kill what none excused = none
after_kill what (some e) excused =
    if excused then none else some (codes "kill " ++ what ++ codes " failed: " ++ e)

unfoldable pub kill_process : Dict Text → World → Option Error × World
unfolding run_cmd contains
kill_process params w =
    let name = param (codes "processName") params in
    if name == []
    then (some (codes "processName is required"), w)
    else (let (o, w') = run_here (codes "taskkill" ∷ codes "/F" ∷ codes "/IM" ∷ name ∷ []) w in
        (after_kill (codes "process " ++ name) o.err (says_not_found o.out), w'))

-- fields[i] of a line that has it
abbrev pub field : ℕ → List Text → Text
field n [] = []
field zero (f ∷ fs) = f
field (suc n) (f ∷ fs) = field n fs

-- fields[len(fields)-1]
abbrev pub last_field : List Text → Text
last_field [] = []
last_field (f ∷ []) = f
last_field (f ∷ g ∷ fs) = last_field (g ∷ fs)

-- what the fields of a line of netstat say: a LISTENING line names a process
abbrev pub pid_of : List Text → Option Text
pid_of fs =
    if ltb (length fs) 5
    then none
    else if not (contains (field 3 fs) (codes "LISTENING"))
    then none
    else some (trim_space (last_field fs))

unfoldable pub listening_pid : Text → Option Text
unfolding fields contains trim_space
listening_pid line = pid_of (fields line)

-- if pid == "" || pid == "0" { continue }
abbrev pub wanted : Option Text → Option Text
wanted none = none
wanted (some pid) = if pid == [] || pid == codes "0" then none else some pid

abbrev pub taskkill : Text → List Text
taskkill pid = codes "taskkill" ∷ codes "/F" ∷ codes "/PID" ∷ pid ∷ []

-- The loop over the lines; whether something was killed is only logged.
unfoldable pub kill_loop : List Text → World → World
unfolding listening_pid run_cmd
kill_loop [] w = w
kill_loop (line ∷ lines) w = elim (wanted (listening_pid line)) [
  | none ↦ kill_loop lines w
  | some pid ↦ kill_loop lines (run_here (taskkill pid) w).1
]

abbrev pub netstat : Text → List Text
netstat port = codes "cmd" ∷ codes "/c" ∷ (codes "netstat -ano | findstr :" ++ port) ∷ []

-- what follows netstat: nothing where it failed or printed nothing
unfoldable pub kill_listed : Option Error → Text → World → Option Error × World
unfolding kill_loop split_from
kill_listed (some _) out w = (none, w)
kill_listed none [] w = (none, w)
kill_listed none (c ∷ out) w = (none, kill_loop (split_from 10 [] (c ∷ out)) w)

unfoldable pub kill_port : Dict Text → World → Option Error × World
unfolding run_cmd kill_listed
kill_port params w =
    let port = param (codes "port") params in
    if port == []
    then (some (codes "port is required"), w)
    else (let (o, w') = run_here (netstat port) w in kill_listed o.err o.out w')

-- the script that closes the windows whose title holds the text
abbrev window_script : Text → Text
window_script title =
    codes "Get-Process | Where-Object {$_.MainWindowTitle -like '*"
    ++ title
    ++ codes "*'} | ForEach-Object { $_.CloseMainWindow() }"

unfoldable pub kill_window : Dict Text → World → Option Error × World
unfolding run_cmd contains
kill_window params w =
    let title = param (codes "windowTitle") params in
    if title == []
    then (some (codes "windowTitle is required"), w)
    else (let (o, w') =
          run_here (codes "powershell" ∷ codes "-Command" ∷ window_script title ∷ []) w in
        (
          after_kill (codes "window " ++ title) o.err
              (contains o.out title || contains o.out (codes "CloseMainWindow")),
          w',
        ))
