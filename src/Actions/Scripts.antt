-- ===== src/Actions/Scripts.antt =====
-- Start and stop scripts, and the two probes, of internal/actions/actions.go.
pub mod Started
use daemon_go.Prelude.{
  ℕ, Bool, true, false, ◌||◌, Option, none, some, List, [], ◌∷◌, ◌++◌, Text, codes, ◌==◌, contains,
  trim_func, trim_space, eqb, leb, ◌&&◌, if◌then◌else◌,
}
use daemon_go.Prelude.Int.{ℤ}
use daemon_go.Os.{Error, World, Output, Cmd, run_cmd, start_cmd, stat, dial}
use daemon_go.Actions.Allowed.{Platform}

-- the control characters of sanitizeScriptPath
unfoldable pub is_control : ℕ → Bool
is_control r =
    eqb r 0x202A
    || eqb r 0x202B
    || eqb r 0x202C
    || eqb r 0x202D
    || eqb r 0x202E
    || eqb r 0x2066
    || eqb r 0x2067
    || eqb r 0x2068
    || eqb r 0x2069
    || eqb r 0xFEFF

unfoldable pub sanitize_script_path : Text → Text
unfolding trim_func is_control
sanitize_script_path path = trim_func is_control path

unfoldable pub resolve_work_dir : Platform → Text → Text
unfolding trim_space
resolve_work_dir p path =
    let trimmed = trim_space path in if trimmed == [] then [] else p.dir trimmed

-- the working directory of a script: given and cleaned, or found from the script
abbrev pub script_dir : Platform → Text → Text → Text
script_dir p script work_dir =
    if work_dir == [] then resolve_work_dir p script else sanitize_script_path work_dir

abbrev pub script_cmd : Platform → Text → Text → Cmd
script_cmd p script work_dir = record {
  argv = codes "cmd" ∷ codes "/c" ∷ script ∷ [];
  dir = script_dir p script work_dir;
}

abbrev script_error : Option Error → Option Error
script_error none = none
script_error (some e) = some (codes "start script failed: " ++ e)

-- what follows os.Stat: `sync` waits for the script, and otherwise it is only started
unfoldable pub start_found : Platform → Text → Text → Bool → Bool × World → Option Error × World
unfolding run_cmd start_cmd resolve_work_dir sanitize_script_path
start_found p script work_dir sync (false, w) =
    (some (codes "start script not found: " ++ script), w)
start_found p script work_dir true (true, w) =
    let (o, w') = run_cmd (script_cmd p script work_dir) w in (script_error o.err, w')
start_found p script work_dir false (true, w) =
    let (e, w') = start_cmd (script_cmd p script work_dir) w in (script_error e, w')

unfoldable pub run_start_script : Platform → Text → Text → Bool → World → Option Error × World
unfolding start_found stat
run_start_script p path work_dir sync w =
    let script = sanitize_script_path path in
    if script == []
    then (some (codes "start script is empty"), w)
    else start_found p script work_dir sync (stat script w)

-- StopProject
unfoldable pub run_stop_script : Platform → Text → Text → World → Option Error × World
unfolding run_cmd resolve_work_dir sanitize_script_path
run_stop_script p path work_dir w =
    let script = sanitize_script_path path in
    if script == []
    then (none, w)
    else (let (o, w') = run_cmd (script_cmd p script work_dir) w in (o.err, w'))

-- CheckPort
unfoldable pub check_port : Text → ℤ → World → Bool × World
unfolding dial
check_port host port w = dial host port w

abbrev pub listed : Text → Output → Bool
listed name o = elim o.err [ none ↦ contains o.out name | some _ ↦ false ]

abbrev pub tasklist : Text → List Text
tasklist name = codes "tasklist" ∷ codes "/FI" ∷ (codes "IMAGENAME eq " ++ name) ∷ []

-- CheckProcess
unfoldable pub check_process : Text → World → Bool × World
unfolding run_cmd contains
check_process name w =
    let (o, w') = run_cmd (record { argv = tasklist name; dir = [] }) w in (listed name o, w')
