-- ===== src/Actions/Allowed.antt =====
-- isCommandAllowed and RunCommandAction of internal/actions/actions.go. Packages filepath and
-- regexp, and strings.EqualFold, are the parameter `Platform`.
pub mod Guarded
use daemon_go.Prelude.{
  Bool, true, false, Option, none, some, List, [], ◌∷◌, ◌++◌, Text, Dict, codes, ◌==◌, lookup, join,
  is_empty, if◌then◌else◌,
}
use daemon_go.Os.{Error, World, or_empty, run_cmd, stat}
use daemon_go.Config.{AllowedCommand}
use daemon_go.Actions.Split.{split_command}

pub record Platform : Type 0 where
  pub absolute : Text → Option Text  -- filepath.Abs
  pub dir : Text → Text  -- filepath.Dir
  pub equal_fold : Text → Text → Bool  -- strings.EqualFold
  pub compile : Text → Option (Text → Bool)  -- regexp.Compile, and MatchString of its result

-- absExec: the path as it stands where it cannot be made absolute
abbrev pub or_else : Option Text → Text → Text
or_else none path = path
or_else (some abs) path = abs

abbrev pub absolute_path : Platform → Text → Text
absolute_path p path = or_else (p.absolute path) path

-- len(args) == 0
abbrev pub has_none : List Text → Bool
has_none [] = true
has_none (_ ∷ _) = false

-- the end of the loop's body; `rest` is what the later entries decide
abbrev match_pattern : Option (Text → Bool) → Text → Bool → Bool
match_pattern none args rest = rest
match_pattern (some re) args rest = re args

-- The loop over the allowed commands.
unfoldable pub allowed_loop : Platform → Text → List Text → List AllowedCommand → Bool
unfolding join
allowed_loop p abs args [] = false
allowed_loop p abs args (ac ∷ allowed) =
    let rest = allowed_loop p abs args allowed in
    if p.equal_fold ac.path abs
    then if ac.args_pattern == []
      then has_none args
      else match_pattern (p.compile ac.args_pattern) (join b' ' args) rest
    else rest

unfoldable pub is_command_allowed : Platform → Text → List Text → List AllowedCommand → Bool
unfolding allowed_loop
is_command_allowed p executable args allowed =
    allowed_loop p (absolute_path p executable) args allowed

-- params[key], the empty text where there is none
abbrev pub param : Text → Dict Text → Text
param key params = or_empty (lookup key params)

-- what follows os.Stat
unfoldable pub run_found : Text → List Text → Text → Bool × World → Option Error × World
unfolding run_cmd
run_found executable args dir (true, w) =
    let (output, w') = run_cmd (record { argv = executable ∷ args; dir = dir }) w in
    (output.err, w')
run_found executable args dir (false, w) = (some (codes "executable not found: " ++ executable), w)

-- what follows the split: `parts` is what it returned
unfoldable pub run_parts :
    Platform → List AllowedCommand → Dict Text → Option (List Text) → World → Option Error × World
unfolding run_found stat
run_parts p allowed params none w = (some (codes "parse command failed: unbalanced quote"), w)
run_parts p allowed params (some []) w = (some (codes "empty command"), w)
run_parts p allowed params (some (executable ∷ args)) w =
    if is_command_allowed p executable args allowed
    then run_found executable args (param (codes "workDir") params) (stat executable w)
    else (some (codes "command not allowed"), w)

-- RunCommandAction.Execute
unfoldable pub run_command :
    Platform → List AllowedCommand → Dict Text → World → Option Error × World
unfolding run_parts
run_command p allowed params w =
    let line = param (codes "command") params in
    if line == []
    then (some (codes "command is required"), w)
    else run_parts p allowed params (split_command line) w
