-- ===== src/Main/Flags.antt =====
-- flag.Parse as cmd/daemon/main.go uses it, with the one flag `instance`, and the search for a
-- command among the arguments that it leaves.
use daemon_go.Prelude.{
  ℕ, ◌≡◌, refl, Option, none, some, List, [], ◌∷◌, Text, codes, ◌==◌, eqb, ◌||◌, if◌then◌else◌,
}
use daemon_go.Service.Command.{Command, command_of}

-- what parseOne makes of an argument: not a flag, `--`, bad syntax, a name, or `name=value`
pub data Word : Type 0 where
  positional terminator malformed : Word
  name_only : Text → Word
  name_value : Text → Text → Word

abbrev push_name : ℕ → Word → Word
push_name c (name_only name) = name_only (c ∷ name)
push_name c (name_value name value) = name_value (c ∷ name) value
push_name c w = w

-- the search for `=` behind the first character of a name
unfoldable pub cut_name : Text → Word
cut_name [] = name_only []
cut_name (c ∷ s) = let rest = cut_name s in if eqb c b'=' then name_value [] s else push_name c rest

abbrev named : Text → Word
named [] = malformed
named (c ∷ s) = if eqb c b'-' || eqb c b'=' then malformed else push_name c (cut_name s)

abbrev after_dash : Text → Word
after_dash [] = positional
after_dash (c ∷ s) =
    if eqb c b'-' then (elim s [ [] ↦ terminator | d ∷ t ↦ named (d ∷ t) ]) else named (c ∷ s)

unfoldable pub word_of : Text → Word
unfolding cut_name
word_of [] = positional
word_of (c ∷ s) = if eqb c b'-' then after_dash s else positional

-- what Parse leaves: the instance and the other arguments; with ExitOnError the process ends on a
-- request for help with code 0, and on an error with code 2
pub data Flags : Type 0 where
  accepted : Text → List Text → Flags
  help_shown flag_error : Flags

-- a name that is not `instance`
abbrev unknown_flag : Text → Flags
unknown_flag name = if name == codes "help" || name == codes "h" then help_shown else flag_error

-- Parse from a flag on: `inline` is what follows where its value is written behind `=`, `next` where
-- the next argument is its value
abbrev parse_word : Text → List Text → Word → (Text → Flags) → Flags → Flags → Flags
parse_word instance_name args positional inline next stop = accepted instance_name args
parse_word instance_name args terminator inline next stop = stop
parse_word instance_name args malformed inline next stop = flag_error
parse_word instance_name args (name_only name) inline next stop =
    if name == codes "instance" then next else unknown_flag name
parse_word instance_name args (name_value name value) inline next stop =
    if name == codes "instance" then inline value else unknown_flag name

-- Parse
unfoldable pub parse_flags : Text → List Text → Flags
unfolding word_of
parse_flags instance_name [] = accepted instance_name []
parse_flags instance_name (s ∷ []) =
    parse_word instance_name (s ∷ []) (word_of s) (λ value. accepted value []) flag_error
      (accepted instance_name [])
parse_flags instance_name (s ∷ v ∷ rest) =
    parse_word instance_name (s ∷ v ∷ rest) (word_of s) (λ value. parse_flags value (v ∷ rest))
      (parse_flags v rest) (accepted instance_name (v ∷ rest))

abbrev or_command : Option Command → Text → Text → Text
or_command none arg cmd = cmd
or_command (some c) arg cmd = arg

-- the loop over flag.Args(): the last command wins
unfoldable pub last_command : Text → List Text → Text
unfolding command_of
last_command cmd [] = cmd
last_command cmd (arg ∷ args) = last_command (or_command (command_of arg) arg cmd) args

flags_read :
    (parse_flags (codes "a") (codes "--instance" ∷ codes "b" ∷ codes "install" ∷ [])
      ≡ accepted (codes "b") (codes "install" ∷ []))
    × (parse_flags (codes "a") (codes "-instance=b" ∷ codes "x" ∷ codes "-instance" ∷ [])
        ≡ accepted (codes "b") (codes "x" ∷ codes "-instance" ∷ []))
    × (parse_flags (codes "a") (codes "-instance" ∷ []) ≡ flag_error)
    × (parse_flags (codes "a") (codes "-h" ∷ []) ≡ help_shown)
    × (parse_flags (codes "a") (codes "--" ∷ codes "-h" ∷ [])
        ≡ accepted (codes "a") (codes "-h" ∷ []))
unfolding parse_flags ◌==◌
flags_read = (refl, refl, refl, refl, refl)

commands_found :
    last_command [] (codes "stop" ∷ codes "x" ∷ codes "start" ∷ codes "y" ∷ []) ≡ codes "start"
unfolding last_command ◌==◌
commands_found = refl
