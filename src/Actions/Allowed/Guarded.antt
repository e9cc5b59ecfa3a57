-- ===== src/Actions/Allowed/Guarded.antt =====
-- internal/actions/actions.go: the allow-list of run_command, and RunCommandAction.
use daemon_go.Prelude.{
  ◌≡◌, ◌≢◌, ◌↔◌, refl, inl, inr, Bool, true, false, Option, none, some, List, [], ◌∷◌, ◌++◌, Text,
  Dict, codes, ◌==◌, eq_iff, join, arith, Bool-cases, Option-cases,
}
use daemon_go.Os.{Error, World}
use daemon_go.Config.{AllowedCommand}
use daemon_go.Actions.Allowed.{
  Platform, absolute_path, allowed_loop, is_command_allowed, param, run_parts, run_command,
}
use daemon_go.Actions.Split.{split_command}

-- The entry grants the arguments: it has no pattern and there are none, or its pattern compiles
-- and matches their text.
pub data Grants (p : Platform) (ac : AllowedCommand) (args : List Text) : Type 0 where
  bare : ac.args_pattern ≡ [] → args ≡ [] → Grants p ac args
  matches :
      (re : Text → Bool)
      → ac.args_pattern ≢ []
      → p.compile ac.args_pattern ≡ some re
      → re (join b' ' args) ≡ true
      → Grants p ac args

-- The entry says nothing of the command: another path, or a pattern that does not compile.
pub data Silent (p : Platform) (abs : Text) (ac : AllowedCommand) : Type 0 where
  other_path : p.equal_fold ac.path abs ≡ false → Silent p abs ac
  bad_pattern : ac.args_pattern ≢ [] → p.compile ac.args_pattern ≡ none → Silent p abs ac

-- The first entry that is not silent has the path and grants the arguments.
pub data Allows (p : Platform) (abs : Text) (args : List Text) : List AllowedCommand → Type 0 where
  here :
      {ac : AllowedCommand} {rest : List AllowedCommand}
      → p.equal_fold ac.path abs ≡ true
      → Grants p ac args
      → Allows p abs args (ac ∷ rest)
  later :
      {ac : AllowedCommand} {rest : List AllowedCommand}
      → Silent p abs ac
      → Allows p abs args rest
      → Allows p abs args (ac ∷ rest)

module _ (p : Platform) (abs : Text) (args : List Text) where
  allowed_loop_sound :
      (allowed : List AllowedCommand)
      → allowed_loop p abs args allowed ≡ true
      → Allows p abs args allowed
  unfolding allowed_loop
  allowed_loop_sound [] h = cc
  allowed_loop_sound (ac ∷ rest) h =
      let blank = eq_iff ac.args_pattern [] in
      elim (Bool-cases (p.equal_fold ac.path abs)) [
        | inr f ↦ later (other_path f) (allowed_loop_sound rest (ground arith))
        | inl f ↦ elim (Bool-cases (ac.args_pattern == [])) [
          | inl e ↦ here f (bare (blank.0 e) (ground arith))
          | inr n ↦ elim (Option-cases (p.compile ac.args_pattern)) [
            | inl c ↦ later (bad_pattern (ground arith) c) (allowed_loop_sound rest (ground arith))
            | inr (re, c) ↦ here f (matches re (ground arith) c (ground arith))
          ]
        ]
      ]

  allowed_loop_complete :
      (allowed : List AllowedCommand)
      → Allows p abs args allowed
      → allowed_loop p abs args allowed ≡ true
  unfolding allowed_loop
  allowed_loop_complete [] h = elim h [ ]
  allowed_loop_complete (ac ∷ rest) (here f (bare e n)) = ground (arith, eq_iff ac.args_pattern [])
  allowed_loop_complete (ac ∷ rest) (here f (matches re n c m)) =
      ground (arith, eq_iff ac.args_pattern [])
  allowed_loop_complete (ac ∷ rest) (later (other_path f) more) =
      ground (arith, allowed_loop_complete rest more)
  allowed_loop_complete (ac ∷ rest) (later (bad_pattern e c) more) =
      ground (arith, eq_iff ac.args_pattern [], allowed_loop_complete rest more)

-- A command is allowed exactly when the first entry that is not silent about it has its absolute
-- path and grants its arguments; with no entries nothing is allowed.
pub is_command_allowed_iff :
    (p : Platform) (executable : Text) (args : List Text) (allowed : List AllowedCommand)
    → (is_command_allowed p executable args allowed ≡ true)
      ↔ Allows p (absolute_path p executable) args allowed
unfolding is_command_allowed
is_command_allowed_iff p executable args allowed =
    let abs = absolute_path p executable in
    (allowed_loop_sound p abs args allowed, allowed_loop_complete p abs args allowed)

-- What RunCommandAction did: it started nothing and returns an error, or it started one command,
-- which the list allows.
pub data Ran (p : Platform) (allowed : List AllowedCommand) (params : Dict Text) (w : World)
    (r : Option Error × World) : Type 0 where
  nothing : r.0 ≢ none → r.1.ran ≡ w.ran → Ran p allowed params w r
  one :
      (executable : Text) (args : List Text)
      → split_command (param (codes "command") params) ≡ some (executable ∷ args)
      → Allows p (absolute_path p executable) args allowed
      → r.1.ran
        ≡ w.ran ++ (record { argv = executable ∷ args; dir = param (codes "workDir") params }) ∷ []
      → Ran p allowed params w r

module _ (p : Platform) (allowed : List AllowedCommand) (params : Dict Text) (w : World) where
  run_parts-Ran :
      (parts : Option (List Text))
      → split_command (param (codes "command") params) ≡ parts
      → Ran p allowed params w (run_parts p allowed params parts w)
  unfolding run_parts
  run_parts-Ran none e = nothing (λ h. cc) refl
  run_parts-Ran (some []) e = nothing (λ h. cc) refl
  run_parts-Ran (some (executable ∷ args)) e =
      elim (Bool-cases (is_command_allowed p executable args allowed)) [
        | inl t ↦ elim (Bool-cases (w.exists w.calls executable)) [
          | inl found ↦
              rw (t, found)
                (one executable args e ((is_command_allowed_iff p executable args allowed).0 t)
                  refl)
          | inr missing ↦ rw (t, missing) (nothing (λ h. cc) refl)
        ]
        | inr f ↦ rw f (nothing (λ h. cc) refl)
      ]

  -- A `runCommand` action starts nothing and returns an error, or it starts exactly the command of
  -- its command line, in its working directory, and then the list allows that command.
  pub run_command-Ran : Ran p allowed params w (run_command p allowed params w)
  unfolding run_command
  run_command-Ran = elim (Bool-cases (param (codes "command") params == [])) [
    | inl blank ↦ rw blank (nothing (λ h. cc) refl)
    | inr line ↦ rw line (run_parts-Ran (split_command (param (codes "command") params)) refl)
  ]
