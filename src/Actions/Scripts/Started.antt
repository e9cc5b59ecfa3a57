-- ===== src/Actions/Scripts/Started.antt =====
-- What the script functions start.
use daemon_go.Prelude.{
  ◌≡◌, ◌≢◌, ◌↔◌, refl, true, false, Bool, Bool-cases, inl, inr, Option, none, [], ◌∷◌, ◌++◌, Text,
  ◌==◌, eq_iff, arith,
}
use daemon_go.Os.{Error, World, stat}
use daemon_go.Actions.Allowed.{Platform}
use daemon_go.Actions.Scripts.{sanitize_script_path, script_cmd, start_found, run_start_script}

-- What a start did: it started nothing and returns an error, or it started the cleaned script, and
-- then returns an error exactly when that command failed.
pub data Started (p : Platform) (path work_dir : Text) (w : World) (r : Option Error × World)
    : Type 0 where
  refused : r.0 ≢ none → r.1.ran ≡ w.ran → Started p path work_dir w r
  started :
      sanitize_script_path path ≢ []
      → (failure : Option Error) → (r.0 ≡ none) ↔ (failure ≡ none)
      → r.1.ran ≡ w.ran ++ script_cmd p (sanitize_script_path path) work_dir ∷ []
      → Started p path work_dir w r

start_found-Started :
    (p : Platform) (path work_dir : Text) (sync found : Bool) (w w' : World)
    → sanitize_script_path path ≢ []
    → w'.ran ≡ w.ran
    → Started p path work_dir w
        (start_found p (sanitize_script_path path) work_dir sync (found, w'))
unfolding start_found
start_found-Started p path work_dir sync false w w' n e = refused (λ h. cc) e
start_found-Started p path work_dir true true w w' n e =
    started n (w'.reply w'.calls (script_cmd p (sanitize_script_path path) work_dir)).err
      (ground arith) (cc e)
start_found-Started p path work_dir false true w w' n e =
    started n (w'.reply w'.calls (script_cmd p (sanitize_script_path path) work_dir)).err
      (ground arith) (cc e)

-- A start script, waited for or not, either is refused with an error and nothing is started, or
-- exactly the script without control characters at its ends is started through `cmd /c` in its
-- working directory, with an error exactly when that command fails.
pub run_start_script-Started :
    (p : Platform) (path work_dir : Text) (sync : Bool) (w : World)
    → Started p path work_dir w (run_start_script p path work_dir sync w)
unfolding run_start_script
run_start_script-Started p path work_dir sync w =
    elim (Bool-cases (sanitize_script_path path == [])) [
      | inl blank ↦ rw blank (refused (λ h. cc) refl)
      | inr script ↦ rw script (
          start_found-Started p path work_dir sync _ w (stat (sanitize_script_path path) w).1
            (ground (arith, eq_iff (sanitize_script_path path) [])) (unfold stat in refl))
    ]
