-- ===== src/Main/Console/Guardians.antt =====
-- The guardians of a manager of internal/project/manager.go over an operation on one or on all.
use daemon_go.Prelude.{
  ◌≡◌, Bool-cases, inl, inr, Option, Option-cases, some, [], ◌∷◌, All, Text, Dict, subst, ◌==◌,
  lookup, insert,
}
use daemon_go.Os.{Error}
use daemon_go.Guardian.{ProjectGuardian, Scene}
use daemon_go.Guardian.Run.Invariant.{IsValid}
use daemon_go.Manager.{Daemon, map_guardians, scene_of, on_guardian}

abbrev pub AllValid : Dict ProjectGuardian → Type 0
AllValid gs = All (λ (e : Text × ProjectGuardian). IsValid e.1) gs

pub AllValid-insert :
    (name : Text) (g : ProjectGuardian) (gs : Dict ProjectGuardian)
    → IsValid g
    → AllValid gs
    → AllValid (insert name g gs)
unfolding insert
AllValid-insert name g [] v h = (v, tt)
AllValid-insert name g ((key, old) ∷ gs) v (h, hs) = elim (Bool-cases (key == name)) [
  | inl same ↦ rw same (v, hs)
  | inr other ↦ rw other (h, AllValid-insert name g gs v hs)
]

pub AllValid-lookup :
    (name : Text) (g : ProjectGuardian) (gs : Dict ProjectGuardian)
    → AllValid gs
    → lookup name gs ≡ some g
    → IsValid g
unfolding lookup
AllValid-lookup name g [] h e = cc
AllValid-lookup name g ((key, old) ∷ gs) (h, hs) e = elim (Bool-cases (key == name)) [
  | inl same ↦
      let both : some old ≡ some g = rw same at e in let it : old ≡ g = cc in subst IsValid it h
  | inr other ↦ AllValid-lookup name g gs hs (rw other at e)
]

pub AllValid-map_guardians :
    (f : ProjectGuardian → ProjectGuardian)
    → ((g : ProjectGuardian) → IsValid g → IsValid (f g))
    → (gs : Dict ProjectGuardian) → AllValid gs
    → AllValid (map_guardians f gs)
AllValid-map_guardians f k [] h = tt
AllValid-map_guardians f k ((key, g) ∷ gs) (h, hs) = (k g h, AllValid-map_guardians f k gs hs)

pub record IsSoundDaemon (d : Daemon) : Type 0 where
  pub all : AllValid d.manager.guardians

pub on_guardian-IsSoundDaemon :
    (f : Scene → Option Error × Scene)
    → ((s : Scene) → IsValid s.guardian → IsValid (f s).1.guardian)
    → (name : Text) (d : Daemon) → IsSoundDaemon d
    → IsSoundDaemon (on_guardian f name d).1
unfolding on_guardian
on_guardian-IsSoundDaemon f k name d h = elim (Option-cases (lookup name d.manager.guardians)) [
  | inl unknown ↦ rw unknown h
  | inr (g, known) ↦ rw known (record {
    all =
        AllValid-insert name (f (scene_of d g)).1.guardian d.manager.guardians
          (k (scene_of d g) (AllValid-lookup name g d.manager.guardians h.all known)) h.all;
  })
]
