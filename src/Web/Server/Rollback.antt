-- ===== src/Web/Server/Rollback.antt =====
-- internal/web/server.go: the backup of a configuration, and its return after a failed write.
use daemon_go.Prelude.{
  Bool, true, false, ◌≡◌, inl, inr, ◌⊎◌, lookup, insert, delete, lookup-insert, lookup-delete,
  eq_refl, refl, none, some, Text, codes, ◌==◌, ◌∙◌, ap, Bool-cases, Option-cases,
}
use daemon_go.Os.{Error, Disk, write_file, stat_file, rename}
use daemon_go.Os.Files.{rename_denied, rename_moves, rename-SameAccess, SameAccess}
use daemon_go.Config.{DaemonConfig}
use daemon_go.Config.Files.{save}
use daemon_go.Manager.{Daemon}
use daemon_go.Web.Server.{Server}
use daemon_go.Web.Server.Save.{config_file, backup_file, back_up, save_config}

pub back_up-SameAccess : (d : Disk) → SameAccess d (back_up d)
unfolding back_up
back_up-SameAccess d = elim (Option-cases (stat_file config_file d)) [
  | inl missing ↦
      rw (missing, back_up) (record { readable = refl; writable = refl; movable = refl })
  | inr (text, found) ↦ rw (found, back_up) (rename-SameAccess config_file backup_file d)
]

-- The configuration is where it was, and the backup is lost if it could be moved away and back.
abbrev pub Restored : Text → Disk → Disk → Type 0
Restored text d e =
    (lookup config_file e.files ≡ some text)
    × ((e ≡ d)
        ⊎ ((d.movable config_file ≡ true)
            × (d.movable backup_file ≡ true)
            × (lookup backup_file e.files ≡ none)))

back_up_found :
    (text : Text) (d : Disk)
    → lookup config_file d.files ≡ some text
    → back_up d ≡ (rename config_file backup_file d).1
unfolding back_up stat_file
back_up_found text d found = rw (found, back_up) refl

apart_names : (config_file == backup_file) ≡ false
unfolding ◌==◌
apart_names = refl

not_moved :
    (text : Text) (d : Disk)
    → lookup config_file d.files ≡ some text
    → (d.movable config_file ≡ false) ⊎ (d.movable backup_file ≡ false)
    → Restored text d (rename backup_file config_file (back_up d)).1
not_moved text d found fixed =
    let swapped : (d.movable backup_file ≡ false) ⊎ (d.movable config_file ≡ false) = elim fixed [
      | inl a ↦ inr a
      | inr b ↦ inl b
    ] in
    rw
      (
        back_up_found text d found ∙ rename_denied config_file backup_file d fixed,
        rename_denied backup_file config_file d swapped,
      )
      (found, inl refl)

moved_back :
    (text : Text) (d : Disk)
    → lookup config_file d.files ≡ some text
    → d.movable config_file ≡ true
    → d.movable backup_file ≡ true
    → Restored text d (rename backup_file config_file (back_up d)).1
moved_back text d found away back =
    let d₁ : Disk = record d { files = insert backup_file text (delete config_file d.files) } in
    let there : back_up d ≡ d₁ =
      back_up_found text d found ∙ rename_moves config_file backup_file d text found away back in
    let held : lookup backup_file d₁.files ≡ some text =
      lookup-insert backup_file backup_file text (delete config_file d.files)
      ∙ rw (eq_refl backup_file) refl in
    rw (there, rename_moves backup_file config_file d₁ text held back away)
      (
        lookup-insert config_file config_file text (delete backup_file d₁.files)
            ∙ rw (eq_refl config_file) refl,
        inr (
          away,
          back,
          lookup-insert config_file backup_file text (delete backup_file d₁.files)
              ∙ rw apart_names
                  (lookup-delete backup_file backup_file d₁.files ∙ rw (eq_refl backup_file) refl),
        ),
      )

rolled_back :
    (text : Text) (d : Disk)
    → lookup config_file d.files ≡ some text
    → Restored text d (rename backup_file config_file (back_up d)).1
rolled_back text d found = elim (Bool-cases (d.movable config_file)) [
  | inr fixed ↦ not_moved text d found (inl fixed)
  | inl away ↦ elim (Bool-cases (d.movable backup_file)) [
    | inr fixed ↦ not_moved text d found (inr fixed)
    | inl back ↦ moved_back text d found away back
  ]
]

module _ (server : Server) (d : Daemon) where
  save_denied :
      (cfg : DaemonConfig) (disk : Disk)
      → disk.writable config_file ≡ false
      → (err : Error) × (save server.yaml cfg config_file disk ≡ (some err, disk))
  unfolding save write_file
  save_denied cfg disk denied = (codes "open: access denied", rw denied refl)

  -- There is a configuration file, and it cannot be written: the console is told that nothing was
  -- saved, and the file holds what it held, whether it could be moved to the backup and back or not.
  -- Where it could, a former backup is lost. The manager and the events are as they were.
  pub save_config_denied :
      (cfg : DaemonConfig) (text : Text)
      → lookup config_file d.world.disk.files ≡ some text
      → d.world.disk.writable config_file ≡ false
      → let (response, e) = save_config server d (inr cfg) in
        (response.code ≡ 500)
        × (e.manager ≡ d.manager)
        × (e.store ≡ d.store)
        × Restored text d.world.disk e.world.disk
  unfolding save_config
  save_config_denied cfg text found denied =
      let disk : Disk = back_up d.world.disk in
      let same : SameAccess d.world.disk disk = back_up-SameAccess d.world.disk in
      let (err, e) =
        save_denied cfg disk (ap (λ (f : Text → Bool). f config_file) same.writable ∙ denied) in
      rw e (refl, refl, refl, rolled_back text d.world.disk found)
