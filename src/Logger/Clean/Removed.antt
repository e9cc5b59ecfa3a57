-- ===== src/Logger/Clean/Removed.antt =====
-- internal/logger/logger.go: what cleanOld leaves of the files.
use daemon_go.Prelude.{
  ℕ, ◌≡◌, ◌⊎◌, ◌+◌, ◌*◌, ◌<◌, ◌++◌, ◌∙◌, inl, inr, refl, true, false, ◌&&◌, Bool-cases,
  Option-cases, has_prefix, has_prefix-split, has_prefix-append, codes, none, some, List, [], ◌∷◌,
  Text, ◌==◌, eq_iff, lookup, lookup-delete, if◌then◌else◌, arith,
}
use daemon_go.Prelude.Int.{ℤ, pos, pos_part, leb_ℤ}
use daemon_go.Os.{Disk}
use daemon_go.Events.{join_path}
use daemon_go.Logger.Rotate.{RotateWriter}
use daemon_go.Logger.Clean.{DirEntry, remove_file, is_expired, clean_loop, clean_old, cleans, older}

lookup-remove_file :
    (path asked : Text) (d : Disk)
    → lookup asked (remove_file path d).files
      ≡ (if path == asked && d.writable asked then none else lookup asked d.files)
unfolding remove_file
lookup-remove_file path asked d =
    ground (arith, lookup-delete path asked d.files, eq_iff path asked)

writable-remove_file : (path : Text) (d : Disk) → (remove_file path d).writable ≡ d.writable
unfolding remove_file
writable-remove_file path d = ground arith

lookup-clean_loop :
    (max_age : ℤ) (now : ℕ) (w : RotateWriter) (es : List DirEntry) (asked : Text) (d : Disk)
    → lookup asked (clean_loop max_age now w es d).files
      ≡ (if cleans max_age now w es asked && d.writable asked then none else lookup asked d.files)
unfolding clean_loop
lookup-clean_loop max_age now w [] asked d = refl
lookup-clean_loop max_age now w (e ∷ es) asked d =
    let path = join_path w.log_dir e.name in
    ground (
      arith,
      lookup-clean_loop max_age now w es asked
          (if is_expired max_age now w e then remove_file path d else d),
      lookup-remove_file path asked d,
      writable-remove_file path d,
    )

-- An entry of a log of the instance that was last changed more than `max_age` days ago.
pub record IsOldLog (max_age : ℤ) (now : ℕ) (w : RotateWriter) (e : DirEntry) : Type 0 where
  pub file : e.is_dir ≡ false
  pub rest : Text
  pub named : e.name ≡ w.base_name ++ codes "-" ++ rest
  pub changed : ℕ
  pub dated : e.mod_time ≡ some changed
  pub old : changed + pos_part max_age * (24 * 60 * 60 * 1_000_000_000) < now

-- An old log with the path is among the entries.
pub data Listed (max_age : ℤ) (now : ℕ) (w : RotateWriter) (path : Text)
    : List DirEntry → Type 0 where
  at_head :
      {e : DirEntry} {es : List DirEntry}
      → IsOldLog max_age now w e
      → join_path w.log_dir e.name ≡ path
      → Listed max_age now w path (e ∷ es)
  in_tail :
      {e : DirEntry} {es : List DirEntry}
      → Listed max_age now w path es
      → Listed max_age now w path (e ∷ es)

module _ (max_age : ℤ) (now : ℕ) (w : RotateWriter) where
  is_expired-IsOldLog :
      (e : DirEntry) → is_expired max_age now w e ≡ true → IsOldLog max_age now w e
  unfolding is_expired
  is_expired-IsOldLog e h =
      let named : has_prefix e.name (w.base_name ++ codes "-") ≡ true = ground (arith, h) in
      let (rest, n) = has_prefix-split e.name (w.base_name ++ codes "-") named in
      elim (Option-cases e.mod_time) [
        | inl undated ↦
            let bad : older max_age now e.mod_time ≡ true = ground (arith, h) in
            let none_ : older max_age now none ≡ true = rw undated at bad in cc
        | inr (t, dated) ↦
            let late : older max_age now e.mod_time ≡ true = ground (arith, h) in
            let late' : older max_age now (some t) ≡ true = rw dated at late in
            record {
              file = ground (arith, h);
              rest = rest;
              named = n;
              changed = t;
              dated = dated;
              old = ground (arith, late');
            }
      ]

  IsOldLog-expired : (e : DirEntry) → IsOldLog max_age now w e → is_expired max_age now w e ≡ true
  unfolding is_expired
  IsOldLog-expired e h =
      let named : has_prefix e.name (w.base_name ++ codes "-") ≡ true =
        rw h.named (has_prefix-append (w.base_name ++ codes "-") h.rest) in
      let late : older max_age now (some h.changed) ≡ true = ground (arith, h.old) in
      let late' : older max_age now e.mod_time ≡ true = rw h.dated late in
      ground (arith, named, late', h.file)

  cleans-Listed :
      (es : List DirEntry) (path : Text)
      → cleans max_age now w es path ≡ true
      → Listed max_age now w path es
  cleans-Listed [] path h = cc
  cleans-Listed (e ∷ es) path h =
      elim (Bool-cases (is_expired max_age now w e && join_path w.log_dir e.name == path)) [
        | inl this ↦
            at_head (is_expired-IsOldLog e (ground (arith, this)))
              ((eq_iff (join_path w.log_dir e.name) path).0 (ground (arith, this)))
        | inr later ↦ in_tail (cleans-Listed es path (ground (arith, h, later)))
      ]

  Listed-cleans :
      (path : Text) {es : List DirEntry}
      → Listed max_age now w path es
      → cleans max_age now w es path ≡ true
  Listed-cleans path (at_head {e} old same) =
      let here = IsOldLog-expired e old in
      let there = (eq_iff (join_path w.log_dir e.name) path).1 same in ground (arith, here, there)
  Listed-cleans path (in_tail l) = let later = Listed-cleans path l in ground (arith, later)

-- With a positive age and a directory that can be read, cleanOld removes exactly the files that it
-- may write, whose entry is no directory, has a name that starts with the instance's base name and
-- a dash, and was last changed more than that many days ago; every other file keeps its text.
pub lookup-clean_old :
    (max_age : ℤ) (now : ℕ) (w : RotateWriter) (es : List DirEntry) (asked : Text) (d : Disk)
    → leb_ℤ max_age (pos 0) ≡ false
    → let d' = clean_old max_age now w (some es) d in
      (Listed max_age now w asked es × (d.writable asked ≡ true) × (lookup asked d'.files ≡ none))
      ⊎ ((¬ (Listed max_age now w asked es) ⊎ (d.writable asked ≡ false))
          × (lookup asked d'.files ≡ lookup asked d.files))
unfolding clean_old
lookup-clean_old max_age now w es asked d h =
    let found = lookup-clean_loop max_age now w es asked d in
    elim (Bool-cases (cleans max_age now w es asked)) [
      | inr kept ↦ inr (
        inl (λ l. let bad = Listed-cleans max_age now w asked l in cc),
        rw h (found ∙ rw kept refl),
      )
      | inl gone ↦ elim (Bool-cases (d.writable asked)) [
        | inr denied ↦ inr (inr denied, rw h (found ∙ rw (gone, denied) refl))
        | inl granted ↦ inl (
          cleans-Listed max_age now w es asked gone,
          granted,
          rw h (found ∙ rw (gone, granted) refl),
        )
      ]
    ]
