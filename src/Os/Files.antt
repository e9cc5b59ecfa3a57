-- ===== src/Os/Files.antt =====
-- What a file holds after it was written.
use daemon_go.Prelude.{
  ◌≡◌, ◌⊎◌, inl, inr, refl, Option-cases, Bool-cases, true, false, some, ◌++◌, Text, lookup,
  lookup-insert, insert, delete, ◌==◌, eq_refl, arith,
}
use daemon_go.Os.{read_file, Disk, or_empty, write_file, append_file, rename}

-- The disk grants what it granted before.
pub record SameAccess (d e : Disk) : Type 0 where
  pub readable : e.readable ≡ d.readable
  pub writable : e.writable ≡ d.writable
  pub movable : e.movable ≡ d.movable

module _ (path content : Text) (d : Disk) where
  pub write_file-SameAccess : SameAccess d (write_file path content d).1
  unfolding write_file
  write_file-SameAccess = ground arith

  pub append_file-SameAccess : SameAccess d (append_file path content d).1
  unfolding append_file
  append_file-SameAccess = ground arith

  pub lookup-write_file :
      d.writable path ≡ true → lookup path (write_file path content d).1.files ≡ some content
  unfolding write_file
  lookup-write_file h = ground (arith, lookup-insert path path content d.files, eq_refl path)

  pub lookup-append_file :
      d.writable path ≡ true
      → lookup path (append_file path content d).1.files
        ≡ some (or_empty (lookup path d.files) ++ content)
  unfolding append_file
  lookup-append_file h = ground (
    arith,
    lookup-insert path path (or_empty (lookup path d.files) ++ content) d.files,
    eq_refl path,
  )

  -- A write to one file leaves the others alone.
  pub lookup-write_file_ne :
      (other : Text)
      → (path == other) ≡ false
      → lookup other (write_file path content d).1.files ≡ lookup other d.files
  unfolding write_file
  lookup-write_file_ne other h = ground (arith, lookup-insert path other content d.files)

  pub read_file-write_file_ne :
      (other : Text)
      → (path == other) ≡ false
      → read_file other (write_file path content d).1 ≡ read_file other d
  unfolding write_file read_file
  read_file-write_file_ne other h = ground (arith, lookup-insert path other content d.files)

  pub read_file-append_file_ne :
      (other : Text)
      → (path == other) ≡ false
      → read_file other (append_file path content d).1 ≡ read_file other d
  unfolding append_file read_file
  read_file-append_file_ne other h =
      ground (arith, lookup-insert path other (or_empty (lookup path d.files) ++ content) d.files)

module _ (source target : Text) (d : Disk) where
  -- A name that may not be moved is not renamed, and nothing is renamed over it.
  pub rename_denied :
      (d.movable source ≡ false) ⊎ (d.movable target ≡ false) → (rename source target d).1 ≡ d
  unfolding rename
  rename_denied denied = elim (Option-cases (lookup source d.files)) [
    | inl missing ↦ rw (missing, rename) refl
    | inr (content, found) ↦ elim (Bool-cases (d.movable source)) [
      | inr closed ↦ rw (found, closed, rename) refl
      | inl open_source ↦ rw (found, rename) (ground arith)
    ]
  ]

  pub rename_moves :
      (content : Text)
      → lookup source d.files ≡ some content
      → d.movable source ≡ true
      → d.movable target ≡ true
      → (rename source target d).1
        ≡ record d { files = insert target content (delete source d.files) }
  unfolding rename
  rename_moves content found from to = simp (found, rename, from, to) refl

  pub rename-SameAccess : SameAccess d (rename source target d).1
  unfolding rename
  rename-SameAccess = elim (Option-cases (lookup source d.files)) [
    | inl missing ↦
        rw (missing, rename) (record { readable = refl; writable = refl; movable = refl })
    | inr (content, found) ↦ rw (found, rename) (ground arith)
  ]
