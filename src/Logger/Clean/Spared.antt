-- ===== src/Logger/Clean/Spared.antt =====
-- internal/logger/logger.go: the log files have other names than the event file, and so neither an
-- open of the log nor cleanOld touches it.
use mathlib.Core.List
use daemon_go.Prelude.{
  ℕ, ◌≡◌, ◌≢◌, refl, ◌∙◌, Bool-cases, inl, inr, true, false, Option, none, some, List, [], ◌∷◌,
  ◌++◌, Text, codes, ◌==◌, eq_iff, has_prefix, lookup, lookup-delete, lookup-insert, if◌then◌else◌,
  arith,
}
use daemon_go.Prelude.Int.{ℤ, pos, leb_ℤ}
use daemon_go.Os.{Disk, append_file}
use daemon_go.Events.{join_path}
use daemon_go.Logger.Rotate.{RotateWriter}
use daemon_go.Logger.Clean.{DirEntry, remove_file, is_expired, clean_loop, clean_old, clean_listed}

-- The file at the path, and what the disk grants, are as they were.
pub record Keeps (path : Text) (d e : Disk) : Type 0 where
  pub file : lookup path e.files ≡ lookup path d.files
  pub readable : e.readable ≡ d.readable
  pub writable : e.writable ≡ d.writable

pub Keeps-refl : (path : Text) (d : Disk) → Keeps path d d
Keeps-refl path d = record { file = refl; readable = refl; writable = refl }

pub Keeps-trans : {path : Text} {d e f : Disk} → Keeps path d e → Keeps path e f → Keeps path d f
Keeps-trans k l = record {
  file = l.file ∙ k.file;
  readable = l.readable ∙ k.readable;
  writable = l.writable ∙ k.writable;
}

join_path-cancel : (dir n m : Text) → join_path dir n ≡ join_path dir m → n ≡ m
join_path-cancel [] n m e = e
join_path-cancel (c ∷ dir) n m e = List.append_cancel_left (c ∷ dir ++ codes "/") n m e

pub join_path-ne : (dir n m : Text) → n ≢ m → (join_path dir n == join_path dir m) ≡ false
join_path-ne dir n m h = elim (Bool-cases (join_path dir n == join_path dir m)) [
  | inr apart ↦ apart
  | inl same ↦ absurd (h (join_path-cancel dir n m ((eq_iff _ _).0 same)))
]

-- the event file of an instance
abbrev pub event_path : Text → Text → Text
event_path log_dir x = join_path log_dir (codes "events-" ++ x ++ codes ".jsonl")

abbrev pub first : Text → ℕ
first [] = 0
first (c ∷ s) = c

-- A name that starts with the base name of a log is not that of an event file.
pub log_name-ne :
    (base name x : Text)
    → has_prefix name (codes "daemon-" ++ base) ≡ true
    → name ≢ codes "events-" ++ x ++ codes ".jsonl"
unfolding has_prefix
log_name-ne base [] x h e = cc
log_name-ne base (c ∷ name) x h e = ground (arith, h, e)

module _ (log_dir x : Text) where
  abbrev pub path : Text
  path = event_path log_dir x

  remove_file-Keeps :
      (name : Text) (d : Disk)
      → name ≢ codes "events-" ++ x ++ codes ".jsonl"
      → Keeps path d (remove_file (join_path log_dir name) d)
  unfolding remove_file
  remove_file-Keeps name d h =
      let apart = join_path-ne log_dir name (codes "events-" ++ x ++ codes ".jsonl") h in
      elim (Bool-cases (d.writable (join_path log_dir name))) [
        | inr denied ↦ rw denied (Keeps-refl path d)
        | inl granted ↦ rw granted (record {
          file = lookup-delete (join_path log_dir name) path d.files ∙ rw apart refl;
          readable = refl;
          writable = refl;
        })
      ]

  pub append_file-Keeps :
      (name content : Text) (d : Disk)
      → name ≢ codes "events-" ++ x ++ codes ".jsonl"
      → Keeps path d (append_file (join_path log_dir name) content d).1
  unfolding append_file
  append_file-Keeps name content d h =
      let apart = join_path-ne log_dir name (codes "events-" ++ x ++ codes ".jsonl") h in
      elim (Bool-cases (d.writable (join_path log_dir name))) [
        | inr denied ↦ rw denied (Keeps-refl path d)
        | inl granted ↦ rw granted (record {
          file = lookup-insert (join_path log_dir name) path _ d.files ∙ rw apart refl;
          readable = refl;
          writable = refl;
        })
      ]

  expired_name :
      (max_age : ℤ) (now : ℕ) (w : RotateWriter) (e : DirEntry)
      → w.base_name ≡ codes "daemon-" ++ x
      → is_expired max_age now w e ≡ true
      → e.name ≢ codes "events-" ++ x ++ codes ".jsonl"
  unfolding is_expired
  expired_name max_age now w e b h =
      let p : has_prefix e.name (w.base_name ++ codes "-") ≡ true = ground (arith, h) in
      log_name-ne (x ++ codes "-") e.name x (rw b at p)

  clean_one-Keeps :
      (max_age : ℤ) (now : ℕ) (w : RotateWriter) (e : DirEntry) (d : Disk)
      → w.base_name ≡ codes "daemon-" ++ x
      → w.log_dir ≡ log_dir
      → Keeps path d
          (if is_expired max_age now w e then remove_file (join_path w.log_dir e.name) d else d)
  clean_one-Keeps max_age now w e d b l = elim (Bool-cases (is_expired max_age now w e)) [
    | inr kept ↦ rw kept (Keeps-refl path d)
    | inl gone ↦ rw (gone, l) (remove_file-Keeps e.name d (expired_name max_age now w e b gone))
  ]

  clean_loop-Keeps :
      (max_age : ℤ) (now : ℕ) (w : RotateWriter) (es : List DirEntry) (d : Disk)
      → w.base_name ≡ codes "daemon-" ++ x
      → w.log_dir ≡ log_dir
      → Keeps path d (clean_loop max_age now w es d)
  unfolding clean_loop
  clean_loop-Keeps max_age now w [] d b l = Keeps-refl path d
  clean_loop-Keeps max_age now w (e ∷ es) d b l =
      Keeps-trans (clean_one-Keeps max_age now w e d b l) (clean_loop-Keeps max_age now w es _ b l)

  clean_listed-Keeps :
      (max_age : ℤ) (now : ℕ) (w : RotateWriter) (listed : Option (List DirEntry)) (d : Disk)
      → w.base_name ≡ codes "daemon-" ++ x
      → w.log_dir ≡ log_dir
      → Keeps path d (clean_listed max_age now w d listed)
  clean_listed-Keeps max_age now w none d b l = Keeps-refl path d
  clean_listed-Keeps max_age now w (some es) d b l = clean_loop-Keeps max_age now w es d b l

  pub clean_old-Keeps :
      (max_age : ℤ) (now : ℕ) (w : RotateWriter) (listed : Option (List DirEntry)) (d : Disk)
      → w.base_name ≡ codes "daemon-" ++ x
      → w.log_dir ≡ log_dir
      → Keeps path d (clean_old max_age now w listed d)
  unfolding clean_old
  clean_old-Keeps max_age now w listed d b l = elim (Bool-cases (leb_ℤ max_age (pos 0))) [
    | inl never ↦ rw never (Keeps-refl path d)
    | inr aged ↦ rw aged (clean_listed-Keeps max_age now w listed d b l)
  ]
