-- ===== src/Prelude/Maps.antt =====
-- Go maps with string keys as association lists without repeated keys.
use daemon_go.Prelude.Base.{◌≡◌, Option, none, some, List, [], ◌∷◌, arith}
use daemon_go.Prelude.Tests.{if◌then◌else◌}
use daemon_go.Prelude.Strings.{Text, ◌==◌, eq_iff}

abbrev pub Dict {ℓ} : Type ℓ → Type ℓ
Dict V = List (Text × V)

module _ {ℓ} {V : Type ℓ} where
  -- value, ok := entries[key]
  unfoldable pub lookup : Text → Dict V → Option V
  lookup key [] = none
  lookup key (entry ∷ rest) =
      let later = lookup key rest in if entry.0 == key then some entry.1 else later

  -- entries[key] = value
  unfoldable pub insert : Text → V → Dict V → Dict V
  insert key value [] = (key, value) ∷ []
  insert key value (entry ∷ rest) =
      let later = insert key value rest in
      if entry.0 == key then (key, value) ∷ rest else entry ∷ later

  -- delete(entries, key)
  unfoldable pub delete : Text → Dict V → Dict V
  delete key [] = []
  delete key (entry ∷ rest) =
      let later = delete key rest in if entry.0 == key then later else entry ∷ later

  module _ (key asked : Text) where
    pub lookup-insert :
        (value : V) (entries : Dict V)
        → lookup asked (insert key value entries)
          ≡ (if key == asked then some value else lookup asked entries)
    unfolding lookup insert
    lookup-insert value [] = ground arith
    lookup-insert value ((found, old) ∷ rest) =
        ground
          (arith, lookup-insert value rest, eq_iff found key, eq_iff found asked, eq_iff key asked)

    pub lookup-delete :
        (entries : Dict V)
        → lookup asked (delete key entries) ≡ (if key == asked then none else lookup asked entries)
    unfolding lookup delete
    lookup-delete [] = ground arith
    lookup-delete ((found, old) ∷ rest) =
        ground (arith, lookup-delete rest, eq_iff found key, eq_iff found asked, eq_iff key asked)
