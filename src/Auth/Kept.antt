-- ===== src/Auth/Kept.antt =====
-- internal/auth/token.go: the token over restarts, and its check.
use daemon_go.Prelude.{
  ℕ, zero, suc, ◌/◌, ◌%◌, ◌<◌, ◌≡◌, ◌≢◌, ◌↔◌, sym, ◌∙◌, subst, refl, true, false, Option, none,
  some, [], ◌∷◌, ◌++◌, Text, codes, ◌==◌, ◌||◌, trim_space, arith, All, eq_iff, eq_refl,
  lookup-insert, is_space, trim_left, trim_right, trim_func, Bool-cases, inl, inr,
}
use daemon_go.Os.{Disk, read_file, write_file}
use daemon_go.Auth.{
  AuthManager, Created, created, Random, read_bytes, hex_digit, hex_encode, generate_token,
  after_equals, stored_token, token_line, fresh, from_contents, guard_path, new_auth, validate,
}

-- The console accepts a token exactly when it is the manager's and is not empty.
pub validate_iff :
    (token : Text) (m : AuthManager)
    → (validate token m ≡ true) ↔ ((token ≡ m.token) × (token ≢ []))
unfolding validate
validate_iff token m = ground (arith, eq_iff m.token [], eq_iff token [], eq_iff m.token token)

abbrev IsDark : ℕ → Type 0
IsDark c = is_space c ≡ false

trim_right_dark : (s : Text) → All IsDark s → trim_right is_space (s ++ 10 ∷ []) ≡ s
unfolding trim_right is_space
trim_right_dark [] h = refl
trim_right_dark (c ∷ s) (h, hs) = ground (arith, trim_right_dark s hs)

trim_right_id : (s : Text) → All IsDark s → trim_right is_space s ≡ s
unfolding trim_right
trim_right_id [] h = refl
trim_right_id (c ∷ s) (h, hs) = ground (arith, trim_right_id s hs)

trim_space_id : (s : Text) → All IsDark s → trim_space s ≡ s
unfolding trim_space trim_left trim_func
trim_space_id [] h = trim_right_id [] h
trim_space_id (c ∷ s) (h, hs) = rw (h, trim_right_id (c ∷ s) (h, hs)) refl

trim_space-token_line : (t : Text) → All IsDark t → trim_space (token_line t) ≡ codes "token=" ++ t
unfolding token_line trim_space trim_left trim_func is_space
trim_space-token_line t h =
    trim_right_dark (codes "token=" ++ t) (refl, (refl, (refl, (refl, (refl, (refl, h))))))

-- What is written for a token without white space is read as that token.
stored_token-token_line : (t : Text) → All IsDark t → stored_token (token_line t) ≡ t
unfolding stored_token after_equals
stored_token-token_line t h = rw (trim_space-token_line t h, trim_space_id t h) refl

hex_digit-IsDark : (n : ℕ) → n < 16 → IsDark (hex_digit n)
unfolding is_space
hex_digit-IsDark n h = ground arith

hex_encode-IsDark : (n : ℕ) (f : ℕ → ℕ) → All IsDark (hex_encode (read_bytes n f))
unfolding hex_encode read_bytes
hex_encode-IsDark zero f = tt
hex_encode-IsDark (suc n) f = (
  hex_digit-IsDark (f n % 256 / 16) (omega arith),
  (hex_digit-IsDark (f n % 256 % 16) (omega arith), hex_encode-IsDark n f),
)

-- What a creation left on the disk is read again as the same manager.
abbrev IsKept : Text → Random → Created × Disk → Type 0
IsKept path random' (c, d') = from_contents path random' d' (read_file path d') ≡ (c, d')

module _ (path : Text) (random' : Random) (d : Disk) (r : d.readable path ≡ true) where
  read_token :
      (t : Text)
      → d.writable path ≡ true
      → read_file path (write_file path (token_line t) d).1 ≡ some (token_line t)
  unfolding read_file write_file
  read_token t w = ground (arith, lookup-insert path path (token_line t) d.files, eq_refl path)

  kept :
      (t : Text) (d₁ : Disk)
      → All IsDark t
      → (t == []) ≡ false
      → read_file path d₁ ≡ some (token_line t)
      → IsKept path random' (created (record { token = t; path = path }), d₁)
  unfolding ◌==◌ token_line
  kept t d₁ dark full e = rw (e, stored_token-token_line t dark, full) refl

module _ (path : Text) (random' : Random) (d : Disk) (r : d.readable path ≡ true) {m : AuthManager}
    {d' : Disk} where
  fresh_kept :
      (t : Text)
      → All IsDark t
      → (t == []) ≡ false
      → (created m, d') ≡ fresh path d (some t)
      → IsKept path random' (created m, d')
  unfolding write_file
  fresh_kept t dark full h = elim (Bool-cases (d.writable path)) [
    | inl w ↦
        let d₁ : Disk = (write_file path (token_line t) d).1 in
        let q : fresh path d (some t) ≡ (created (record { token = t; path = path }), d₁) =
          ground arith in
        subst (IsKept path random') (sym (h ∙ q))
          (kept path random' d r t d₁ dark full (read_token path random' d r t w))
    | inr w ↦ absurd (ground arith)
  ]

  generated_kept :
      (random : Random)
      → (created m, d') ≡ fresh path d (generate_token random)
      → IsKept path random' (created m, d')
  unfolding generate_token ◌==◌ hex_encode read_bytes
  generated_kept none h = absurd (ground arith)
  generated_kept (some f) h =
      fresh_kept (hex_encode (read_bytes 32 f)) (hex_encode-IsDark 32 f) refl h

  contents_kept :
      (random : Random) (o : Option Text)
      → read_file path d ≡ o
      → (created m, d') ≡ from_contents path random d o
      → IsKept path random' (created m, d')
  contents_kept random none e h = generated_kept random h
  contents_kept random (some text) e h = elim (Bool-cases (text == [] || stored_token text == [])) [
    | inl empty ↦ generated_kept random (h ∙ (rw empty refl))
    | inr full ↦
        let q : from_contents path random d (some text)
            ≡ (created (record { token = stored_token text; path = path }), d) =
          rw full refl in
        subst (IsKept path random') (sym (h ∙ q)) (rw (e, full) refl)
  ]

-- A manager that was created keeps its token over a restart: created again on the disk that the
-- first creation left, with any bytes from crypto/rand, it has the same token, if the token file
-- can be read.
pub new_auth_again :
    (dir : Text) (random random' : Random) (d : Disk) (m : AuthManager) {d' : Disk}
    → d.readable (guard_path dir) ≡ true
    → new_auth dir random d ≡ (created m, d')
    → new_auth dir random' d' ≡ (created m, d')
unfolding new_auth
new_auth_again dir random random' d m r h =
    contents_kept (guard_path dir) random' d r random (read_file (guard_path dir) d) refl (sym h)
