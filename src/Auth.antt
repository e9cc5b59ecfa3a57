-- ===== src/Auth.antt =====
-- internal/auth/token.go: the token that the web console asks for. The bytes of crypto/rand are
-- an argument; the directory is taken to exist.
pub mod Kept
use daemon_go.Prelude.{
  ℕ, zero, suc, ◌+◌, ◌/◌, ◌%◌, Bool, true, false, Option, none, some, List, [], ◌∷◌, ◌++◌, Text,
  codes, ◌==◌, ◌||◌, ltb, eqb, if◌then◌else◌, trim_space,
}
use daemon_go.Os.{Error, Disk, read_file, write_file}
use daemon_go.Events.{join_path}

-- Manager
pub record AuthManager : Type 0 where
  pub token : Text
  pub path : Text

pub data Created : Type 0 where
  created : AuthManager → Created
  token_failed : Error → Created

-- rand.Read: a source of bytes, or an error
abbrev pub Random : Type 0
Random = Option (ℕ → ℕ)

-- the first `n` bytes of a source
unfoldable pub read_bytes : ℕ → (ℕ → ℕ) → List ℕ
read_bytes zero f = []
read_bytes (suc n) f = (f n % 256) ∷ read_bytes n f

abbrev pub hex_digit : ℕ → ℕ
hex_digit n = if ltb n 10 then 48 + n else 87 + n

-- hex.EncodeToString
unfoldable pub hex_encode : List ℕ → Text
hex_encode [] = []
hex_encode (b ∷ bs) = hex_digit (b / 16) ∷ hex_digit (b % 16) ∷ hex_encode bs

unfoldable pub generate_token : Random → Option Text
unfolding hex_encode read_bytes
generate_token none = none
generate_token (some f) = some (hex_encode (read_bytes 32 f))

-- what follows the first `=`, and the whole text if there is none: strings.Index and s[idx+1:]
unfoldable pub after_equals : Text → Option Text
after_equals [] = none
after_equals (c ∷ s) = if eqb c 61 then some s else after_equals s

abbrev value_of : Text → Option Text → Text
value_of s none = s
value_of s (some v) = trim_space v

-- the token that a file's contents hold, empty if they hold none
unfoldable pub stored_token : Text → Text
unfolding trim_space after_equals
stored_token text = value_of (trim_space text) (after_equals (trim_space text))

unfoldable pub token_line : Text → Text
token_line token = codes "token=" ++ token ++ codes "\n"

abbrev written : AuthManager → Option Error × Disk → Created × Disk
written m (none, d) = (created m, d)
written m (some err, d) = (token_failed (codes "write token file failed: " ++ err), d)

-- from `generateToken` on
abbrev pub fresh : Text → Disk → Option Text → Created × Disk
fresh path d none = (token_failed (codes "generate token failed"), d)
fresh path d (some token) =
    written (record { token = token; path = path }) (write_file path (token_line token) d)

abbrev pub from_contents : Text → Random → Disk → Option Text → Created × Disk
from_contents path random d none = fresh path d (generate_token random)
from_contents path random d (some text) =
    if text == [] || stored_token text == []
    then fresh path d (generate_token random)
    else (created (record { token = stored_token text; path = path }), d)

-- filepath.Join(dir, TokenFileName) for a clean directory
abbrev pub guard_path : Text → Text
guard_path dir = if dir == codes "." then codes ".guard" else join_path dir (codes ".guard")

-- NewManager
unfoldable pub new_auth : Text → Random → Disk → Created × Disk
unfolding generate_token stored_token token_line read_file write_file
new_auth dir random d = from_contents (guard_path dir) random d (read_file (guard_path dir) d)

unfoldable pub validate : Text → AuthManager → Bool
validate token m = if m.token == [] || token == [] then false else m.token == token
