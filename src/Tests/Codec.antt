-- ===== src/Tests/Codec.antt =====
-- A concrete file format for the configuration of internal/config/config.go, in place of yaml.v3.
use daemon_go.Prelude.{
  ℕ, zero, suc, Bool, true, false, ◌≡◌, refl, ap, sym, ◌∙◌, some, List, [], ◌∷◌, ◌++◌, append_assoc,
  append-nil, Text, Dict, length,
}
use daemon_go.Prelude.Int.{ℤ, pos, negsuc}
use daemon_go.Config.{
  AllowedCommand, PeerConfig, MonitorConfig, ActionConfig, Project, DaemonConfig,
}
use daemon_go.Config.Files.{Yaml}

-- A value as numbers, and what reads it back from the front of a text.
record Codec (A : Type 0) : Type 0 where
  put : A → Text
  get : Text → A × Text
  get-put : (a : A) (rest : Text) → get (put a ++ rest) ≡ (a, rest)

abbrev head_or_zero : Text → ℕ × Text
head_or_zero [] = (0, [])
head_or_zero (n ∷ s) = (n, s)

number : Codec ℕ
number = record { put = λ n. n ∷ []; get = head_or_zero; get-put = λ n rest. refl }

-- another view of the values of a codec
module _ {A B : Type 0} (c : Codec A) (to : A → B) (from : B → A)
    (back : (b : B) → to (from b) ≡ b) where
  via : Codec B
  via = record {
    put = λ b. c.put (from b);
    get = λ s. let (a, rest) = c.get s in (to a, rest);
    get-put = λ b rest. rw (c.get-put (from b) rest, back b) refl;
  }

module _ {A B : Type 0} (c : Codec A) (d : Codec B) where
  both : Codec (A × B)
  both = record {
    put = λ (a, b). c.put a ++ d.put b;
    get = λ s. let (a, s₁) = c.get s in let (b, s₂) = d.get s₁ in ((a, b), s₂);
    get-put = λ (a, b) rest.
        rw (append_assoc (c.put a) (d.put b) rest, c.get-put a (d.put b ++ rest), d.get-put b rest)
          refl;
  }

module _ {A : Type 0} (c : Codec A) where
  put_all : List A → Text
  put_all [] = []
  put_all (a ∷ as') = c.put a ++ put_all as'

  get_all : ℕ → Text → List A × Text
  get_all zero s = ([], s)
  get_all (suc n) s = let (a, s₁) = c.get s in let (as', s₂) = get_all n s₁ in (a ∷ as', s₂)

  get_all-put_all :
      (as' : List A) (rest : Text) → get_all (length as') (put_all as' ++ rest) ≡ (as', rest)
  unfolding get_all put_all
  get_all-put_all [] rest = refl
  get_all-put_all (a ∷ as') rest =
      rw
        (
          append_assoc (c.put a) (put_all as') rest,
          c.get-put a (put_all as' ++ rest),
          get_all-put_all as' rest,
        )
        refl

  many : Codec (List A)
  unfolding get_all put_all
  many = record {
    put = λ as'. length as' ∷ put_all as';
    get = λ s. let (n, s₁) = head_or_zero s in get_all n s₁;
    get-put = get_all-put_all;
  }

from_bool : Bool → ℕ
from_bool true = 1
from_bool false = 0

to_bool : ℕ → Bool
to_bool zero = false
to_bool (suc n) = true

bool_back : (b : Bool) → to_bool (from_bool b) ≡ b
unfolding to_bool from_bool
bool_back true = refl
bool_back false = refl

flag : Codec Bool
flag = via number to_bool from_bool bool_back

from_int : ℤ → ℕ × ℕ
from_int (pos n) = (0, n)
from_int (negsuc n) = (1, n)

to_int : ℕ × ℕ → ℤ
to_int (zero, n) = pos n
to_int (suc k, n) = negsuc n

int_back : (z : ℤ) → to_int (from_int z) ≡ z
unfolding to_int from_int
int_back (pos n) = refl
int_back (negsuc n) = refl

int : Codec ℤ
int = via (both number number) to_int from_int int_back

text : Codec Text
text = many number

params : Codec (Dict Text)
params = many (both text text)

action : Codec ActionConfig
action =
    via (both text params) (λ (k, p). record { kind = k; params = p }) (λ a. (a.kind, a.params))
      (λ a. refl)

allowed : Codec AllowedCommand
allowed =
    via (both text text) (λ (p, a). record { path = p; args_pattern = a })
      (λ c. (c.path, c.args_pattern)) (λ c. refl)

peer : Codec PeerConfig
peer =
    via (both (both text text) (both int text))
      (λ ((i, n), (c, s)). record {
        instance_id = i;
        service_name = n;
        check_interval = c;
        start_script = s;
      })
      (λ p. ((p.instance_id, p.service_name), (p.check_interval, p.start_script))) (λ p. refl)

monitor : Codec MonitorConfig
monitor =
    via (both (both text int) (both text text))
      (λ ((k, p), (n, h)). record { kind = k; port = p; process_name = n; host = h })
      (λ m. ((m.kind, m.port), (m.process_name, m.host))) (λ m. refl)

project : Codec Project
project =
    via
      (both (both (both text flag) (both monitor (both int int))) (
        both (both (both int int) (both text text)) (both text (both (many action) (many action)))))
      (λ (((n, e), (m, (c, t))), (((a, d), (k, s)), (x, (pre, post)))). record {
        name = n;
        enabled = e;
        monitor = m;
        check_interval = c;
        startup_timeout = t;
        max_restart_attempts = a;
        restart_delay = d;
        start_mode = k;
        start_script = s;
        stop_script = x;
        pre_actions = pre;
        post_actions = post;
      })
      (λ p. (
        ((p.name, p.enabled), (p.monitor, (p.check_interval, p.startup_timeout))),
        (
          ((p.max_restart_attempts, p.restart_delay), (p.start_mode, p.start_script)),
          (p.stop_script, (p.pre_actions, p.post_actions)),
        ),
      ))
      (λ p. refl)

-- The token is not part of the file.
abbrev Shown : Type 0
Shown = ((Text × Text) × (Text × ℤ)) × ((Text × PeerConfig) × (List Project × List AllowedCommand))

shown : Codec Shown
shown =
    both (both (both text text) (both text int))
      (both (both text peer) (both (many project) (many allowed)))

abbrev to_config : Shown → DaemonConfig
to_config (((i, l), (s, p)), ((h, q), (ps, cs))) = record {
  instance_name = i;
  log_dir = l;
  state_file = s;
  web_port = p;
  web_host = h;
  peer = q;
  projects = ps;
  allowed_commands = cs;
  auth_token = [];
}

abbrev from_config : DaemonConfig → Shown
from_config c = (
  ((c.instance_name, c.log_dir), (c.state_file, c.web_port)),
  ((c.web_host, c.peer), (c.projects, c.allowed_commands)),
)

pub numbers_yaml : Yaml
numbers_yaml = record {
  marshal = λ c. shown.put (from_config c);
  unmarshal = λ s. some (to_config (shown.get s).0);
  unmarshal-marshal = λ c.
      ap (λ s. some (to_config (shown.get s).0)) (sym (append-nil (shown.put (from_config c))))
      ∙ ap (λ (r : Shown × Text). some (to_config r.0)) (shown.get-put (from_config c) []);
}
