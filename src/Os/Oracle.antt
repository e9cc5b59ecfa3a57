-- ===== src/Os/Oracle.antt =====
-- The answers of the world over a call, and the commands that it starts.
use daemon_go.Prelude.{◌≡◌, refl, sym, ap, ◌∙◌, List, [], ◌∷◌, ◌++◌, append_assoc, append-nil, Text}
use daemon_go.Prelude.Int.{ℤ}
use daemon_go.Os.{Cmd, World, Disk, run_cmd, start_cmd, dial, stat, sleep}

pub record SameOracle (w w' : World) : Type 0 where
  pub lapse : w'.lapse ≡ w.lapse
  pub reply : w'.reply ≡ w.reply
  pub listens : w'.listens ≡ w.listens
  pub exists : w'.exists ≡ w.exists
  pub ran : (more : List Cmd) × (w'.ran ≡ w.ran ++ more)

pub SameOracle-refl : (w : World) → SameOracle w w
SameOracle-refl w = record {
  lapse = refl;
  reply = refl;
  listens = refl;
  exists = refl;
  ran = ([], sym (append-nil w.ran));
}

pub SameOracle-trans : {u v w : World} → SameOracle u v → SameOracle v w → SameOracle u w
SameOracle-trans {u} h k = record {
  lapse = k.lapse ∙ h.lapse;
  reply = k.reply ∙ h.reply;
  listens = k.listens ∙ h.listens;
  exists = k.exists ∙ h.exists;
  ran = (
    h.ran.0 ++ k.ran.0,
    k.ran.1 ∙ ap (λ l. l ++ k.ran.0) h.ran.1 ∙ append_assoc u.ran h.ran.0 k.ran.0,
  );
}

module _ (w : World) where
  pub SameOracle-disk : (d : Disk) → SameOracle w (record w { disk = d })
  SameOracle-disk d = record {
    lapse = refl;
    reply = refl;
    listens = refl;
    exists = refl;
    ran = ([], sym (append-nil w.ran));
  }

  pub SameOracle-run_cmd : (c : Cmd) → SameOracle w (run_cmd c w).1
  unfolding run_cmd
  SameOracle-run_cmd c = record {
    lapse = refl;
    reply = refl;
    listens = refl;
    exists = refl;
    ran = (c ∷ [], refl);
  }

  pub SameOracle-start_cmd : (c : Cmd) → SameOracle w (start_cmd c w).1
  unfolding start_cmd
  SameOracle-start_cmd c = record {
    lapse = refl;
    reply = refl;
    listens = refl;
    exists = refl;
    ran = (c ∷ [], refl);
  }

  pub SameOracle-dial : (host : Text) (port : ℤ) → SameOracle w (dial host port w).1
  unfolding dial
  SameOracle-dial host port = record {
    lapse = refl;
    reply = refl;
    listens = refl;
    exists = refl;
    ran = ([], sym (append-nil w.ran));
  }

  pub SameOracle-stat : (path : Text) → SameOracle w (stat path w).1
  unfolding stat
  SameOracle-stat path = record {
    lapse = refl;
    reply = refl;
    listens = refl;
    exists = refl;
    ran = ([], sym (append-nil w.ran));
  }

  pub SameOracle-sleep : (ns : ℤ) → SameOracle w (sleep ns w)
  unfolding sleep
  SameOracle-sleep ns = record {
    lapse = refl;
    reply = refl;
    listens = refl;
    exists = refl;
    ran = ([], sym (append-nil w.ran));
  }
