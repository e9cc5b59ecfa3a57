-- ===== src/Actions/Kill/Targets.antt =====
-- Which processes KillPortAction ends.
use daemon_go.Prelude.{
  ◌≡◌, ◌≢◌, refl, ◌∙◌, sym, ap, suc, true, false, Bool-cases, contains, trim_space, fields, ltb,
  length, length-append, ◌||◌, Option, none, some, List, [], ◌∷◌, ◌++◌, append_assoc, append-nil,
  map, Text, Dict, codes, ◌==◌, eq_iff, split_from, arith, Option-cases, inl, inr,
}
use daemon_go.Os.{Cmd, Error, Output, World, run_cmd}
use daemon_go.Actions.Allowed.{param}
use daemon_go.Actions.Kill.{
  run_here, listening_pid, pid_of, last_field, wanted, taskkill, netstat, kill_loop, kill_listed,
  kill_port,
}

abbrev pub here : List Text → Cmd
here argv = record { argv = argv; dir = [] }

-- the processes that the lines name, in order
unfoldable pub targets : List Text → List Text
targets [] = []
targets (line ∷ lines) = elim (wanted (listening_pid line)) [
  | none ↦ targets lines
  | some pid ↦ pid ∷ targets lines
]

ran-kill_loop :
    (lines : List Text) (w : World)
    → (kill_loop lines w).ran ≡ w.ran ++ map (λ pid. here (taskkill pid)) (targets lines)
unfolding kill_loop targets run_cmd
ran-kill_loop [] w = sym (append-nil w.ran)
ran-kill_loop (line ∷ lines) w = elim (Option-cases (wanted (listening_pid line))) [
  | inl skip ↦ rw (skip, kill_loop, targets) (ran-kill_loop lines w)
  | inr (pid, e) ↦
      rw (e, kill_loop, targets)
        (ran-kill_loop lines (run_here (taskkill pid) w).1
          ∙ append_assoc w.ran (here (taskkill pid) ∷ [])
              (map (λ p. here (taskkill p)) (targets lines)))
]

-- The fields of a line of netstat: protocol, two addresses, a state that says LISTENING, and the
-- process as the last of them, which is not 0.
pub record IsListening (fs : List Text) (pid : Text) : Type 0 where
  pub protocol : Text
  pub local : Text
  pub remote : Text
  pub state : Text
  pub others : List Text
  pub word : Text
  pub found : fs ≡ protocol ∷ local ∷ remote ∷ state ∷ (others ++ word ∷ [])
  pub listening : contains state (codes "LISTENING") ≡ true
  pub trimmed : pid ≡ trim_space word
  pub named : pid ≢ []
  pub nonzero : pid ≢ codes "0"

-- The processes of the listening lines, in their order.
pub data Listeners : List Text → List Text → Type 0 where
  no_lines : Listeners [] []
  listener :
      {line pid : Text} {lines pids : List Text}
      → IsListening (fields line) pid
      → Listeners lines pids
      → Listeners (line ∷ lines) (pid ∷ pids)
  other_line :
      {line : Text} {lines pids : List Text}
      → ((pid : Text) → ¬ IsListening (fields line) pid)
      → Listeners lines pids
      → Listeners (line ∷ lines) pids

last_field-append : (xs : List Text) (x : Text) → last_field (xs ++ x ∷ []) ≡ x
last_field-append [] x = refl
last_field-append (a ∷ []) x = refl
last_field-append (a ∷ b ∷ xs) x = last_field-append (b ∷ xs) x

last_field-split :
    (x : Text) (xs : List Text) → (ys : List Text) × (x ∷ xs ≡ ys ++ last_field (x ∷ xs) ∷ [])
last_field-split x [] = ([], refl)
last_field-split x (y ∷ xs) = let (ys, e) = last_field-split y xs in (x ∷ ys, ap (λ zs. x ∷ zs) e)

pid_of-IsListening :
    (fs : List Text) (pid : Text) → wanted (pid_of fs) ≡ some pid → IsListening fs pid
pid_of-IsListening [] pid h = cc
pid_of-IsListening (a ∷ []) pid h = cc
pid_of-IsListening (a ∷ b ∷ []) pid h = cc
pid_of-IsListening (a ∷ b ∷ c ∷ []) pid h = cc
pid_of-IsListening (a ∷ b ∷ c ∷ state ∷ []) pid h = cc
pid_of-IsListening (a ∷ b ∷ c ∷ state ∷ f ∷ fs) pid h =
    let (others, e) = last_field-split f fs in
    let word : Text = last_field (f ∷ fs) in
    let long : ltb (suc (suc (suc (suc (suc (length fs)))))) 5 ≡ false = ground arith in
    elim (Bool-cases (contains state (codes "LISTENING"))) [
      | inr deaf ↦ let bad = rw (long, deaf) at h in cc
      | inl hears ↦ elim (Bool-cases (trim_space word == [] || trim_space word == codes "0")) [
        | inl blank ↦ let bad = rw (long, hears, blank) at h in cc
        | inr good ↦
            let taken = rw (long, hears, good) at h in
            let same : trim_space word ≡ pid = cc in
            record {
              protocol = a;
              local = b;
              remote = c;
              state = state;
              others = others;
              word = word;
              found = ap (λ l. a ∷ b ∷ c ∷ state ∷ l) e;
              listening = hears;
              trimmed = sym same;
              named = ground (arith, good, eq_iff (trim_space word) [], same);
              nonzero = ground (arith, good, eq_iff (trim_space word) (codes "0"), same);
            }
      ]
    ]

IsListening-pid_of :
    (fs : List Text) (pid : Text) → IsListening fs pid → wanted (pid_of fs) ≡ some pid
IsListening-pid_of fs pid h =
    let long : ltb (length (h.protocol ∷ h.local ∷ h.remote ∷ h.state ∷ (h.others ++ h.word ∷ [])))
          5
        ≡ false =
      ground (arith, length-append h.others (h.word ∷ [])) in
    let last_one =
      last_field-append (h.protocol ∷ h.local ∷ h.remote ∷ h.state ∷ h.others) h.word in
    let named : (pid == []) ≡ false = ground (arith, eq_iff pid [], h.named) in
    let nonzero : (pid == codes "0") ≡ false = ground (arith, eq_iff pid (codes "0"), h.nonzero) in
    rw (h.found, long, h.listening, last_one, ← h.trimmed, named, nonzero) refl

targets-Listeners : (lines : List Text) → Listeners lines (targets lines)
unfolding targets listening_pid
targets-Listeners [] = no_lines
targets-Listeners (line ∷ lines) = elim (Option-cases (wanted (listening_pid line))) [
  | inl skip ↦
      rw (skip, targets)
        (other_line (λ pid l. let bad = IsListening-pid_of (fields line) pid l in cc)
          (targets-Listeners lines))
  | inr (pid, e) ↦
      rw (e, targets) (listener (pid_of-IsListening (fields line) pid e) (targets-Listeners lines))
]

-- the lines of a netstat run that succeeded
abbrev pub lines_of : Output → List Text
lines_of o = elim o.err [
  | some _ ↦ []
  | none ↦ elim o.out [ [] ↦ [] | c ∷ out ↦ split_from 10 [] (c ∷ out) ]
]

kill_listed_lem :
    (err : Option Error) (out : Text) (w : World)
    → ((kill_listed err out w).0 ≡ none)
      × ((kill_listed err out w).1.ran
          ≡ w.ran
            ++ map
                (λ pid. here (taskkill pid))
                (targets (lines_of (record { out = out; err = err }))))
unfolding kill_listed targets
kill_listed_lem (some e) out w = (refl, sym (append-nil w.ran))
kill_listed_lem none [] w = (refl, sym (append-nil w.ran))
kill_listed_lem none (c ∷ out) w = (refl, ran-kill_loop (split_from 10 [] (c ∷ out)) w)

-- A `killPort` action for a port runs netstat and then ends, in their order, exactly the processes
-- of the lines of its output that are LISTENING: at least five fields, the fourth of them with that
-- word, and the last of them a process other than 0. It runs nothing else, and never fails.
pub kill_port_lem :
    (params : Dict Text) (w : World)
    → param (codes "port") params ≢ []
    → let port = param (codes "port") params in
      let (err, w') = kill_port params w in
      (err ≡ none)
      × (pids : List Text) × Listeners (lines_of (run_here (netstat port) w).0) pids
      × (w'.ran ≡ w.ran ++ here (netstat port) ∷ map (λ pid. here (taskkill pid)) pids)
unfolding kill_port
kill_port_lem params w named =
    let port = param (codes "port") params in
    let blank : (port == []) ≡ false = ground (arith, eq_iff port []) in
    let (o, w') = run_here (netstat port) w in
    let (ok, ran) = kill_listed_lem o.err o.out w' in
    rw blank (
      ok,
      targets (lines_of o),
      targets-Listeners (lines_of o),
      ran
          ∙ append_assoc w.ran (here (netstat port) ∷ [])
              (map (λ pid. here (taskkill pid)) (targets (lines_of o))),
    )
