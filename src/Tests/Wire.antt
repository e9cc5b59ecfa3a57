-- ===== src/Tests/Wire.antt =====
-- A concrete wire format for the events of internal/logger/event.go, in place of encoding/json.
use daemon_go.Prelude.{
  ℕ, ◌+◌, ◌-◌, ◌≡◌, ◌≢◌, ◌<◌, refl, ap, Option, none, some, List, [], ◌∷◌, ◌++◌, Text, All,
  All-append, eqb, arith, if◌then◌else◌,
}
use daemon_go.Os.Scan.{drop_cr}
use daemon_go.Events.{
  EventType, Event, Json, peer_down, peer_recover, project_down, project_stop, project_start,
  project_started, project_failed, daemon_pause, daemon_resume, service_restart, config_saved,
  manual_start, manual_stop, manual_restart,
}

unfoldable pub kind_code : EventType → ℕ
kind_code peer_down = 0
kind_code peer_recover = 1
kind_code project_down = 2
kind_code project_stop = 3
kind_code project_start = 4
kind_code project_started = 5
kind_code project_failed = 6
kind_code daemon_pause = 7
kind_code daemon_resume = 8
kind_code service_restart = 9
kind_code config_saved = 10
kind_code manual_start = 11
kind_code manual_stop = 12
kind_code manual_restart = 13

abbrev pub kinds : List EventType
kinds =
    peer_down ∷ peer_recover ∷ project_down ∷ project_stop ∷ project_start ∷ project_started
    ∷ project_failed ∷ daemon_pause ∷ daemon_resume ∷ service_restart ∷ config_saved ∷ manual_start
    ∷ manual_stop ∷ manual_restart ∷ []

unfoldable pub kind_at : ℕ → List EventType → EventType
kind_at n [] = peer_down
kind_at n (k ∷ ks) = if eqb n 0 then k else kind_at (n - 1) ks

kind_at-kind_code : (k : EventType) → kind_at (kind_code k) kinds ≡ k
unfolding kind_at kind_code
kind_at-kind_code peer_down = refl
kind_at-kind_code peer_recover = refl
kind_at-kind_code project_down = refl
kind_at-kind_code project_stop = refl
kind_at-kind_code project_start = refl
kind_at-kind_code project_started = refl
kind_at-kind_code project_failed = refl
kind_at-kind_code daemon_pause = refl
kind_at-kind_code daemon_resume = refl
kind_at-kind_code service_restart = refl
kind_at-kind_code config_saved = refl
kind_at-kind_code manual_start = refl
kind_at-kind_code manual_stop = refl
kind_at-kind_code manual_restart = refl

-- Code points are moved up by 20, and 14 ends a field.
unfoldable pub shift : Text → Text
shift [] = 14 ∷ []
shift (c ∷ s) = (c + 20) ∷ shift s

unfoldable pub cut : Text → Text × Text
cut [] = ([], [])
cut (c ∷ s) = if eqb c 14 then ([], s) else ((c - 20) ∷ (cut s).0, (cut s).1)

cut-shift : (s rest : Text) → cut (shift s ++ rest) ≡ (s, rest)
unfolding cut shift
cut-shift [] rest = refl
cut-shift (c ∷ s) rest = let e : c + 20 - 20 ≡ c = omega arith in ground (arith, cut-shift s rest)

pub IsMoved : Text → Type 0
IsMoved = All (λ c. 13 < c)

shift-IsMoved : (s : Text) → IsMoved (shift s)
unfolding IsMoved shift
shift-IsMoved [] = (omega arith, tt)
shift-IsMoved (c ∷ s) = (omega arith, shift-IsMoved s)

abbrev pub write_event : Event → Text
write_event e =
    (e.time + 20)
    ∷ (kind_code e.kind + 20)
    ∷ (shift e.target ++ (shift e.message ++ (shift e.detail ++ [])))

abbrev pub read_event : Text → Option Event
read_event [] = none
read_event (t ∷ []) = none
read_event (t ∷ k ∷ s) =
    let (target, s₁) = cut s in
    let (message, s₂) = cut s₁ in
    some (record {
      time = t - 20;
      kind = kind_at (k - 20) kinds;
      target = target;
      message = message;
      detail = (cut s₂).0;
    })

shifted_back : (n : ℕ) → n + 20 - 20 ≡ n
shifted_back n = omega arith

pub read_event-write_event : (e : Event) → read_event (write_event e) ≡ some e
read_event-write_event e =
    rw
      (
        shifted_back e.time,
        shifted_back (kind_code e.kind),
        kind_at-kind_code e.kind,
        cut-shift e.target (shift e.message ++ (shift e.detail ++ [])),
        cut-shift e.message (shift e.detail ++ []),
        cut-shift e.detail [],
      )
      refl

pub write_event-IsMoved : (e : Event) → IsMoved (write_event e)
unfolding IsMoved
write_event-IsMoved e =
    let P : ℕ → Type 0 = λ c. 13 < c in
    let detail : All P (shift e.detail ++ []) =
      All-append P (shift e.detail) [] (unfold IsMoved in shift-IsMoved e.detail) tt in
    let message : All P (shift e.message ++ (shift e.detail ++ [])) =
      All-append P (shift e.message) (shift e.detail ++ []) (shift-IsMoved e.message) detail in
    (
      omega arith,
      (
        omega arith,
        All-append P (shift e.target) (shift e.message ++ (shift e.detail ++ []))
            (shift-IsMoved e.target) message,
      ),
    )

pub moved_unbroken : (s : Text) → IsMoved s → All (λ c. c ≢ 10) s
unfolding IsMoved
moved_unbroken [] h = tt
moved_unbroken (c ∷ s) (h, hs) = ((λ e. omega arith), moved_unbroken s hs)

pub moved_plain : (s : Text) → IsMoved s → drop_cr s ≡ s
unfolding IsMoved drop_cr
moved_plain [] h = refl
moved_plain (c ∷ []) (h, hs) = ground arith
moved_plain (c ∷ d ∷ s) (h, hs) = ap (λ t. c ∷ t) (moved_plain (d ∷ s) hs)

abbrev pub wire : Json
wire = record {
  marshal = write_event;
  unmarshal = read_event;
  unmarshal-marshal = read_event-write_event;
  unbroken = λ e. moved_unbroken (write_event e) (write_event-IsMoved e);
  plain = λ e. moved_plain (write_event e) (write_event-IsMoved e);
}
