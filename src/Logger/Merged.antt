-- ===== src/Logger/Merged.antt =====
-- internal/logger/logger.go: the choice and the order of the merged events.
use Prim.Native.Nat.{min}
use mathlib.Core.List.{Perm}
use mathlib.Core.List.Perm
use daemon_go.Prelude.{ℕ, ◌≤◌, ◌≡◌, List, [], ◌∷◌, ◌++◌, length, All}
use daemon_go.Events.{Event}
use daemon_go.Logger.Gathered.{Gathered}

-- No event is later than one that follows it.
abbrev pub IsSorted : List Event → Type 0
IsSorted [] = Unit
IsSorted (e ∷ es) = All (λ f. e.time ≤ f.time) es × IsSorted es

-- `r` is the latest `n` of `es`: with the older ones before it, it is `es` in the order of time.
abbrev pub LatestOf : ℕ → List Event → List Event → Type 0
LatestOf n es r =
    (length r ≡ min n (length es))
    × ((older : List Event) × (Perm (older ++ r) es × IsSorted (older ++ r)))
