-- ===== src/Actions/Split/Parts.antt =====
-- What splitCommand returns.
use mathlib.Core.Bool.{xor}
use daemon_go.Prelude.{
  subst, ◌≡◌, ◌≢◌, ◌↔◌, refl, ap, ◌∙◌, Bool, true, false, not, Option, none, some, List, [], ◌∷◌,
  ◌++◌, append_assoc, append-nil, map, Text, All, All-append, eqb, join, arith,
}
use daemon_go.Actions.Split.{quote, flush, split_loop, split_command}

abbrev Unquoted : Text → Type 0
Unquoted = All (λ c. c ≢ quote)

abbrev pub IsWord : Text → Type 0
IsWord w = (w ≢ []) × Unquoted w

-- whether the number of quotes is odd
pub odd_quotes : Text → Bool
odd_quotes [] = false
odd_quotes (c ∷ s) = elim (eqb c quote) [ true ↦ not (odd_quotes s) | false ↦ odd_quotes s ]

-- a word between quotes, as a user writes it
abbrev pub quoted : Text → Text
quoted w = quote ∷ (w ++ quote ∷ [])

abbrev pub command_line : List Text → Text
command_line ws = join b' ' (map quoted ws)

flush-words :
    (parts : List Text) (w : Text) → All IsWord parts → Unquoted w → All IsWord (flush parts w)
flush-words parts [] h u = h
flush-words parts (c ∷ w) h u = All-append IsWord parts ((c ∷ w) ∷ []) h ((λ e. cc, u), tt)

abbrev or_nil : Option (List Text) → List Text
or_nil none = []
or_nil (some ws) = ws

split_loop-words :
    (line : Text) (parts : List Text) (current : Text) (q : Bool) {ws : List Text}
    → All IsWord parts
    → Unquoted current
    → split_loop line parts current q ≡ some ws
    → All IsWord ws
unfolding split_loop
split_loop-words [] parts current true h u e = cc
split_loop-words [] parts current false h u e =
    subst (λ o. All IsWord (or_nil o)) e (flush-words parts current h u)
split_loop-words (r ∷ line) parts current q {ws} h u e = ground (
  arith,
  split_loop-words line parts current (not q) {ws = ws} h u,
  split_loop-words line (flush parts current) [] false {ws = ws} (flush-words parts current h u) tt,
  λ (n : r ≢ quote).
      split_loop-words line parts (current ++ r ∷ []) q {ws = ws} h
        (All-append (λ c. c ≢ quote) current (r ∷ []) u (n, tt)),
)

-- Every word of a command line that is accepted is nonempty and holds no quote.
pub split_command-words :
    (line : Text) {ws : List Text} → split_command line ≡ some ws → All IsWord ws
unfolding split_command
split_command-words line e = split_loop-words line [] [] false tt tt e

abbrev is_none {ℓ} : {A : Type ℓ} → Option A → Bool
is_none none = true
is_none (some _) = false

split_loop-odd :
    (line : Text) (parts : List Text) (current : Text) (q : Bool)
    → is_none (split_loop line parts current q) ≡ xor q (odd_quotes line)
unfolding split_loop odd_quotes xor
split_loop-odd [] parts current true = refl
split_loop-odd [] parts current false = refl
split_loop-odd (r ∷ line) parts current q = ground (
  arith,
  split_loop-odd line parts current (not q),
  split_loop-odd line (flush parts current) [] false,
  split_loop-odd line parts (current ++ r ∷ []) q,
)

-- A command line is refused exactly when it has an odd number of quotes.
pub split_command-eq-none_iff :
    (line : Text) → (split_command line ≡ none) ↔ (odd_quotes line ≡ true)
unfolding split_command xor
split_command-eq-none_iff line = ground (arith, split_loop-odd line [] [] false)

-- Inside quotes everything but a quote is kept.
split_loop-inside :
    (w rest : Text) (parts : List Text) (current : Text)
    → Unquoted w
    → split_loop (w ++ rest) parts current true ≡ split_loop rest parts (current ++ w) true
unfolding split_loop
split_loop-inside [] rest parts current u = rw append-nil
split_loop-inside (c ∷ w) rest parts current (n, u) =
    ground
      (arith, split_loop-inside w rest parts (current ++ c ∷ []) u, append_assoc current (c ∷ []) w)

split_loop-quoted :
    (w rest : Text) (parts : List Text)
    → Unquoted w
    → split_loop (quote ∷ (w ++ quote ∷ rest)) parts [] false ≡ split_loop rest parts w false
unfolding split_loop
split_loop-quoted w rest parts u = split_loop-inside w (quote ∷ rest) parts [] u

split_loop_blank :
    (w rest : Text) (parts : List Text)
    → split_loop (b' ' ∷ rest) parts w false ≡ split_loop rest (flush parts w) [] false
unfolding split_loop
split_loop_blank w rest parts = refl

split_loop_end : (w : Text) (parts : List Text) → split_loop [] parts w false ≡ some (flush parts w)
unfolding split_loop
split_loop_end w parts = refl

split_loop-command_line :
    (ws parts : List Text)
    → All IsWord ws
    → split_loop (command_line ws) parts [] false ≡ some (parts ++ ws)
unfolding join
split_loop-command_line [] parts h = unfold split_loop in rw append-nil
split_loop-command_line ([] ∷ ws) parts ((n, u), h) = absurd (n refl)
split_loop-command_line ((c ∷ w) ∷ []) parts ((n, u), h) =
    split_loop-quoted (c ∷ w) [] parts u ∙ split_loop_end (c ∷ w) parts
split_loop-command_line ((c ∷ w) ∷ v ∷ ws) parts ((n, u), h) =
    let rest = command_line (v ∷ ws) in
    ap (λ t. split_loop (quote ∷ c ∷ t) parts [] false) (append_assoc w (quote ∷ []) (b' ' ∷ rest))
    ∙ split_loop-quoted (c ∷ w) (b' ' ∷ rest) parts u
    ∙ split_loop_blank (c ∷ w) rest parts
    ∙ split_loop-command_line (v ∷ ws) (flush parts (c ∷ w)) h
    ∙ ap some (append_assoc parts ((c ∷ w) ∷ []) (v ∷ ws))

-- Words that are nonempty and hold no quote come back from a command line in which each stands
-- between quotes, with one blank between two of them, whatever other characters they hold.
pub split_command-command_line :
    (ws : List Text) → All IsWord ws → split_command (command_line ws) ≡ some ws
unfolding split_command
split_command-command_line ws h = split_loop-command_line ws [] h
