-- ===== src/Actions/Split.antt =====
-- splitCommand of internal/actions/actions.go: a command line into words, with double quotes.
pub mod Parts
use daemon_go.Prelude.{
  ℕ, Bool, true, false, not, ◌||◌, Option, none, some, List, [], ◌∷◌, ◌++◌, Text, eqb,
}

abbrev pub quote : ℕ
quote = b'"'

abbrev pub is_blank : ℕ → Bool
is_blank c = eqb c b' ' || eqb c 9

-- if current.Len() > 0 { parts = append(parts, current.String()) }
abbrev pub flush : List Text → Text → List Text
flush parts [] = parts
flush parts (c ∷ w) = parts ++ (c ∷ w) ∷ []

-- The loop over the runes; the last argument is `inQuote`. `none` is the error of an open quote.
unfoldable pub split_loop : Text → List Text → Text → Bool → Option (List Text)
split_loop [] parts current true = none
split_loop [] parts current false = some (flush parts current)
split_loop (r ∷ line) parts current in_quote = elim (eqb r quote) [
  | true ↦ split_loop line parts current (not in_quote)
  | false ↦ elim (is_blank r) [
    | true ↦ elim in_quote [
      | true ↦ split_loop line parts (current ++ r ∷ []) true
      | false ↦ split_loop line (flush parts current) [] false
    ]
    | false ↦ split_loop line parts (current ++ r ∷ []) in_quote
  ]
]

unfoldable pub split_command : Text → Option (List Text)
unfolding split_loop
split_command line = split_loop line [] [] false
