-- ===== src/Prelude/Atoi.antt =====
-- strconv.Atoi: an optional sign, decimal digits, and the range of int64.
use daemon_go.Prelude.Base.{
  ℕ, zero, suc, ◌+◌, ◌-◌, ◌*◌, ◌/◌, ◌%◌, ◌≡◌, refl, ◌&&◌, Option, none, some, [], ◌∷◌,
}
use daemon_go.Prelude.Tests.{ltb, leb, eqb, if◌then◌else◌}
use daemon_go.Prelude.Strings.{Text, codes}
use daemon_go.Prelude.Int.{ℤ, pos, negsuc, max_int}

-- the value of a run of digits
unfoldable pub digits_value : ℕ → Text → Option ℕ
digits_value n [] = some n
digits_value n (c ∷ s) =
    let rest = digits_value (n * 10 + (c - b'0')) s in
    if leb b'0' c && leb c b'9' then rest else none

abbrev unsigned : Text → Option ℕ
unsigned [] = none
unsigned (c ∷ s) = digits_value 0 (c ∷ s)

abbrev positive : Option ℕ → Option ℤ
positive none = none
positive (some n) = if leb n max_int then some (pos n) else none

abbrev negative : Option ℕ → Option ℤ
negative none = none
negative (some n) =
    if eqb n 0 then some (pos 0) else if leb (n - 1) max_int then some (negsuc (n - 1)) else none

unfoldable pub atoi : Text → Option ℤ
unfolding digits_value
atoi [] = none
atoi (c ∷ s) =
    if eqb c b'-'
    then negative (unsigned s)
    else if eqb c b'+'
    then positive (unsigned s)
    else positive (unsigned (c ∷ s))

atoi_runs :
    (atoi (codes "250") ≡ some (pos 250))
    × (atoi (codes "-7") ≡ some (negsuc 6))
    × (atoi (codes "+") ≡ none)
    × (atoi (codes "1 ") ≡ none)
    × (atoi (codes "9223372036854775808") ≡ none)
unfolding atoi
atoi_runs = (refl, refl, refl, refl, refl)

-- the decimal digits of a number, on fuel for its length
unfoldable pub digits_of : ℕ → ℕ → Text → Text
digits_of zero n out = out
digits_of (suc f) n out =
    let more = digits_of f (n / 10) ((b'0' + n % 10) ∷ out) in
    if ltb n 10 then (b'0' + n) ∷ out else more

-- strconv.Itoa, and %d; an int64 has at most nineteen digits
unfoldable pub itoa : ℤ → Text
unfolding digits_of
itoa (pos n) = digits_of 20 n []
itoa (negsuc n) = b'-' ∷ digits_of 20 (n + 1) []

itoa_runs :
    (itoa (pos 0) ≡ codes "0")
    × (itoa (pos 65535) ≡ codes "65535")
    × (itoa (negsuc 9_223_372_036_854_775_807) ≡ codes "-9223372036854775808")
unfolding itoa
itoa_runs = (refl, refl, refl)
