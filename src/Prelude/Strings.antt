-- ===== src/Prelude/Strings.antt =====
-- Go strings as lists of code points, and the functions of package strings that the sources call.
use Prim.Native.Char.{code}
use Prim.Native.String.{String}
use daemon_go.Prelude.Base.{
  ℕ, ◌≡◌, refl, ◌↔◌, Bool, true, false, ◌&&◌, ◌||◌, List, [], ◌∷◌, ◌++◌, arith,
}
use daemon_go.Prelude.Tests.{leb, eqb, if◌then◌else◌}

abbrev pub Text : Type 0
Text = List ℕ

-- The code points of a literal.
abbrev pub codes : String → Text
codes String.[] = []
codes (String.◌∷◌ c s) = code c ∷ codes s

infix 50 ◌==◌
unfoldable pub ◌==◌ : Text → Text → Bool
[] == [] = true
[] == (_ ∷ _) = false
(_ ∷ _) == [] = false
(a ∷ s) == (b ∷ t) = eqb a b && s == t

pub eq_iff : (s t : Text) → ((s == t) ≡ true) ↔ (s ≡ t)
unfolding ◌==◌
eq_iff [] [] = ground arith
eq_iff [] (_ ∷ _) = ground arith
eq_iff (_ ∷ _) [] = ground arith
eq_iff (a ∷ s) (b ∷ t) = ground (arith, eq_iff s t)

pub eq_refl : (s : Text) → (s == s) ≡ true
eq_refl s = (eq_iff s s).1 refl

abbrev pub is_empty : Text → Bool
is_empty [] = true
is_empty (_ ∷ _) = false

-- unicode.IsSpace
unfoldable pub is_space : ℕ → Bool
is_space c =
    (leb 9 c && leb c 13)
    || eqb c 32
    || eqb c 0x85
    || eqb c 0xA0
    || eqb c 0x1680
    || (leb 0x2000 c && leb c 0x200A)
    || eqb c 0x2028
    || eqb c 0x2029
    || eqb c 0x202F
    || eqb c 0x205F
    || eqb c 0x3000

-- strings.HasPrefix(s, p)
unfoldable pub has_prefix : Text → Text → Bool
has_prefix s [] = true
has_prefix [] (_ ∷ _) = false
has_prefix (c ∷ s) (p ∷ ps) = eqb c p && has_prefix s ps

-- strings.Contains(s, p)
unfoldable pub contains : Text → Text → Bool
unfolding has_prefix
contains [] p = is_empty p
contains (c ∷ s) p = has_prefix (c ∷ s) p || contains s p

-- strings.TrimLeftFunc
unfoldable pub trim_left : (ℕ → Bool) → Text → Text
trim_left f [] = []
trim_left f (c ∷ s) = let rest = trim_left f s in if f c then rest else c ∷ s

-- strings.TrimRightFunc
unfoldable pub trim_right : (ℕ → Bool) → Text → Text
trim_right f [] = []
trim_right f (c ∷ s) = let rest = trim_right f s in if f c && is_empty rest then [] else c ∷ rest

-- strings.TrimFunc
unfoldable pub trim_func : (ℕ → Bool) → Text → Text
unfolding trim_left trim_right
trim_func f s = trim_right f (trim_left f s)

-- strings.TrimSpace
unfoldable pub trim_space : Text → Text
unfolding trim_func is_space
trim_space = trim_func is_space

-- strings.Split(s, sep) with one character for a separator
unfoldable pub split_from : ℕ → Text → Text → List Text
split_from sep cur [] = cur ∷ []
split_from sep cur (c ∷ s) = elim (eqb c sep) [
  | true ↦ cur ∷ split_from sep [] s
  | false ↦ split_from sep (cur ++ c ∷ []) s
]

abbrev push_field : Text → List Text → List Text
push_field [] fs = fs
push_field (c ∷ w) fs = (c ∷ w) ∷ fs

-- strings.Fields(s): `cur` is the field being read
unfoldable pub fields_from : Text → Text → List Text
unfolding is_space
fields_from cur [] = push_field cur []
fields_from cur (c ∷ s) = elim (is_space c) [
  | true ↦ push_field cur (fields_from [] s)
  | false ↦ fields_from (cur ++ c ∷ []) s
]

unfoldable pub fields : Text → List Text
unfolding fields_from
fields = fields_from []

-- strings.Join(parts, sep) with one character for a separator
unfoldable pub join : ℕ → List Text → Text
join sep [] = []
join sep (p ∷ []) = p
join sep (p ∷ q ∷ ps) = p ++ sep ∷ join sep (q ∷ ps)

pub has_prefix-split : (s p : Text) → has_prefix s p ≡ true → (rest : Text) × (s ≡ p ++ rest)
unfolding has_prefix
has_prefix-split s [] h = (s, refl)
has_prefix-split [] (b ∷ p) h = cc
has_prefix-split (a ∷ s) (b ∷ p) h =
    let (rest, e) = has_prefix-split s p (ground (arith, h)) in
    let same : a ≡ b = ground (arith, h) in (rest, cc)

pub has_prefix-append : (p rest : Text) → has_prefix (p ++ rest) p ≡ true
unfolding has_prefix
has_prefix-append [] rest = refl
has_prefix-append (a ∷ p) rest = ground (arith, has_prefix-append p rest)
