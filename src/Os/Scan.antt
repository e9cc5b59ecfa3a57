-- ===== src/Os/Scan.antt =====
-- bufio.Scanner with ScanLines and its default limit of 64 KB for a line.
use daemon_go.Prelude.{
  ℕ, ◌+◌, ◌*◌, ◌<◌, ◌≡◌, refl, ◌≢◌, sym, ap, ◌∙◌, true, false, List, [], ◌∷◌, ◌++◌, append_assoc,
  append-nil, arith, Text, ltb, eqb, All, if◌then◌else◌,
}

abbrev pub newline : ℕ
newline = 10

-- the bytes of a code point in UTF-8
unfoldable pub width : ℕ → ℕ
width c = if ltb c 0x80 then 1 else if ltb c 0x800 then 2 else if ltb c 0x1_0000 then 3 else 4

unfoldable pub byte_len : Text → ℕ
unfolding width
byte_len [] = 0
byte_len (c ∷ s) = width c + byte_len s

abbrev pub max_token : ℕ
max_token = 64 * 1024

-- ScanLines drops one carriage return before the newline.
unfoldable pub drop_cr : Text → Text
drop_cr [] = []
drop_cr (c ∷ []) = if eqb c 13 then [] else c ∷ []
drop_cr (c ∷ d ∷ s) = c ∷ drop_cr (d ∷ s)

-- The tokens of a text; `cur` is the line being read. A line that does not fit ends the scan.
unfoldable pub scan_from : Text → Text → List Text
unfolding byte_len drop_cr
scan_from cur [] = elim cur [
  | [] ↦ []
  | c ∷ s ↦ if ltb (byte_len (c ∷ s)) max_token then drop_cr (c ∷ s) ∷ [] else []
]
scan_from cur (c ∷ s) = elim (eqb c newline) [
  | true ↦
      let rest = scan_from [] s in if ltb (byte_len cur) max_token then drop_cr cur ∷ rest else []
  | false ↦ scan_from (cur ++ c ∷ []) s
]

unfoldable pub scan_lines : Text → List Text
unfolding scan_from
scan_lines = scan_from []

-- A text that makes one line which the scanner returns as it is.
pub record IsLine (s : Text) : Type 0 where
  pub unbroken : All (λ c. c ≢ newline) s
  pub fits : byte_len s < max_token
  pub plain : drop_cr s ≡ s

abbrev pub lines : List Text → Text
lines [] = []
lines (l ∷ ls) = l ++ newline ∷ lines ls

scan_from-append :
    (l rest cur : Text)
    → All (λ c. c ≢ newline) l
    → scan_from cur (l ++ rest) ≡ scan_from (cur ++ l) rest
unfolding scan_from
scan_from-append [] rest cur h = rw append-nil
scan_from-append (c ∷ l) rest cur h =
    ground (arith, scan_from-append l rest (cur ++ c ∷ []) h.1, append_assoc cur (c ∷ []) l)

scan_from-newline :
    (cur rest : Text)
    → byte_len cur < max_token
    → scan_from cur (newline ∷ rest) ≡ drop_cr cur ∷ scan_from [] rest
unfolding scan_from
scan_from-newline cur rest h = ground arith

-- Scanning a text of lines returns the lines.
pub scan_lines-lines : (ls : List Text) → All IsLine ls → scan_lines (lines ls) ≡ ls
unfolding scan_lines
scan_lines-lines [] h = refl
scan_lines-lines (l ∷ ls) (hl, hls) =
    scan_from-append l (newline ∷ lines ls) [] hl.unbroken
    ∙ scan_from-newline l (lines ls) hl.fits
    ∙ cc (hl.plain, scan_lines-lines ls hls)

pub lines-append : (ks ls : List Text) → lines (ks ++ ls) ≡ lines ks ++ lines ls
lines-append [] ls = refl
lines-append (k ∷ ks) ls =
    ap (λ t. k ++ newline ∷ t) (lines-append ks ls)
    ∙ sym (append_assoc k (newline ∷ lines ks) (lines ls))
