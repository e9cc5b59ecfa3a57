-- ===== src/Prelude/Int.antt =====
-- Go's `int`, a signed 64-bit number, as an integer over the native numbers.
use daemon_go.Prelude.Base.{ℕ, zero, suc, ◌+◌, ◌-◌, ◌*◌, ◌%◌, ◌^◌, ◌≤◌, ◌≡◌, refl, Bool, arith}
use daemon_go.Prelude.Tests.{ltb, leb, eqb, if◌then◌else◌}

-- `negsuc n` is -(n + 1).
pub data ℤ : Type 0 where
  pos : ℕ → ℤ
  negsuc : ℕ → ℤ

abbrev pub pos_part : ℤ → ℕ
pos_part (pos n) = n
pos_part (negsuc n) = 0

abbrev pub neg_part : ℤ → ℕ
neg_part (pos n) = 0
neg_part (negsuc n) = suc n

infix 50 ◌≤ℤ◌
abbrev pub ◌≤ℤ◌ : ℤ → ℤ → Type 0
a ≤ℤ b = pos_part a + neg_part b ≤ pos_part b + neg_part a

-- a <= b
abbrev pub leb_ℤ : ℤ → ℤ → Bool
leb_ℤ a b = leb (pos_part a + neg_part b) (pos_part b + neg_part a)

-- a < b
abbrev pub ltb_ℤ : ℤ → ℤ → Bool
ltb_ℤ a b = ltb (pos_part a + neg_part b) (pos_part b + neg_part a)

abbrev pub is_zero : ℤ → Bool
is_zero (pos n) = eqb n 0
is_zero (negsuc n) = ltb n 0

abbrev pub max_int : ℕ
max_int = 2 ^ 63 - 1

-- x + 1 on int64: the largest value wraps to the smallest
unfoldable pub increment : ℤ → ℤ
increment (pos n) = if eqb n max_int then negsuc max_int else pos (n + 1)
increment (negsuc zero) = pos 0
increment (negsuc (suc n)) = negsuc n

increment_wraps : increment (pos max_int) ≡ negsuc max_int
unfolding increment
increment_wraps = refl

-- Below the largest value the increment is exact.
pub pos_part-increment : (a : ℤ) (n : ℕ) → a ≡ pos n → n + 1 ≤ max_int → increment a ≡ pos (n + 1)
unfolding increment
pos_part-increment a n e h = ground arith

abbrev pub word : ℕ
word = 2 ^ 64

-- The int64 whose value modulo 2^64 is `n`.
abbrev pub to_signed : ℕ → ℤ
to_signed n = if ltb n (2 ^ 63) then pos n else negsuc (word - n - 1)

-- x * k on int64, for a positive constant k
unfoldable pub times : ℤ → ℕ → ℤ
times (pos n) k = to_signed (n * k % word)
times (negsuc n) k = to_signed ((word - suc n * k % word) % word)

times_wraps :
    (times (pos 60) 1_000_000_000 ≡ pos 60_000_000_000)
    × (times (negsuc 1) 1_000_000 ≡ negsuc 1_999_999)
    × (times (pos 9_223_372_036_855) 1_000_000 ≡ negsuc 9_223_372_036_854_551_615)
unfolding times
times_wraps = (refl, refl, refl)
