-- ===== src/Prelude/Lists.antt =====
-- Lists measured and indexed by native numbers, under the library's names.
use Prim.Native.Nat.{ℕ, zero, suc, ◌+◌, ◌-◌, ◌≤◌, min}
use mathlib.Core.Path.{◌≡◌, refl, sym, ap, ◌∙◌}
use mathlib.Core.List.{List, [], ◌∷◌, ◌++◌, map}
use native.Mathlib.Nat.{zero-add, suc-add}
use native.Mathlib.Omega.{arith}

module _ {ℓ} {A : Type ℓ} where
  abbrev pub length : List A → ℕ
  length [] = 0
  length (x ∷ xs) = suc (length xs)

  pub length-append : (xs ys : List A) → length (xs ++ ys) ≡ length xs + length ys
  length-append [] ys = omega arith
  length-append (x ∷ xs) ys = omega (arith, length-append xs ys)

module _ {ℓ} {A : Type ℓ} where
  abbrev pub take : ℕ → List A → List A
  take zero xs = []
  take (suc n) [] = []
  take (suc n) (x ∷ xs) = x ∷ take n xs

  abbrev pub drop : ℕ → List A → List A
  drop zero xs = xs
  drop (suc n) [] = []
  drop (suc n) (x ∷ xs) = drop n xs

  pub take-append-drop : (n : ℕ) (xs : List A) → take n xs ++ drop n xs ≡ xs
  take-append-drop zero xs = refl
  take-append-drop (suc n) [] = refl
  take-append-drop (suc n) (x ∷ xs) = rw (take-append-drop n xs)

  pub length-take : (n : ℕ) (xs : List A) → length (take n xs) ≡ min n (length xs)
  length-take zero xs = omega arith
  length-take (suc n) [] = omega arith
  length-take (suc n) (x ∷ xs) = omega (arith, length-take n xs)

  pub length-drop : (n : ℕ) (xs : List A) → length (drop n xs) ≡ length xs - n
  length-drop zero xs = omega arith
  length-drop (suc n) [] = omega arith
  length-drop (suc n) (x ∷ xs) = omega (arith, length-drop n xs)

  -- the last `n` elements: s[len(s)-n:]
  abbrev pub last : ℕ → List A → List A
  last n xs = drop (length xs - n) xs

  -- if len(s) > n { s = s[len(s)-n:] }
  pub last_of_length-le : (n : ℕ) (xs : List A) → length xs ≤ n → last n xs ≡ xs
  last_of_length-le n xs h = let e : length xs - n ≡ 0 = omega arith in rw e

  pub length-last : (n : ℕ) (xs : List A) → length (last n xs) ≡ min n (length xs)
  length-last n xs = omega (arith, length-drop (length xs - n) xs)

  pub drop-append : (n : ℕ) (xs ys : List A) → n ≤ length xs → drop n (xs ++ ys) ≡ drop n xs ++ ys
  drop-append zero xs ys h = refl
  drop-append (suc n) [] ys h = absurd (omega arith)
  drop-append (suc n) (x ∷ xs) ys h = drop-append n xs ys (omega arith)

  pub drop-drop : (m n : ℕ) (xs : List A) → drop m (drop n xs) ≡ drop (n + m) xs
  drop-drop m zero xs = rw zero-add
  drop-drop zero (suc n) [] = rw suc-add
  drop-drop (suc m) (suc n) [] = rw suc-add
  drop-drop m (suc n) (x ∷ xs) = rw suc-add (drop-drop m n xs)

  pub drop-length : (xs : List A) → drop (length xs) xs ≡ []
  drop-length [] = refl
  drop-length (x ∷ xs) = drop-length xs

module _ {ℓ κ} {A : Type ℓ} (P : A → Type κ) where
  abbrev pub All : List A → Type κ
  All [] = Unit
  All (x ∷ xs) = P x × All xs

  pub All-append : (xs ys : List A) → All xs → All ys → All (xs ++ ys)
  All-append [] ys _ hy = hy
  All-append (x ∷ xs) ys (hx, hxs) hy = (hx, All-append xs ys hxs hy)

module _ {ℓ κ} {A : Type ℓ} {B : Type κ} where
  pub length-map : (xs : List A) (f : A → B) → length (map f xs) ≡ length xs
  length-map [] f = refl
  length-map (x ∷ xs) f = ap suc (length-map xs f)

  pub map-eq {μ} :
      {C : Type μ} (g : B → C) (f : A → B) (h : A → C) (xs : List A)
      → ((x : A) → g (f x) ≡ h x)
      → map g (map f xs) ≡ map h xs
  map-eq g f h [] e = refl
  map-eq g f h (x ∷ xs) e = cc (e x, map-eq g f h xs e)

module _ {ℓ} {A : Type ℓ} where
  -- Trimming to the last `n` before more is appended makes no difference after the next trim.
  pub last-append-last : (n : ℕ) (xs ys : List A) → last n (last n xs ++ ys) ≡ last n (xs ++ ys)
  last-append-last n xs ys =
      let d = length xs - n in
      let e : length (drop d xs ++ ys) - n + d ≡ length (xs ++ ys) - n =
        omega (
          arith,
          length-append {ℓ} (drop d xs) ys,
          length-append {ℓ} xs ys,
          length-drop {ℓ} d xs,
        ) in
      let f : d + (length (drop d xs ++ ys) - n) ≡ length (xs ++ ys) - n = omega arith in
      ap (λ zs. drop (length (drop d xs ++ ys) - n) zs) (sym (drop-append d xs ys (omega arith)))
      ∙ drop-drop (length (drop d xs ++ ys) - n) d (xs ++ ys)
      ∙ ap (λ k. drop k (xs ++ ys)) f

  pub last-last : (m n : ℕ) (xs : List A) → last n (last m xs) ≡ last (min n m) xs
  last-last m n xs =
      let d = length xs - m in
      let e : d + (length (drop d xs) - n) ≡ length xs - min n m =
        omega (arith, length-drop {ℓ} d xs) in
      drop-drop (length (drop d xs) - n) d xs ∙ ap (λ k. drop k xs) e

  pub last-concat : (xs : List A) (x : A) → last 1 (xs ++ x ∷ []) ≡ x ∷ []
  last-concat xs x =
      let e : length (xs ++ x ∷ []) - 1 ≡ length xs =
        omega (arith, length-append {ℓ} xs (x ∷ [])) in
      rw (e, drop-append (length xs) xs (x ∷ []) (omega arith), drop-length xs)

module _ {ℓ κ} {A : Type ℓ} (P : A → Type κ) where
  pub All-drop : (n : ℕ) (xs : List A) → All P xs → All P (drop n xs)
  All-drop zero xs h = h
  All-drop (suc n) [] h = h
  All-drop (suc n) (x ∷ xs) (_, h) = All-drop n xs h
