-- ===== src/Bng/Value.antt =====
-- What an array of digits stands for: the least significant digit comes first.
use native.Mathlib.Nat.{zero-add, suc-add}
use ocaml_pro_ocaml_branch.Base.{
  ℕ, zero, suc, ◌+◌, ◌*◌, ◌<◌, ◌≤◌, ◌≡◌, ap, arith, List, [], ◌∷◌, ◌++◌, length,
}
use ocaml_pro_ocaml_branch.Bng.Digit.{base}

unfoldable pub value : List ℕ → ℕ
value [] = 0
value (x ∷ xs) = x + base * value xs

-- Every digit is below the base.
abbrev pub IsDigits : List ℕ → Type 0
IsDigits [] = Unit
IsDigits (x ∷ xs) = (x < base) × IsDigits xs

-- The weight of the digit at index `n`.
unfoldable pub weight : ℕ → ℕ
weight zero = 1
weight (suc n) = base * weight n

pub value-lt : (xs : List ℕ) → IsDigits xs → value xs < weight (length xs)
unfolding value weight
value-lt [] d = omega arith
value-lt (x ∷ xs) d = omega (arith, value-lt xs d.1)

pub value-append : (xs ys : List ℕ) → value (xs ++ ys) ≡ value xs + weight (length xs) * value ys
unfolding value weight
value-append [] ys = omega arith
value-append (x ∷ xs) ys = omega (arith, value-append xs ys)

pub weight_pos : (n : ℕ) → 0 < weight n
unfolding weight
weight_pos zero = omega arith
weight_pos (suc n) = omega (arith, weight_pos n)

pub weight-add : (m n : ℕ) → weight (m + n) ≡ weight m * weight n
unfolding weight
weight-add zero n = omega (arith, ap weight (zero-add n))
weight-add (suc m) n = omega (arith, weight-add m n, ap weight (suc-add m n))

pub weight_mono : (m n : ℕ) → m ≤ n → weight m ≤ weight n
unfolding weight
weight_mono zero n h = weight_pos n
weight_mono (suc m) zero h = absurd (omega arith)
weight_mono (suc m) (suc n) h = omega (arith, weight_mono m n (omega arith))
