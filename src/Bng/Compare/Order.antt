-- ===== src/Bng/Compare/Order.antt =====
-- bng_compare is the order of the values, whatever the numbers of digits.
use ocaml_pro_ocaml_branch.Base.{
  ℕ, zero, suc, ◌+◌, ◌*◌, ◌<◌, ◌≤◌, ◌≡◌, ◌⊎◌, List, [], ◌∷◌, length, take, max, arith, ltb, false,
  inl, inr, Bool-cases, ==_iff, ◌==◌, if◌then◌else◌, refl, ap, ◌∙◌,
}
use ocaml_pro_ocaml_branch.Base.Int.{ℤ, pos, negsuc}
use ocaml_pro_ocaml_branch.Bng.Digit.{base}
use ocaml_pro_ocaml_branch.Bng.Value.{value, weight, weight_mono, IsDigits}
use ocaml_pro_ocaml_branch.Bng.Compare.{
  digit, complement, trim, num_digits, compare_digits, compare,
}

-- The value of the first `n` digits.
value_to : List ℕ → ℕ → ℕ
value_to a n = value (take n a)

value_to-suc :
    (a : List ℕ) (n : ℕ) → n < length a → value_to a (suc n) ≡ value_to a n + weight n * digit a n
unfolding value_to value weight
value_to-suc [] n h = absurd (omega arith)
value_to-suc (x ∷ xs) zero h = omega arith
value_to-suc (x ∷ xs) (suc n) h = omega (arith, value_to-suc xs n (omega arith))

value_to-all : (a : List ℕ) → value_to a (length a) ≡ value a
unfolding value_to value
value_to-all [] = refl
value_to-all (x ∷ xs) = omega (arith, value_to-all xs)

value_to-le : (a : List ℕ) (n : ℕ) → value_to a n ≤ value a
unfolding value_to value
value_to-le a zero = omega arith
value_to-le [] (suc n) = omega arith
value_to-le (x ∷ xs) (suc n) = omega (arith, value_to-le xs n)

value_to-zero : (a : List ℕ) → value_to a 0 ≡ 0
unfolding value_to value
value_to-zero a = refl

value_to-lt : (a : List ℕ) (n : ℕ) → IsDigits a → n ≤ length a → value_to a n < weight n
unfolding value_to value weight
value_to-lt a zero d h = omega arith
value_to-lt [] (suc n) d h = absurd (omega arith)
value_to-lt (x ∷ xs) (suc n) d h = omega (arith, value_to-lt xs n d.1 (omega arith))

heavy :
    (a : List ℕ) (n : ℕ)
    → suc n ≤ length a
    → (digit a n == 0) ≡ false
    → weight (suc n) ≤ base * value_to a (suc n)
unfolding weight
heavy a n h nonzero =
    let one : 1 ≤ digit a n = ground arith in
    let step : weight n * 1 ≤ weight n * digit a n = grind arith in
    omega (arith, value_to-suc a n h)

-- Trimming drops zeros only, and stops at a digit that is not zero.
record IsTrimmed (a : List ℕ) (n m : ℕ) : Type 0 where
  within : m ≤ n
  same : value_to a m ≡ value_to a n
  top : (m ≡ 0) ⊎ (weight m ≤ base * value_to a m)

trim-IsTrimmed : (a : List ℕ) (n : ℕ) → n ≤ length a → IsTrimmed a n (trim a n)
unfolding trim
trim-IsTrimmed a zero h = record { within = omega arith; same = refl; top = omega arith }
trim-IsTrimmed a (suc n) h =
    let below = trim-IsTrimmed a n (omega arith) in
    elim (Bool-cases (digit a n == 0)) [
      | inl zero_digit ↦
          let empty : digit a n ≡ 0 = (==_iff _ _).0 zero_digit in
          rw zero_digit (record {
            within = omega (arith, below.within);
            same =
                omega (arith, below.same, value_to-suc a n h, ap (λ (t : ℕ). weight n * t) empty);
            top = below.top;
          })
      | inr some_digit ↦
          rw some_digit
            (record { within = omega arith; same = refl; top = inr (heavy a n h some_digit) })
    ]

num_digits-eq-trim : (a : List ℕ) (n : ℕ) → num_digits a n ≡ max 1 (trim a n)
unfolding num_digits trim
num_digits-eq-trim a zero = refl
num_digits-eq-trim a (suc n) = ground (arith, num_digits-eq-trim a n)

-- The digits above the shorter array decide; otherwise the highest digit that differs.
abbrev pub three_way : ℕ → ℕ → ℤ
three_way a b = if ltb b a then pos 1 else if ltb a b then negsuc 0 else pos 0

higher_digit : (v x w y n : ℕ) → v < weight n → x < y → v + weight n * x < w + weight n * y
higher_digit v x w y n hv hxy =
    let step : weight n * (x + 1) ≤ weight n * y = grind arith in omega arith

compare_digits_lem :
    (a b : List ℕ) (n : ℕ)
    → IsDigits a
    → IsDigits b
    → n ≤ length a
    → n ≤ length b
    → compare_digits a b n ≡ three_way (value_to a n) (value_to b n)
unfolding compare_digits
compare_digits_lem a b zero da db ha hb = unfold value_to value in refl
compare_digits_lem a b (suc n) da db ha hb = ground (
  arith,
  compare_digits_lem a b n da db (omega arith) (omega arith),
  value_to-suc a n ha,
  value_to-suc b n hb,
  value_to-lt a n da (omega arith),
  value_to-lt b n db (omega arith),
  higher_digit (value_to a n) (digit a n) (value_to b n) (digit b n) n,
  higher_digit (value_to b n) (digit b n) (value_to a n) (digit a n) n,
  ap (λ (t : ℕ). weight n * t),
)

-- A trimmed array with more digits stands for a larger number.
longer_is_larger :
    (a b : List ℕ) {n m k l : ℕ}
    → IsDigits b
    → IsTrimmed a n m
    → IsTrimmed b k l
    → k ≤ length b
    → l < m
    → value_to b k < value_to a n
unfolding weight
longer_is_larger a b {n} {m} {k} {l} db ta tb fits lt = ground (
  arith,
  ta.same,
  tb.same,
  ta.top,
  value_to-lt b l db (omega (arith, tb.within)),
  weight_mono (suc l) m,
)

-- For arrays of digits of any lengths, bng_compare gives 1, -1 or 0 as their values compare.
pub compare-three_way :
    (a b : List ℕ) → IsDigits a → IsDigits b → compare a b ≡ three_way (value a) (value b)
unfolding compare
compare-three_way a b da db =
    let ta = trim-IsTrimmed a (length a) (omega arith) in
    let tb = trim-IsTrimmed b (length b) (omega arith) in
    ground (
      arith,
      value_to-all a,
      value_to-all b,
      ta.same,
      tb.same,
      ta.within,
      tb.within,
      longer_is_larger a b db ta tb,
      longer_is_larger b a da tb ta,
      compare_digits_lem a b (trim a (length a)) da db,
    )

num_digits_cases :
    (a : List ℕ) (m n : ℕ)
    → n ≡ max 1 m
    → IsTrimmed a (length a) m
    → (1 ≤ n) × (value (take n a) ≡ value a) × ((n ≡ 1) ⊎ (weight n ≤ base * value a))
unfolding value_to
num_digits_cases a zero n e t =
    let one : n ≡ 1 = e in
    (
      omega arith,
      ap (value_to a) one ∙ omega (arith, t.same, value_to-all a, value_to-le a 1, value_to-zero a),
      inl one,
    )
num_digits_cases a (suc m) n e t =
    let same : n ≡ suc m = omega arith in
    (
      omega arith,
      ap (value_to a) same ∙ t.same ∙ value_to-all a,
      ground (arith, t.top, t.same, value_to-all a, ap weight same),
    )

-- bng_num_digits keeps the value: what it drops are leading zeros, and it drops them all but for a
-- last digit.
num_digits_lem :
    (a : List ℕ)
    → let n = num_digits a (length a) in
      (1 ≤ n) × (value (take n a) ≡ value a) × ((n ≡ 1) ⊎ (weight n ≤ base * value a))
num_digits_lem a =
    num_digits_cases a (trim a (length a)) (num_digits a (length a))
      (num_digits-eq-trim a (length a)) (trim-IsTrimmed a (length a) (omega arith))

-- For an array of digits, bng_complement turns `n` digits into their difference from the largest number of `n` digits.
pub value-complement :
    (a : List ℕ) → IsDigits a → value (complement a) + value a + 1 ≡ weight (length a)
unfolding complement value weight
value-complement [] d = omega arith
value-complement (x ∷ xs) d = omega (arith, value-complement xs d.1)
