-- ===== src/Bng/Compare/LeadingZeros.antt =====
-- bng_leading_zero_bits gives the shift that normalises a digit.
use native.Mathlib.Nat.{div-add-mod', mod-lt, mod-eq_of_lt, add-zero, div-lt_iff_lt-mul}
use ocaml_pro_ocaml_branch.Base.{
  ℕ, ◌+◌, ◌-◌, ◌*◌, ◌/◌, ◌%◌, ◌^◌, ◌<◌, ◌≤◌, ◌≡◌, ◌≢◌, arith, ap, ap₂, ◌∙◌, sym, bit_and, ◌==◌, inl,
  inr, Bool-cases, ==_iff,
}
use ocaml_pro_ocaml_branch.Base.Bits.{bit_and-cut, bit_and-mask, bit_and-zero}
use ocaml_pro_ocaml_branch.Base.Shifts.{pow_pos, pow_add, pow_split}
use ocaml_pro_ocaml_branch.Bng.Digit.{base}
use ocaml_pro_ocaml_branch.Bng.Compare.{Zeros, narrow, leading_zero_bits}

-- The mask of the upper half of `k + k` bits.
abbrev upper_mask : ℕ → ℕ
upper_mask k = (2 ^ k - 1) * 2 ^ k

bit_and-upper_mask : (k d : ℕ) → d / 2 ^ k < 2 ^ k → bit_and d (upper_mask k) ≡ d / 2 ^ k * 2 ^ k
bit_and-upper_mask k d small = omega (
  arith,
  ap₂ bit_and (div-add-mod' d (2 ^ k)) (add-zero (upper_mask k)),
  bit_and-cut k (d / 2 ^ k) (2 ^ k - 1) (d % 2 ^ k) 0 (mod-lt d (pow_pos k)) (pow_pos k),
  ap (λ (t : ℕ). t * 2 ^ k) (bit_and-mask k (d / 2 ^ k) ∙ mod-eq_of_lt small),
  bit_and-zero (d % 2 ^ k),
)

-- `s` holds the top bits of `whole`, `width` bits at most, with the shift so far.
record IsTop (whole width : ℕ) (s : Zeros) : Type 0 where
  nonzero : 0 < s.d
  narrow_enough : s.d < 2 ^ width
  shift : ℕ
  counted : s.n + shift ≡ 64
  room : shift + width ≤ 64
  below : s.d * 2 ^ shift ≤ whole
  above : whole < (s.d + 1) * 2 ^ shift

mul_le : (a b c : ℕ) → a ≤ b → a * c ≤ b * c
mul_le a b c h = grind arith

narrow-IsTop :
    (k whole : ℕ) {s : Zeros} → IsTop whole (k + k) s → IsTop whole k (narrow (upper_mask k) k s)
unfolding narrow
narrow-IsTop k whole {s} t =
    let width = pow_add k k in
    let parts = div-add-mod' s.d (2 ^ k) in
    let low = mod-lt s.d (pow_pos k) in
    let small : s.d / 2 ^ k < 2 ^ k =
      (div-lt_iff_lt-mul (pow_pos k)).1 (omega (arith, t.narrow_enough)) in
    let masked = bit_and-upper_mask k s.d small in
    elim (Bool-cases (bit_and s.d (upper_mask k) == 0)) [
      | inl empty ↦
          let none_above : s.d / 2 ^ k * 2 ^ k ≡ 0 = sym masked ∙ (==_iff _ _).0 empty in
          rw empty (record {
            nonzero = t.nonzero;
            narrow_enough = omega arith;
            shift = t.shift;
            counted = t.counted;
            room = omega (arith, t.room);
            below = t.below;
            above = t.above;
          })
      | inr full ↦
          let some_above : s.d / 2 ^ k * 2 ^ k ≢ 0 = ground arith in
          let wide = pow_add t.shift k in
          rw full (record {
            nonzero = nonzero_factor (s.d / 2 ^ k) (2 ^ k) some_above;
            narrow_enough = small;
            shift = t.shift + k;
            counted = omega (arith, t.counted, t.room);
            room = omega (arith, t.room);
            below = omega (
              arith,
              t.below,
              ap (λ (x : ℕ). s.d / 2 ^ k * x) wide,
              ap (λ (x : ℕ). x * 2 ^ t.shift) parts,
            );
            above = omega (
              arith,
              t.above,
              ap (λ (x : ℕ). (s.d / 2 ^ k + 1) * x) wide,
              mul_le (s.d + 1) ((s.d / 2 ^ k + 1) * 2 ^ k) (2 ^ t.shift) (omega arith),
            );
          })
    ]
  where
    nonzero_factor : (a b : ℕ) → a * b ≢ 0 → 0 < a
    nonzero_factor a b h = grind arith

start-IsTop : (d : ℕ) → 0 < d → d < base → IsTop d 64 (record { n = 64; d = d })
start-IsTop d pos h = record {
  nonzero = pos;
  narrow_enough = h;
  shift = 0;
  counted = omega arith;
  room = omega arith;
  below = omega arith;
  above = omega arith;
}

-- With one bit left it is the top bit of the digit.
top_bit :
    (whole : ℕ) {s : Zeros}
    → IsTop whole 1 s
    → (s.n - s.d < 64) × (2 ^ 63 ≤ whole * 2 ^ (s.n - s.d)) × (whole * 2 ^ (s.n - s.d) < base)
top_bit whole {s} t =
    let one : s.d ≡ 1 = omega (arith, t.nonzero, t.narrow_enough) in
    let z : s.n - s.d ≡ 63 - t.shift = omega (arith, t.counted) in
    let total : 2 ^ t.shift * 2 ^ (63 - t.shift) ≡ 2 ^ 63 =
      pow_split 63 t.shift (omega (arith, t.room)) in
    let low : 2 ^ t.shift ≤ whole = omega (arith, t.below, ap (λ (x : ℕ). x * 2 ^ t.shift) one) in
    let high : whole < 2 ^ t.shift * 2 =
      omega (arith, t.above, ap (λ (x : ℕ). x * 2 ^ t.shift) one) in
    let pos = pow_pos (63 - t.shift) in
    rw z (
      omega (arith, t.room),
      omega (arith, mul_le (2 ^ t.shift) whole (2 ^ (63 - t.shift)) low),
      omega (arith, mul_le (whole + 1) (2 ^ t.shift * 2) (2 ^ (63 - t.shift)) (omega arith)),
    )

-- For a digit that is not zero, bng_leading_zero_bits gives a number below 64, and shifted left by it
-- the digit has its top bit set and loses no bit.
leading_zero_bits_lem :
    (d : ℕ)
    → 0 < d
    → d < base
    → let z = leading_zero_bits d in (z < 64) × (2 ^ 63 ≤ d * 2 ^ z) × (d * 2 ^ z < base)
unfolding leading_zero_bits
leading_zero_bits_lem d pos h = top_bit d (
    narrow-IsTop 1 d (
      narrow-IsTop 2 d (
        narrow-IsTop 4 d
          (narrow-IsTop 8 d (narrow-IsTop 16 d (narrow-IsTop 32 d (start-IsTop d pos h)))))))
