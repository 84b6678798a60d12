-- ===== src/Bng/Shift.antt =====
-- bng_shift_left and bng_shift_right: a shift of the whole array by fewer bits than a digit has.
use native.Mathlib.Nat.{add-zero, div-add-mod', mod-lt, div-lt_iff_lt-mul}
use ocaml_pro_ocaml_branch.Base.{
  ℕ, zero, suc, ◌+◌, ◌-◌, ◌*◌, ◌/◌, ◌%◌, ◌^◌, ◌<◌, ◌≤◌, ◌≡◌, List, [], ◌∷◌, arith, length, ap, ◌∙◌,
  sym, refl, subst, bit_or, ltb, lt→ltb, if◌then◌else◌,
}
use ocaml_pro_ocaml_branch.Base.Bits.{bit_or-high_low, bit_or-low_high}
use ocaml_pro_ocaml_branch.Base.Shifts.{
  pow_pos, pow_split, shl_split, shl_word, shl-lt, shr-lt, mul_below, div_unique, mod_unique,
}
use ocaml_pro_ocaml_branch.Bng.Digit.{base}
use ocaml_pro_ocaml_branch.Bng.Value.{value, weight, IsDigits}
use ocaml_pro_ocaml_branch.Bng.AddSub.{Outcome, outcome, put}

shift_left_loop : ℕ → ℕ → List ℕ → Outcome
shift_left_loop shift carry [] = outcome carry []
shift_left_loop shift carry (d ∷ ds) =
    put (bit_or (d * 2 ^ shift % base) carry) (shift_left_loop shift (d / 2 ^ (64 - shift)) ds)

-- The outcome's carry is the bits that are shifted out.
unfoldable pub shift_left : List ℕ → ℕ → Outcome
unfolding shift_left_loop
shift_left a shift = if ltb 0 shift then shift_left_loop shift 0 a else outcome 0 a

-- The loop goes down from the most significant digit, the end of the list.
shift_right_loop : ℕ → List ℕ → Outcome
shift_right_loop shift [] = outcome 0 []
shift_right_loop shift (d ∷ ds) =
    let above = shift_right_loop shift ds in
    outcome (d * 2 ^ (64 - shift) % base) (bit_or (d / 2 ^ shift) above.carry ∷ above.digits)

unfoldable pub shift_right : List ℕ → ℕ → Outcome
unfolding shift_right_loop
shift_right a shift = if ltb 0 shift then shift_right_loop shift a else outcome 0 a

-- `r` holds `total` in as many digits as `a` has, and a carry of `shift` bits.
pub record IsShiftedLeft (a : List ℕ) (shift total : ℕ) (r : Outcome) : Type 0 where
  pub same_length : length r.digits ≡ length a
  pub digits_ok : IsDigits r.digits
  pub carry_bits : r.carry < 2 ^ shift
  pub is_total : value r.digits + weight (length a) * r.carry ≡ total

module _ (s : ℕ) (hs : s ≤ 64) where
  shifted_digit : (d c : ℕ) → c < 2 ^ s → bit_or (d * 2 ^ s % base) c ≡ d % 2 ^ (64 - s) * 2 ^ s + c
  shifted_digit d c hc =
      ap (λ (t : ℕ). bit_or t c) (shl_word 64 s hs d) ∙ bit_or-high_low s (d % 2 ^ (64 - s)) c hc

  shift_left_loop-IsShiftedLeft :
      (carry : ℕ) (a : List ℕ)
      → IsDigits a
      → carry < 2 ^ s
      → IsShiftedLeft a s (value a * 2 ^ s + carry) (shift_left_loop s carry a)
  unfolding shift_left_loop value weight
  shift_left_loop-IsShiftedLeft c [] da hc = omega arith
  shift_left_loop-IsShiftedLeft c (d ∷ ds) da hc =
      let rest = shift_left_loop-IsShiftedLeft (d / 2 ^ (64 - s)) ds da.1 (shr-lt 64 s hs d da.0) in
      record {
        same_length = omega (arith, rest.same_length);
        digits_ok = (omega (arith, shifted_digit d c hc, shl-lt 64 s hs d), rest.digits_ok);
        carry_bits = rest.carry_bits;
        is_total = omega (arith, rest.is_total, shifted_digit d c hc, shl_split 64 s hs d);
      }

-- For an array of digits and a shift below 64, bng_shift_left multiplies by `2 ^ shift`; the bits
-- that do not fit are returned.
pub shift_left-IsShiftedLeft :
    (a : List ℕ) (shift : ℕ)
    → IsDigits a
    → shift < 64
    → IsShiftedLeft a shift (value a * 2 ^ shift) (shift_left a shift)
unfolding shift_left
shift_left-IsShiftedLeft a zero da h = record {
  same_length = refl;
  digits_ok = da;
  carry_bits = omega arith;
  is_total = omega arith;
}
shift_left-IsShiftedLeft a (suc s) da h = rw (lt→ltb 0 (suc s) (omega arith)) (
    subst (λ (t : ℕ). IsShiftedLeft a (suc s) t (shift_left_loop (suc s) 0 a))
      (add-zero (value a * 2 ^ suc s))
      (shift_left_loop-IsShiftedLeft (suc s) (omega arith) 0 a da (pow_pos (suc s))))

-- `r` holds `a` without its low bits `low`, which are at the top of the carry.
pub record IsShiftedRight (a : List ℕ) (shift : ℕ) (r : Outcome) : Type 0 where
  pub same_length : length r.digits ≡ length a
  pub digits_ok : IsDigits r.digits
  pub low : ℕ
  pub low_bits : low < 2 ^ shift
  pub carry_value : r.carry ≡ low * 2 ^ (64 - shift)
  pub is_total : value r.digits * 2 ^ shift + low ≡ value a

module _ (s : ℕ) (hs : s ≤ 64) where
  high_part : (d : ℕ) → d < base → d / 2 ^ s < 2 ^ (64 - s)
  high_part d hd = (div-lt_iff_lt-mul (pow_pos s)).1 (omega (arith, pow_split 64 s hs))

  twice_back : 64 - (64 - s) ≡ s
  twice_back = omega arith

  -- `d << (64 - s)` keeps the bits that a shift right by `s` drops.
  dropped : (d : ℕ) → d * 2 ^ (64 - s) % base ≡ d % 2 ^ s * 2 ^ (64 - s)
  dropped d =
      subst (λ (t : ℕ). d * 2 ^ (64 - s) % base ≡ d % 2 ^ t * 2 ^ (64 - s)) twice_back
        (shl_word 64 (64 - s) (omega arith) d)

  shift_right_loop-IsShiftedRight :
      (a : List ℕ) → IsDigits a → IsShiftedRight a s (shift_right_loop s a)
  unfolding shift_right_loop value
  shift_right_loop-IsShiftedRight [] da = record {
    same_length = refl;
    digits_ok = tt;
    low = 0;
    low_bits = pow_pos s;
    carry_value = omega arith;
    is_total = omega arith;
  }
  shift_right_loop-IsShiftedRight (d ∷ ds) da =
      let above = shift_right_loop-IsShiftedRight ds da.1 in
      let parts = div-add-mod' d (2 ^ s) in
      let split = pow_split 64 s hs in
      let digit : bit_or (d / 2 ^ s) (shift_right_loop s ds).carry
          ≡ above.low * 2 ^ (64 - s) + d / 2 ^ s =
        ap (bit_or (d / 2 ^ s)) above.carry_value
        ∙ bit_or-low_high (64 - s) above.low (d / 2 ^ s) (high_part d da.0) in
      record {
        same_length = omega (arith, above.same_length);
        digits_ok = (
          omega (
            arith,
            digit,
            mul_below above.low (2 ^ (64 - s)) (2 ^ s) above.low_bits,
            split,
            high_part d da.0,
          ),
          above.digits_ok,
        );
        low = d % 2 ^ s;
        low_bits = mod-lt d (pow_pos s);
        carry_value = dropped d;
        is_total = omega (
          arith,
          ap (λ (t : ℕ). t * 2 ^ s) digit,
          ap (λ (t : ℕ). above.low * t) split,
          above.is_total,
          parts,
        );
      }

-- bng_shift_right divides by `2 ^ shift`; the remainder is returned in the top bits of a digit.
pub shift_right-IsShiftedRight :
    (a : List ℕ) (shift : ℕ)
    → IsDigits a
    → shift < 64
    → IsShiftedRight a shift (shift_right a shift)
unfolding shift_right
shift_right-IsShiftedRight a zero da h = record {
  same_length = refl;
  digits_ok = da;
  low = 0;
  low_bits = omega arith;
  carry_value = omega arith;
  is_total = omega arith;
}
shift_right-IsShiftedRight a (suc s) da h =
    rw (lt→ltb 0 (suc s) (omega arith)) (shift_right_loop-IsShiftedRight (suc s) (omega arith) a da)

-- For an array of digits and a shift below 64, bng_shift_right leaves the quotient by `2 ^ shift` in
-- the array, and returns the remainder in the top bits of a digit.
pub shift_right_lem :
    (a : List ℕ) (shift : ℕ)
    → IsDigits a
    → shift < 64
    → (value (shift_right a shift).digits ≡ value a / 2 ^ shift)
      × ((shift_right a shift).carry ≡ value a % 2 ^ shift * 2 ^ (64 - shift))
shift_right_lem a s da h =
    let r = shift_right-IsShiftedRight a s da h in
    let v = value (shift_right a s).digits in
    (
      sym (ap (λ (t : ℕ). t / 2 ^ s) (sym r.is_total) ∙ div_unique v (2 ^ s) r.low r.low_bits),
      r.carry_value
          ∙ ap (λ (t : ℕ). t * 2 ^ (64 - s))
              (sym (
                ap (λ (t : ℕ). t % 2 ^ s) (sym r.is_total)
                ∙ mod_unique v (2 ^ s) r.low r.low_bits)),
    )
