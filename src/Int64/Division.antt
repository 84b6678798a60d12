-- ===== src/Int64/Division.antt =====
-- I64_udivmod, I64_div and I64_mod compute quotients and remainders.
mod Scale
mod Subtract
use native.Mathlib.Nat.{pow-suc}
use ocaml_pro_ocaml_branch.Base.{
  ℕ, zero, suc, ◌+◌, ◌-◌, ◌*◌, ◌/◌, ◌%◌, ◌^◌, ◌<◌, ◌≡◌, ◌≢◌, Bool, true, false, Option, none, some,
  arith, ap, ap₂, ◌∙◌, sym, refl, ◌>>=◌, bit_xor, xor_bool, if◌then◌else◌,
}
use ocaml_pro_ocaml_branch.Base.Bits.{bit_xor-cut, bit_xor-lt}
use ocaml_pro_ocaml_branch.Base.Shifts.{div_unique, mod_unique}
use ocaml_pro_ocaml_branch.Base.Int.{ℤ, pos, negsuc, pos_part, neg_part, sub_ℕ}
use ocaml_pro_ocaml_branch.Int64.{
  Int64, ucompare, negative32, scale, subtract, udivmod, neg, absolute, quotient, remainder, shl1,
  nonneg,
}
use ocaml_pro_ocaml_branch.Int64.Value.{IsInt64, to_ℕ, to_ℕ-lt, to_ℤ}
use ocaml_pro_ocaml_branch.Int64.Ring.{to_ℕ-neg, neg-IsInt64}
use ocaml_pro_ocaml_branch.Int64.Shift.{to_ℕ-shl1, shl1-IsInt64}
use Scale.{Scaled, IsScaledUp, scale_lem, fits_iff}
use Subtract.{Remaining, IsDivided, subtract_lem}

-- `result` is the quotient and the remainder of `m` by `d`.
pub record IsQuotient (m d : ℕ) (result : Option (Int64 × Int64)) : Type 0 where
  pub quot : Int64
  pub rem : Int64
  pub returns : result ≡ some (quot, rem)
  pub quot_ok : IsInt64 quot
  pub rem_ok : IsInt64 rem
  pub quot_value : to_ℕ quot ≡ m / d
  pub rem_value : to_ℕ rem ≡ m % d

IsDivided-IsQuotient :
    {m d : ℕ} {result : Option (Int64 × Int64)} → IsDivided m d result → IsQuotient m d result
IsDivided-IsQuotient {m} {d} p = record {
  quot = p.quotient;
  rem = p.modulus;
  returns = p.returns;
  quot_ok = p.divided.quotient_ok;
  rem_ok = p.divided.modulus_ok;
  quot_value = sym (
      ap (λ (t : ℕ). t / d) (sym p.divided.total)
      ∙ div_unique _ d _ (omega (arith, p.divided.small)));
  rem_value = sym (
      ap (λ (t : ℕ). t % d) (sym p.divided.total)
      ∙ mod_unique (to_ℕ p.quotient) d _ (omega (arith, p.divided.small)));
}

-- I64_udivmod ends and gives the quotient and the remainder, for any divisor but zero.
pub udivmod_lem :
    {modulus divisor : Int64}
    → IsInt64 modulus
    → IsInt64 divisor
    → 0 < to_ℕ divisor
    → IsQuotient (to_ℕ modulus) (to_ℕ divisor) (udivmod modulus divisor)
unfolding udivmod
udivmod_lem {modulus} {divisor} m v nonzero =
    let up = scale_lem 65 0 (to_ℕ divisor) m nonzero start (omega arith) (omega arith) in
    rw up.returns
      (IsDivided-IsQuotient (subtract_lem up.k 65 (begin up) up.scaled (omega (arith, up.short))))
  where
    start : Scaled (to_ℕ divisor) 0 divisor (record { h = 0; l = 1 })
    start = record {
      divisor_ok = v;
      mask_ok = omega arith;
      divisor_value = omega arith;
      mask_value = omega arith;
    }

    begin :
        {result : Option (Int64 × Int64)} (up : IsScaledUp (to_ℕ modulus) (to_ℕ divisor) result)
        → Remaining (to_ℕ modulus) (to_ℕ divisor) (suc up.k) (record { h = 0; l = 0 }) modulus
    begin up = record {
      quotient_ok = omega arith;
      modulus_ok = m;
      times = 0;
      multiple = omega arith;
      total = omega arith;
      small = omega (arith, up.enough, ap (λ (t : ℕ). to_ℕ divisor * t) (pow-suc 2 up.k));
    }

-- By zero it would not end: while the modulus is not zero the first loop never stops.
scale-zero :
    (fuel : ℕ) {modulus divisor : Int64} (mask : Int64)
    → IsInt64 modulus
    → IsInt64 divisor
    → 0 < to_ℕ modulus
    → to_ℕ divisor ≡ 0
    → scale fuel modulus divisor mask ≡ none
unfolding scale
scale-zero zero mask m v large is_zero = refl
scale-zero (suc fuel) {modulus} {divisor} mask m v large is_zero = ground (
  arith,
  fits_iff v m,
  scale-zero fuel (shl1 mask) m (shl1-IsInt64 v) large (omega (arith, to_ℕ-shl1 v)),
)
