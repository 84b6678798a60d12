-- ===== src/Int64/Division/Subtract.antt =====
-- The second loop of I64_udivmod ends with the quotient and the remainder.
use native.Mathlib.Nat.{pow-suc}
use ocaml_pro_ocaml_branch.Base.{
  ℕ, zero, suc, ◌+◌, ◌*◌, ◌^◌, ◌<◌, ◌≤◌, ◌≡◌, false, Option, some, arith, bit_or, ap, ap₂, ◌∙◌, sym,
  leb→le, leb-false→lt, Bool-cases, inl, inr, ◌==◌, if◌then◌else◌,
}
use ocaml_pro_ocaml_branch.Base.Bits.{bit_or-eq-zero_iff, bit_or-high_low}
use ocaml_pro_ocaml_branch.Base.Shifts.{pow_pos}
use ocaml_pro_ocaml_branch.Int64.{Int64, ucompare, sub, or, shr1, nonneg, subtract}
use ocaml_pro_ocaml_branch.Int64.Value.{IsInt64, to_ℕ, to_ℕ-lt}
use ocaml_pro_ocaml_branch.Int64.Ring.{to_ℕ-sub, sub-IsInt64}
use ocaml_pro_ocaml_branch.Int64.Bitwise.{to_ℕ-or, or-IsInt64}
use ocaml_pro_ocaml_branch.Int64.Shift.{to_ℕ-shr1, shr1-IsInt64}
use ocaml_pro_ocaml_branch.Int64.Division.Scale.{fits_iff, Scaled}

-- The loop's invariant: the quotient so far is a multiple of `2 ^ k`, what is left is below
-- `d * 2 ^ k`, and together they make up `m`.
pub record Remaining (m d k : ℕ) (quotient modulus : Int64) : Type 0 where
  pub quotient_ok : IsInt64 quotient
  pub modulus_ok : IsInt64 modulus
  pub times : ℕ
  pub multiple : to_ℕ quotient ≡ times * 2 ^ k
  pub total : to_ℕ quotient * d + to_ℕ modulus ≡ m
  pub small : to_ℕ modulus < d * 2 ^ k

-- `result` is the quotient and the remainder of `m` by `d`.
pub record IsDivided (m d : ℕ) (result : Option (Int64 × Int64)) : Type 0 where
  pub quotient : Int64
  pub modulus : Int64
  pub returns : result ≡ some (quotient, modulus)
  pub divided : Remaining m d 0 quotient modulus

mask_test :
    {d k : ℕ} {divisor mask : Int64} → Scaled d k divisor mask → (bit_or mask.l mask.h == 0) ≡ false
mask_test {d} {k} {divisor} {mask} s =
    ground (arith, (bit_or-eq-zero_iff mask.l mask.h).0, pow_pos k, s.mask_value)

module _ {m d k : ℕ} {quotient modulus divisor mask : Int64}
    (r : Remaining m d (suc k) quotient modulus) (s : Scaled d k divisor mask) where
  quotient_grows : to_ℕ (or quotient mask) ≡ (r.times * 2 + 1) * 2 ^ k
  quotient_grows = omega (
    arith,
    to_ℕ-or r.quotient_ok s.mask_ok,
    r.multiple,
    s.mask_value,
    ap₂ bit_or r.multiple s.mask_value,
    bit_or-high_low (suc k) r.times (2 ^ k) (omega (arith, pow-suc 2 k, pow_pos k)),
    ap (λ (t : ℕ). r.times * t) (pow-suc 2 k),
  )

  -- A round in which the divisor fits, and one in which it does not.
  Remaining-take :
      to_ℕ divisor ≤ to_ℕ modulus → Remaining m d k (or quotient mask) (sub modulus divisor)
  Remaining-take reached =
      let left : to_ℕ (sub modulus divisor) + to_ℕ divisor ≡ to_ℕ modulus =
        omega (arith, to_ℕ-sub r.modulus_ok s.divisor_ok, to_ℕ-lt r.modulus_ok) in
      record {
        quotient_ok = or-IsInt64 r.quotient_ok s.mask_ok;
        modulus_ok = sub-IsInt64 r.modulus_ok s.divisor_ok;
        times = r.times * 2 + 1;
        multiple = quotient_grows;
        total = omega (
          arith,
          ap (λ (t : ℕ). t * d) quotient_grows,
          ap (λ (t : ℕ). t * d) r.multiple,
          ap (λ (t : ℕ). r.times * t * d) (pow-suc 2 k),
          r.total,
          s.divisor_value,
        );
        small = omega (arith, r.small, s.divisor_value, ap (λ (t : ℕ). d * t) (pow-suc 2 k));
      }

  Remaining-skip : to_ℕ modulus < to_ℕ divisor → Remaining m d k quotient modulus
  Remaining-skip below = record {
    quotient_ok = r.quotient_ok;
    modulus_ok = r.modulus_ok;
    times = r.times * 2;
    multiple = omega (arith, r.multiple, ap (λ (t : ℕ). r.times * t) (pow-suc 2 k));
    total = r.total;
    small = omega (arith, s.divisor_value);
  }

  abbrev quotient' : Int64
  quotient' = if nonneg (ucompare modulus divisor) then or quotient mask else quotient

  abbrev modulus' : Int64
  modulus' = if nonneg (ucompare modulus divisor) then sub modulus divisor else modulus

  Remaining-round : Remaining m d k quotient' modulus'
  Remaining-round = elim (Bool-cases (nonneg (ucompare modulus divisor))) [
    | inl take ↦
        rw take (Remaining-take (leb→le _ _ (sym (fits_iff r.modulus_ok s.divisor_ok) ∙ take)))
    | inr skip ↦
        rw skip
          (Remaining-skip (leb-false→lt _ _ (sym (fits_iff r.modulus_ok s.divisor_ok) ∙ skip)))
  ]

Scaled-halve :
    {d k : ℕ} {divisor mask : Int64}
    → Scaled d (suc k) divisor mask
    → Scaled d k (shr1 divisor) (shr1 mask)
Scaled-halve {d} {k} s = record {
  divisor_ok = shr1-IsInt64 s.divisor_ok;
  mask_ok = shr1-IsInt64 s.mask_ok;
  divisor_value =
      omega (arith, to_ℕ-shr1 s.divisor_ok, s.divisor_value, ap (λ (t : ℕ). d * t) (pow-suc 2 k));
  mask_value = omega (arith, to_ℕ-shr1 s.mask_ok, s.mask_value, pow-suc 2 k);
}

-- Once the mask is used up the loop stops.
subtract_stops :
    (fuel : ℕ) (quotient modulus divisor mask : Int64)
    → 0 < fuel
    → mask.h ≡ 0
    → mask.l ≡ 0
    → subtract fuel quotient modulus divisor mask ≡ some (quotient, modulus)
unfolding subtract
subtract_stops zero q m d mask pos h l = absurd (omega arith)
subtract_stops (suc fuel) q m d mask pos h l = ground (arith, (bit_or-eq-zero_iff mask.l mask.h).1)

pub subtract_lem :
    (k fuel : ℕ) {m d : ℕ} {quotient modulus divisor mask : Int64}
    → Remaining m d (suc k) quotient modulus
    → Scaled d k divisor mask
    → suc k < fuel
    → IsDivided m d (subtract fuel quotient modulus divisor mask)
unfolding subtract
subtract_lem _ zero r s enough = absurd (omega arith)
subtract_lem zero (suc fuel) {mask} r s enough = rw (mask_test s) (record {
  quotient = quotient' r s;
  modulus = modulus' r s;
  returns =
      subtract_stops fuel _ _ _ _ (omega arith) (omega (arith, to_ℕ-shr1 s.mask_ok))
        (omega (arith, to_ℕ-shr1 s.mask_ok));
  divided = Remaining-round r s;
})
subtract_lem (suc k) (suc fuel) r s enough =
    rw (mask_test s) (subtract_lem k fuel (Remaining-round r s) (Scaled-halve s) (omega arith))
