-- ===== src/Tests/Int64.antt =====
-- byterun/int64_emul.h at fixed inputs.
use ocaml_pro_ocaml_branch.Base.{◌+◌, ◌-◌, ◌*◌, ◌%◌, ◌^◌, ◌≡◌, refl, arith, some}
use ocaml_pro_ocaml_branch.Int64.{
  Int64, neg, add, sub, mul, or, lsl, asr, ucompare, scale, subtract, shl1, shr1, udivmod, quotient,
  remainder,
}
use ocaml_pro_ocaml_branch.Int64.Value.{IsInt64, to_ℕ, to_ℤ, of_parts}
use ocaml_pro_ocaml_branch.Int64.Ring.{ring_lem}
use ocaml_pro_ocaml_branch.Int64.Product.{to_ℕ-mul}
use ocaml_pro_ocaml_branch.Int64.Shift.{to_ℕ-lsl}
use ocaml_pro_ocaml_branch.Int64.SignedShift.{floor_div, to_ℤ-asr}
use ocaml_pro_ocaml_branch.Int64.Division.{IsQuotient, udivmod_lem}
use ocaml_pro_ocaml_branch.Int64.SignedDivision.{
  Yields, trunc_div, trunc_rem, quotient_lem, remainder_lem,
}

-- -7 and 2 ^ 32 + 3.
abbrev minus_seven : Int64
minus_seven = of_parts 0xFFFFFFFF 0xFFFFFFF9

abbrev wide : Int64
wide = of_parts 1 3

abbrev min_int : Int64
min_int = of_parts 0x80000000 0

abbrev minus_one : Int64
minus_one = of_parts 0xFFFFFFFF 0xFFFFFFFF

minus_seven-IsInt64 : IsInt64 minus_seven
minus_seven-IsInt64 = omega arith

wide-IsInt64 : IsInt64 wide
wide-IsInt64 = omega arith

-- The overflowing division gives back the dividend.
min_int_div : quotient min_int minus_one ≡ some min_int
unfolding quotient udivmod scale subtract shl1 shr1 ucompare sub or neg
min_int_div = refl

seven_div : quotient minus_seven (of_parts 0 2) ≡ some (of_parts 0xFFFFFFFF 0xFFFFFFFD)
unfolding quotient udivmod scale subtract shl1 shr1 ucompare sub or neg
seven_div = refl

ring_lem_example :
    (to_ℕ (add wide minus_seven) ≡ (to_ℕ wide + to_ℕ minus_seven) % 2 ^ 64)
    × (to_ℕ (sub wide minus_seven) ≡ (to_ℕ wide + 2 ^ 64 - to_ℕ minus_seven) % 2 ^ 64)
    × (to_ℕ (neg wide) ≡ (2 ^ 64 - to_ℕ wide) % 2 ^ 64)
ring_lem_example = ring_lem wide-IsInt64 minus_seven-IsInt64

to_ℕ-mul_example : to_ℕ (mul wide minus_seven) ≡ (to_ℕ wide * to_ℕ minus_seven) % 2 ^ 64
to_ℕ-mul_example = to_ℕ-mul wide-IsInt64 minus_seven-IsInt64

to_ℕ-lsl_example : to_ℕ (lsl wide 70) ≡ to_ℕ wide * 2 ^ (70 % 64) % 2 ^ 64
to_ℕ-lsl_example = to_ℕ-lsl 70 wide-IsInt64

to_ℤ-asr_example : to_ℤ (asr minus_seven 1) ≡ floor_div (to_ℤ minus_seven) (2 ^ (1 % 64))
to_ℤ-asr_example = to_ℤ-asr 1 minus_seven-IsInt64

udivmod_lem_example : IsQuotient (to_ℕ minus_seven) (to_ℕ wide) (udivmod minus_seven wide)
udivmod_lem_example = udivmod_lem minus_seven-IsInt64 wide-IsInt64 (omega arith)

quotient_lem_example : Yields (trunc_div (to_ℤ minus_seven) (to_ℤ wide)) (quotient minus_seven wide)
quotient_lem_example = quotient_lem minus_seven-IsInt64 wide-IsInt64 (omega arith)

remainder_lem_example :
    Yields (trunc_rem (to_ℤ minus_seven) (to_ℤ wide)) (remainder minus_seven wide)
remainder_lem_example = remainder_lem minus_seven-IsInt64 wide-IsInt64 (omega arith)
