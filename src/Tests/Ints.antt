-- ===== src/Tests/Ints.antt =====
-- byterun/ints.c at fixed inputs.
use ocaml_pro_ocaml_branch.Base.{ℕ, ◌-◌, ◌^◌, ◌≡◌, ◌==◌, if◌then◌else◌, List, [], ◌∷◌, refl, arith}
use ocaml_pro_ocaml_branch.Int64.{
  Int64, udivmod, scale, subtract, shl1, shr1, ucompare, sub, or, neg, add, mul, sum_products,
  of_int32,
}
use ocaml_pro_ocaml_branch.Int64.Value.{IsInt64, to_ℕ, to_ℤ, of_parts}
use ocaml_pro_ocaml_branch.Int64.SignedDivision.{trunc_div, trunc_rem, wrap64}
use ocaml_pro_ocaml_branch.Ints.Exception.{ok, raise, int_of_string, zero_divide}
use ocaml_pro_ocaml_branch.Ints.Parse.{
  base_prefix, parse_sign_and_base, parse_digit, digit_in, digits_loop, out_of_range, finish,
  parse_first, parse_intnat,
}
use ocaml_pro_ocaml_branch.Ints.Parse.Numeral.{written, magnitude, denotes}
use ocaml_pro_ocaml_branch.Ints.Parse.Correct.{parse_intnat_lem}
use ocaml_pro_ocaml_branch.Ints.Boxed64.{
  unboxed, int64_div, int64_mod, int64_of_string, ult, loop64, finish64, parse_first64,
  with_threshold,
}
use ocaml_pro_ocaml_branch.Ints.Boxed64.OfString.{int64_of_string_lem}
use ocaml_pro_ocaml_branch.Ints.Boxed64.Division.{int64_div_lem, int64_mod_lem}

-- "-0x1_F".
abbrev minus_31 : List ℕ
minus_31 = b'-' ∷ b'0' ∷ b'x' ∷ b'1' ∷ b'_' ∷ b'F' ∷ []

-- "128", which is out of range in 8 bits, and "-128", which is not.
abbrev byte_128 : List ℕ
byte_128 = b'1' ∷ b'2' ∷ b'8' ∷ []

read_hex : parse_intnat minus_31 63 ≡ ok (2 ^ 64 - 31)
unfolding parse_intnat parse_sign_and_base base_prefix parse_first digits_loop digit_in parse_digit
    finish out_of_range
read_hex = refl

read_128 : parse_intnat byte_128 8 ≡ raise int_of_string
unfolding parse_intnat parse_sign_and_base base_prefix parse_first digits_loop digit_in parse_digit
    finish out_of_range
read_128 = refl

read_minus_128 : parse_intnat (b'-' ∷ byte_128) 8 ≡ ok (2 ^ 64 - 128)
unfolding parse_intnat parse_sign_and_base base_prefix parse_first digits_loop digit_in parse_digit
    finish out_of_range
read_minus_128 = refl

read_empty : parse_intnat [] 63 ≡ raise int_of_string
unfolding parse_intnat parse_sign_and_base base_prefix parse_first digits_loop digit_in parse_digit
    finish out_of_range
read_empty = refl

parse_intnat_lem_example :
    parse_intnat minus_31 63 ≡ denotes 63 (written minus_31) (magnitude (written minus_31))
parse_intnat_lem_example = parse_intnat_lem minus_31 63 (omega arith) (omega arith)

read_hex_64 : int64_of_string minus_31 ≡ ok (of_parts 0xFFFFFFFF 0xFFFFFFE1)
unfolding int64_of_string parse_sign_and_base base_prefix parse_first64 with_threshold loop64
    digit_in parse_digit finish64 ult udivmod scale subtract shl1 shr1 ucompare sub or neg add mul
    sum_products of_int32
read_hex_64 = refl

int64_of_string_lem_example :
    (unboxed (int64_of_string minus_31)
      ≡ denotes 64 (written minus_31) (magnitude (written minus_31)))
    × (unboxed (int64_of_string minus_31) ≡ parse_intnat minus_31 64)
int64_of_string_lem_example = int64_of_string_lem minus_31

-- -7 and 2.
abbrev minus_seven : Int64
minus_seven = of_parts 0xFFFFFFFF 0xFFFFFFF9

abbrev two : Int64
two = of_parts 0 2

minus_seven-IsInt64 : IsInt64 minus_seven
minus_seven-IsInt64 = omega arith

two-IsInt64 : IsInt64 two
two-IsInt64 = omega arith

int64_div_lem_example : unboxed (int64_div minus_seven two) ≡ (
    if to_ℕ two == 0
    then raise zero_divide
    else ok (wrap64 (trunc_div (to_ℤ minus_seven) (to_ℤ two))))
int64_div_lem_example = int64_div_lem minus_seven-IsInt64 two-IsInt64

int64_mod_lem_example : unboxed (int64_mod minus_seven two) ≡ (
    if to_ℕ two == 0
    then raise zero_divide
    else ok (wrap64 (trunc_rem (to_ℤ minus_seven) (to_ℤ two))))
int64_mod_lem_example = int64_mod_lem minus_seven-IsInt64 two-IsInt64
