-- ===== src/Ints/Boxed64.antt =====
-- The int64 primitives of ints.c over the emulated integers of int64_emul.h. A boxed integer is the
-- integer in the box.
pub mod Division
pub mod OfString
use ocaml_pro_ocaml_branch.Base.{
  ℕ, ◌-◌, Bool, true, false, not, ◌&&◌, Option, none, some, List, [], ◌∷◌, ◌==◌, if◌then◌else◌,
}
use ocaml_pro_ocaml_branch.Int64.{
  Int64, ucompare, nonneg, neg, add, mul, is_zero, is_min_int, is_minus_one, udivmod, quotient,
  remainder, of_int32,
}
use ocaml_pro_ocaml_branch.Int64.Value.{to_ℕ}
use ocaml_pro_ocaml_branch.Ints.Exception.{Result, ok, raise, int_of_string, zero_divide, diverges}
use ocaml_pro_ocaml_branch.Ints.Parse.{Prefix, peek, next, parse_sign_and_base, digit_in}

abbrev pub zero64 : Int64
zero64 = record { h = 0; l = 0 }

-- The number where the code has a pair of words.
abbrev pub unboxed : Result Int64 → Result ℕ
unboxed (raise e) = raise e
unboxed (ok x) = ok (to_ℕ x)

-- `none` is a loop of I64_udivmod that does not end.
abbrev pub returned : Option Int64 → Result Int64
returned none = raise diverges
returned (some x) = ok x

unfoldable pub int64_div : Int64 → Int64 → Result Int64
int64_div dividend divisor =
    if is_zero divisor
    then raise zero_divide
    else if is_min_int dividend && is_minus_one divisor
    then ok dividend
    else returned (quotient dividend divisor)

unfoldable pub int64_mod : Int64 → Int64 → Result Int64
int64_mod dividend divisor =
    if is_zero divisor
    then raise zero_divide
    else if is_min_int dividend && is_minus_one divisor
    then ok zero64
    else returned (remainder dividend divisor)

-- The macro I64_ult.
unfoldable pub ult : Int64 → Int64 → Bool
ult x y = not (nonneg (ucompare x y))

-- The loop of caml_int64_of_string: the value and what follows it.
unfoldable pub loop64 : ℕ → Int64 → Int64 → List ℕ → Result (Int64 × List ℕ)
loop64 base threshold res [] = ok (res, [])
loop64 base threshold res (c ∷ cs) =
    let skip = loop64 base threshold res cs in
    elim (c == b'_') [
      | true ↦ skip
      | false ↦ elim (digit_in base c) [
        | none ↦ ok (res, c ∷ cs)
        | some d ↦
            let res' = add (mul (of_int32 base) res) (of_int32 d) in
            let go = loop64 base threshold res' cs in
            if ult threshold res
            then raise int_of_string
            else if ult res' (of_int32 d)
            then raise int_of_string
            else go
      ]
    ]

-- The tests after the loop, and the sign.
unfoldable pub finish64 : Bool → ℕ → Result (Int64 × List ℕ) → Result Int64
finish64 negative base (raise e) = raise e
finish64 negative base (ok (res, c ∷ cs)) = raise int_of_string
finish64 negative base (ok (res, [])) =
    let max_int64_pos : Int64 = record { h = 0x7FFFFFFF; l = 0xFFFFFFFF } in
    let max_int64_neg : Int64 = record { h = 0x80000000; l = 0 } in
    if base == 10 && ult (if negative then max_int64_neg else max_int64_pos) res
    then raise int_of_string
    else ok (if negative then neg res else res)

unfoldable pub parse_first64 : Prefix → Int64 → Result Int64
parse_first64 p threshold = elim (digit_in p.base (peek p.rest)) [
  | none ↦ raise int_of_string
  | some d ↦ finish64 p.negative p.base (loop64 p.base threshold (of_int32 d) (next p.rest))
]

unfoldable pub with_threshold : Prefix → Option (Int64 × Int64) → Result Int64
with_threshold p none = raise diverges
with_threshold p (some (threshold, res)) = parse_first64 p threshold

unfoldable pub int64_of_string : List ℕ → Result Int64
unfolding parse_first64 with_threshold
int64_of_string s =
    let p = parse_sign_and_base s in
    let max_uint64 : Int64 = record { h = 0xFFFFFFFF; l = 0xFFFFFFFF } in
    with_threshold p (udivmod max_uint64 (of_int32 p.base))
