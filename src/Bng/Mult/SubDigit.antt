-- ===== src/Bng/Mult/SubDigit.antt =====
-- bng_mult_sub_digit subtracts `d * b` from `a`.
use native.Mathlib.Nat.{add-zero}
use ocaml_pro_ocaml_branch.Base.{
  ℕ, ◌+◌, ◌-◌, ◌*◌, ◌<◌, ◌≤◌, ◌≡◌, List, [], ◌∷◌, arith, length, subst,
}
use ocaml_pro_ocaml_branch.Bng.Digit.{base, mult, sub2, sub3}
use ocaml_pro_ocaml_branch.Bng.Digit.Exact.{sub2_lem, sub3_lem, mult_lem}
use ocaml_pro_ocaml_branch.Bng.Value.{value, weight, IsDigits}
use ocaml_pro_ocaml_branch.Bng.AddSub.{Outcome}
use ocaml_pro_ocaml_branch.Bng.AddSub.Sub.{sub_carry-IsDifference}
use ocaml_pro_ocaml_branch.Bng.Mult.{finish_sub, mult_sub_loop, mult_sub_digit}

-- `r` holds `value a - taken` in as many digits as `a` has, and a borrow of one digit.
pub record IsTaken (a : List ℕ) (taken : ℕ) (r : Outcome) : Type 0 where
  pub same_length : length r.digits ≡ length a
  pub digits_ok : IsDigits r.digits
  pub carry_digit : r.carry < base
  pub is_taken : value r.digits + taken ≡ value a + weight (length a) * r.carry

finish_sub-IsTaken :
    (a : List ℕ) (out : ℕ) → IsDigits a → out < base → IsTaken a out (finish_sub a out)
unfolding finish_sub value weight
finish_sub-IsTaken [] out da ho = omega arith
finish_sub-IsTaken (x ∷ xs) out da ho =
    let s = sub2_lem x out da.0 ho in
    let rest = sub_carry-IsDifference xs (sub2 x out).carry da.1 s.2 in
    record {
      same_length = omega (arith, rest.same_length);
      digits_ok = (s.1, rest.digits_ok);
      carry_digit = omega (arith, rest.carry_bit);
      is_taken = omega (arith, rest.is_difference, s.0);
    }

-- One round is exact: a digit, a product of digits and a digit fit two digits.
round_total :
    (x y d out : ℕ)
    → x < base
    → y < base
    → d < base
    → out < base
    → let s = sub3 (mult y d).carry x (mult y d).res out in
      (s.res + y * d + out ≡ x + base * s.carry) × (s.res < base) × (s.carry < base)
round_total x y d out hx hy hd ho =
    let p = mult_lem y d hy hd in
    let small : y * d ≤ (base - 1) * (base - 1) = grind arith in
    omega (
      arith,
      p,
      sub3_lem (mult y d).carry x (mult y d).res out hx p.1 ho (omega arith) (omega arith),
    )

mult_sub_loop-IsTaken :
    (a b : List ℕ) (d out : ℕ)
    → IsDigits a
    → IsDigits b
    → d < base
    → out < base
    → length b ≤ length a
    → IsTaken a (value b * d + out) (mult_sub_loop a b d out)
unfolding mult_sub_loop value weight
mult_sub_loop-IsTaken a [] d out da db hd ho le = ground (arith, finish_sub-IsTaken a out da ho)
mult_sub_loop-IsTaken [] (y ∷ ys) d out da db hd ho le = absurd (omega arith)
mult_sub_loop-IsTaken (x ∷ xs) (y ∷ ys) d out da db hd ho le =
    let s = round_total x y d out da.0 db.0 hd ho in
    let rest =
      mult_sub_loop-IsTaken xs ys d (sub3 (mult y d).carry x (mult y d).res out).carry da.1 db.1 hd
        s.2 (omega arith) in
    record {
      same_length = omega (arith, rest.same_length);
      digits_ok = (s.1, rest.digits_ok);
      carry_digit = rest.carry_digit;
      is_taken = omega (arith, rest.is_taken, s.0);
    }

-- For arrays of digits with `a` no shorter than `b` and a digit `d`, bng_mult_sub_digit puts
-- `a - b * d` into the digits of `a` and the digit borrowed that is returned.
pub mult_sub_digit-IsTaken :
    (a b : List ℕ) (d : ℕ)
    → IsDigits a
    → IsDigits b
    → d < base
    → length b ≤ length a
    → IsTaken a (value b * d) (mult_sub_digit a b d)
unfolding mult_sub_digit
mult_sub_digit-IsTaken a b d da db hd le =
    subst (λ (t : ℕ). IsTaken a t (mult_sub_loop a b d 0)) (add-zero (value b * d))
      (mult_sub_loop-IsTaken a b d 0 da db hd (omega arith) le)
