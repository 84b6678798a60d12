-- ===== src/Bng/Mult/AddDigit.antt =====
-- bng_mult_add_digit adds `d * b` to `a`.
use native.Mathlib.Nat.{add-zero}
use ocaml_pro_ocaml_branch.Base.{
  ℕ, ◌+◌, ◌-◌, ◌*◌, ◌<◌, ◌≤◌, ◌≡◌, List, [], ◌∷◌, arith, length, subst,
}
use ocaml_pro_ocaml_branch.Bng.Digit.{base, mult, add2, add3}
use ocaml_pro_ocaml_branch.Bng.Digit.Exact.{add2_lem, add3_lem, mult_lem}
use ocaml_pro_ocaml_branch.Bng.Value.{value, weight, IsDigits}
use ocaml_pro_ocaml_branch.Bng.AddSub.{Outcome}
use ocaml_pro_ocaml_branch.Bng.AddSub.Add.{add_carry-IsSum}
use ocaml_pro_ocaml_branch.Bng.Mult.{finish_add, mult_add_loop, mult_add_digit}

-- `r` holds `total` in as many digits as `a` has, and a carry of one digit.
pub record IsTotal (a : List ℕ) (total : ℕ) (r : Outcome) : Type 0 where
  pub same_length : length r.digits ≡ length a
  pub digits_ok : IsDigits r.digits
  pub carry_digit : r.carry < base
  pub is_total : value r.digits + weight (length a) * r.carry ≡ total

finish_add-IsTotal :
    (a : List ℕ) (out : ℕ) → IsDigits a → out < base → IsTotal a (value a + out) (finish_add a out)
unfolding finish_add value weight
finish_add-IsTotal [] out da ho = omega arith
finish_add-IsTotal (x ∷ xs) out da ho =
    let s = add2_lem x out da.0 ho in
    let rest = add_carry-IsSum xs (add2 x out).carry da.1 s.2 in
    record {
      same_length = omega (arith, rest.same_length);
      digits_ok = (s.1, rest.digits_ok);
      carry_digit = omega (arith, rest.carry_bit);
      is_total = omega (arith, rest.is_total, s.0);
    }

-- One round is exact: a digit, a product of digits and a digit fit two digits.
round_total :
    (x y d out : ℕ)
    → x < base
    → y < base
    → d < base
    → out < base
    → let s = add3 (mult y d).carry x (mult y d).res out in
      (s.res + base * s.carry ≡ x + y * d + out) × (s.res < base) × (s.carry < base)
round_total x y d out hx hy hd ho =
    let p = mult_lem y d hy hd in
    let small : y * d ≤ (base - 1) * (base - 1) = grind arith in
    omega (
      arith,
      p,
      add3_lem (mult y d).carry x (mult y d).res out hx p.1 ho (omega arith) (omega arith),
    )

mult_add_loop-IsTotal :
    (a b : List ℕ) (d out : ℕ)
    → IsDigits a
    → IsDigits b
    → d < base
    → out < base
    → length b ≤ length a
    → IsTotal a (value a + value b * d + out) (mult_add_loop a b d out)
unfolding mult_add_loop value weight
mult_add_loop-IsTotal a [] d out da db hd ho le = ground (arith, finish_add-IsTotal a out da ho)
mult_add_loop-IsTotal [] (y ∷ ys) d out da db hd ho le = absurd (omega arith)
mult_add_loop-IsTotal (x ∷ xs) (y ∷ ys) d out da db hd ho le =
    let s = round_total x y d out da.0 db.0 hd ho in
    let rest =
      mult_add_loop-IsTotal xs ys d (add3 (mult y d).carry x (mult y d).res out).carry da.1 db.1 hd
        s.2 (omega arith) in
    record {
      same_length = omega (arith, rest.same_length);
      digits_ok = (s.1, rest.digits_ok);
      carry_digit = rest.carry_digit;
      is_total = omega (arith, rest.is_total, s.0);
    }

-- For arrays of digits with `a` no shorter than `b` and a digit `d`, bng_mult_add_digit puts
-- `a + b * d` into the digits of `a` and the digit that is returned.
pub mult_add_digit-IsTotal :
    (a b : List ℕ) (d : ℕ)
    → IsDigits a
    → IsDigits b
    → d < base
    → length b ≤ length a
    → IsTotal a (value a + value b * d) (mult_add_digit a b d)
unfolding mult_add_digit
mult_add_digit-IsTotal a b d da db hd le =
    subst (λ (t : ℕ). IsTotal a t (mult_add_loop a b d 0)) (add-zero (value a + value b * d))
      (mult_add_loop-IsTotal a b d 0 da db hd (omega arith) le)
