-- ===== src/Bng/AddSub/Sub.antt =====
-- bng_sub subtracts, with the borrow worth one unit above the last digit.
use ocaml_pro_ocaml_branch.Base.{ℕ, ◌+◌, ◌*◌, ◌≤◌, ◌≡◌, List, [], ◌∷◌, arith, length}
use ocaml_pro_ocaml_branch.Bng.Digit.{sub2_carry}
use ocaml_pro_ocaml_branch.Bng.Digit.Exact.{sub2_carry_lem}
use ocaml_pro_ocaml_branch.Bng.Value.{value, weight, IsDigits}
use ocaml_pro_ocaml_branch.Bng.AddSub.{Outcome, decrement, sub_carry, sub}

-- `r` holds `value a - taken` in the digits of `a`, and the borrow.
pub record IsDifference (a : List ℕ) (taken : ℕ) (r : Outcome) : Type 0 where
  pub same_length : length r.digits ≡ length a
  pub digits_ok : IsDigits r.digits
  pub carry_bit : r.carry ≤ 1
  pub is_difference : value r.digits + taken ≡ value a + weight (length a) * r.carry

decrement-IsDifference : (a : List ℕ) → IsDigits a → IsDifference a 1 (decrement a)
unfolding decrement value weight
decrement-IsDifference [] d = omega arith
decrement-IsDifference (x ∷ xs) d = ground (arith, decrement-IsDifference xs d.1)

-- bng_sub_carry subtracts the borrow from `a`.
pub sub_carry-IsDifference :
    (a : List ℕ) (carry : ℕ) → IsDigits a → carry ≤ 1 → IsDifference a carry (sub_carry a carry)
unfolding sub_carry value weight
sub_carry-IsDifference [] c d h = ground arith
sub_carry-IsDifference (x ∷ xs) c d h = ground (arith, decrement-IsDifference (x ∷ xs) d)

-- For arrays of digits with `a` no shorter than `b` and a borrow of 0 or 1, bng_sub puts
-- `a - b - carry` into the digits of `a` and the borrow out.
pub sub-IsDifference :
    (a b : List ℕ) (carry : ℕ)
    → IsDigits a
    → IsDigits b
    → length b ≤ length a
    → carry ≤ 1
    → IsDifference a (value b + carry) (sub a b carry)
unfolding sub value weight
sub-IsDifference a [] c da db le hc = ground (arith, sub_carry-IsDifference a c da hc)
sub-IsDifference [] (y ∷ ys) c da db le hc = absurd (omega arith)
sub-IsDifference (x ∷ xs) (y ∷ ys) c da db le hc =
    let s = sub2_carry_lem x y c da.0 db.0 hc in
    let rest = sub-IsDifference xs ys (sub2_carry x y c).carry da.1 db.1 (omega arith) s.2 in
    record {
      same_length = omega arith;
      digits_ok = (s.1, rest.digits_ok);
      carry_bit = rest.carry_bit;
      is_difference = omega (arith, rest.is_difference, s.0);
    }
