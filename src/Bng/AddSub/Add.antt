-- ===== src/Bng/AddSub/Add.antt =====
-- bng_add adds, with the carry out worth one unit above the last digit.
use ocaml_pro_ocaml_branch.Base.{ℕ, ◌+◌, ◌*◌, ◌≤◌, ◌≡◌, List, [], ◌∷◌, arith, length}
use ocaml_pro_ocaml_branch.Bng.Digit.{add2_carry}
use ocaml_pro_ocaml_branch.Bng.Digit.Exact.{add2_carry_lem}
use ocaml_pro_ocaml_branch.Bng.Value.{value, weight, IsDigits}
use ocaml_pro_ocaml_branch.Bng.AddSub.{Outcome, increment, add_carry, add}

-- `r` holds `total` in the digits of `a` and the carry.
pub record IsSum (a : List ℕ) (total : ℕ) (r : Outcome) : Type 0 where
  pub same_length : length r.digits ≡ length a
  pub digits_ok : IsDigits r.digits
  pub carry_bit : r.carry ≤ 1
  pub is_total : value r.digits + weight (length a) * r.carry ≡ total

increment-IsSum : (a : List ℕ) → IsDigits a → IsSum a (value a + 1) (increment a)
unfolding increment value weight
increment-IsSum [] d = omega arith
increment-IsSum (x ∷ xs) d = ground (arith, increment-IsSum xs d.1)

-- bng_add_carry adds the carry to `a`.
pub add_carry-IsSum :
    (a : List ℕ) (carry : ℕ)
    → IsDigits a
    → carry ≤ 1
    → IsSum a (value a + carry) (add_carry a carry)
unfolding add_carry value weight
add_carry-IsSum [] c d h = ground arith
add_carry-IsSum (x ∷ xs) c d h = ground (arith, increment-IsSum (x ∷ xs) d)

-- For arrays of digits with `a` no shorter than `b` and a carry of 0 or 1, bng_add puts
-- `a + b + carry` into the digits of `a` and the carry out.
pub add-IsSum :
    (a b : List ℕ) (carry : ℕ)
    → IsDigits a
    → IsDigits b
    → length b ≤ length a
    → carry ≤ 1
    → IsSum a (value a + value b + carry) (add a b carry)
unfolding add value weight
add-IsSum a [] c da db le hc = ground (arith, add_carry-IsSum a c da hc)
add-IsSum [] (y ∷ ys) c da db le hc = absurd (omega arith)
add-IsSum (x ∷ xs) (y ∷ ys) c da db le hc =
    let s = add2_carry_lem x y c da.0 db.0 hc in
    let rest = add-IsSum xs ys (add2_carry x y c).carry da.1 db.1 (omega arith) s.2 in
    record {
      same_length = omega arith;
      digits_ok = (s.1, rest.digits_ok);
      carry_bit = rest.carry_bit;
      is_total = omega (arith, rest.is_total, s.0);
    }
