-- ===== src/Bng/Mult/Product.antt =====
-- bng_mult_add adds the product of two arrays to a third.
use native.Mathlib.Nat.{mod-eq_of_lt}
use ocaml_pro_ocaml_branch.Base.{
  ℕ, suc, ◌+◌, ◌*◌, ◌^◌, ◌<◌, ◌≤◌, ◌≡◌, List, [], ◌∷◌, arith, length, ap, sym, refl, subst,
}
use ocaml_pro_ocaml_branch.Bng.Digit.{base}
use ocaml_pro_ocaml_branch.Bng.Value.{
  value, weight, weight_pos, weight-add, weight_mono, value-lt, IsDigits,
}
use ocaml_pro_ocaml_branch.Bng.Mult.{
  add_carries, advance, mult_add_digit, mult_add_rounds, mult_add,
}
use ocaml_pro_ocaml_branch.Bng.Mult.AddDigit.{IsTotal, mult_add_digit-IsTotal}

-- What is left to do at an array of `n` digits fits them and an `unsigned int`.
abbrev Fits : ℕ → ℕ → Type 0
Fits n total = total < 2 ^ 32 * weight n

abbrev rounds_total : List ℕ → List ℕ → List ℕ → ℕ → ℕ
rounds_total c a b carry = value a + value b * value c + weight (length a) * carry

cancel_weight : (w k bound : ℕ) → 0 < w → w * k < bound * w → k < bound
cancel_weight w k bound pos h = grind arith

-- A round leaves `ds` and the carry `k`; the next rounds work on its tail.
advance-IsTotal :
    (a b : List ℕ) (c : ℕ) (cs ds : List ℕ) (carry k : ℕ)
    → length ds ≡ length a
    → 0 < length a
    → IsDigits ds
    → value ds + weight (length a) * k ≡ value a + value b * c
    → Fits (length a) (rounds_total (c ∷ cs) a b carry)
    → ((xs : List ℕ)
        → suc (length xs) ≡ length a
        → IsDigits xs
        → Fits (length xs) (rounds_total cs xs b (add_carries carry k))
        → IsTotal xs
            (rounds_total cs xs b (add_carries carry k))
            (mult_add_rounds cs xs b (add_carries carry k)))
    → IsTotal a
        (rounds_total (c ∷ cs) a b carry)
        (advance ds (add_carries carry k) (λ xs. mult_add_rounds cs xs b (add_carries carry k)))
unfolding value weight
advance-IsTotal a b c cs [] carry k same pos ok e fits next = absurd (omega arith)
advance-IsTotal a b c cs (x ∷ xs) carry k same pos ok e fits next =
    let w : weight (length a) ≡ base * weight (length xs) = ap weight (sym same) in
    let both : weight (length a) * (carry + k) < 2 ^ 32 * weight (length a) = omega arith in
    let sum : add_carries carry k ≡ carry + k =
      mod-eq_of_lt
        (cancel_weight (weight (length a)) (carry + k) (2 ^ 32) (weight_pos (length a)) both) in
    let unfolded : rounds_total (c ∷ cs) a b carry
        ≡ x + base * rounds_total cs xs b (add_carries carry k) =
      omega (
        arith,
        ap (λ (t : ℕ). t * k) w,
        ap (λ (t : ℕ). t * carry) w,
        ap (λ (t : ℕ). weight (length xs) * t) sum,
      ) in
    let rest = next xs same ok.1 (omega (arith, w)) in
    record {
      same_length = omega (arith, rest.same_length);
      digits_ok = (ok.0, rest.digits_ok);
      carry_digit = rest.carry_digit;
      is_total = omega (
        arith,
        rest.is_total,
        ap (λ (t : ℕ). t * (mult_add_rounds cs xs b (add_carries carry k)).carry) w,
      );
    }

mult_add_rounds-IsTotal :
    (c a b : List ℕ) (carry : ℕ)
    → IsDigits a
    → IsDigits b
    → IsDigits c
    → length b + length c ≤ length a
    → Fits (length a) (rounds_total c a b carry)
    → IsTotal a (rounds_total c a b carry) (mult_add_rounds c a b carry)
unfolding mult_add_rounds value
mult_add_rounds-IsTotal [] a b carry da db dc le fits = record {
  same_length = refl;
  digits_ok = da;
  carry_digit = omega (
    arith,
    cancel_weight (weight (length a)) carry (2 ^ 32) (weight_pos (length a)) (omega arith),
  );
  is_total = omega arith;
}
mult_add_rounds-IsTotal (c ∷ cs) a b carry da db dc le fits =
    let r = mult_add_digit-IsTotal a b c da db dc.0 (omega arith) in
    let k = (mult_add_digit a b c).carry in
    advance-IsTotal a b c cs (mult_add_digit a b c).digits carry k r.same_length (omega arith)
      r.digits_ok r.is_total fits
      λ xs same ok below.
        mult_add_rounds-IsTotal cs xs b (add_carries carry k) ok db dc.1 (omega arith) below

-- The product and `a` together are below twice the weight above the digits of `a`.
product_fits :
    (a b c : List ℕ)
    → IsDigits a
    → IsDigits b
    → IsDigits c
    → length b + length c ≤ length a
    → value a + value b * value c < 2 * weight (length a)
product_fits a b c da db dc le =
    let wbc : weight (length b) * weight (length c) ≤ weight (length a) =
      omega (
        arith,
        weight-add (length b) (length c),
        weight_mono (length b + length c) (length a) le,
      ) in
    let product : value b * value c ≤ weight (length b) * weight (length c) =
      grind (arith, value-lt b db, value-lt c dc) in
    omega (arith, value-lt a da)

-- For arrays of digits with `a` as long as `b` and `c` together or longer, bng_mult_add puts
-- `a + b * c` into the digits of `a` and the carry that it returns, which is 0 or 1.
pub mult_add-IsTotal :
    (a b c : List ℕ)
    → IsDigits a
    → IsDigits b
    → IsDigits c
    → length b + length c ≤ length a
    → IsTotal a (value a + value b * value c) (mult_add a b c) × ((mult_add a b c).carry ≤ 1)
unfolding mult_add
mult_add-IsTotal a b c da db dc le =
    let small = product_fits a b c da db dc le in
    let r = mult_add_rounds-IsTotal c a b 0 da db dc le (omega arith) in
    let zero_carry : rounds_total c a b 0 ≡ value a + value b * value c = omega arith in
    (
      subst (λ (t : ℕ). IsTotal a t (mult_add_rounds c a b 0)) zero_carry r,
      omega (
        arith,
        cancel_weight (weight (length a)) (mult_add_rounds c a b 0).carry 2 (weight_pos (length a))
            (omega (arith, r.is_total)),
      ),
    )
