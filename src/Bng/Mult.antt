-- ===== src/Bng/Mult.antt =====
-- Multiplication of bng.c: multiply-and-add and multiply-and-subtract by a digit, and the product of
-- two arrays.
pub mod AddDigit
pub mod SubDigit
pub mod Product
use ocaml_pro_ocaml_branch.Base.{ℕ, ◌+◌, ◌%◌, ◌^◌, List, [], ◌∷◌}
use ocaml_pro_ocaml_branch.Bng.Digit.{mult, add2, add3, sub2, sub3}
use ocaml_pro_ocaml_branch.Bng.AddSub.{Outcome, outcome, put, add_carry, sub_carry}

-- After the loop: add the last high digit `out`, and propagate the carry.
unfoldable pub finish_add : List ℕ → ℕ → Outcome
finish_add [] out = outcome out []
finish_add (x ∷ xs) out = let s = add2 x out in put s.res (add_carry xs s.carry)

unfoldable pub finish_sub : List ℕ → ℕ → Outcome
finish_sub [] out = outcome out []
finish_sub (x ∷ xs) out = let s = sub2 x out in put s.res (sub_carry xs s.carry)

-- `out` is the high digit that the next round adds. The clause for an `a` shorter than `b` is
-- outside the contract.
unfoldable pub mult_add_loop : List ℕ → List ℕ → ℕ → ℕ → Outcome
mult_add_loop a [] d out = finish_add a out
mult_add_loop [] (y ∷ ys) d out = outcome out []
mult_add_loop (x ∷ xs) (y ∷ ys) d out =
    let p = mult y d in
    let s = add3 p.carry x p.res out in put s.res (mult_add_loop xs ys d s.carry)

unfoldable pub mult_add_digit : List ℕ → List ℕ → ℕ → Outcome
mult_add_digit a b d = mult_add_loop a b d 0

unfoldable pub mult_sub_loop : List ℕ → List ℕ → ℕ → ℕ → Outcome
mult_sub_loop a [] d out = finish_sub a out
mult_sub_loop [] (y ∷ ys) d out = outcome out []
mult_sub_loop (x ∷ xs) (y ∷ ys) d out =
    let p = mult y d in
    let s = sub3 p.carry x p.res out in put s.res (mult_sub_loop xs ys d s.carry)

unfoldable pub mult_sub_digit : List ℕ → List ℕ → ℕ → Outcome
mult_sub_digit a b d = mult_sub_loop a b d 0

-- The accumulated carry is an `unsigned int`.
abbrev pub add_carries : ℕ → ℕ → ℕ
add_carries carry out = (carry + out) % 2 ^ 32

-- `a++`: the first digit of `a` is final.
abbrev pub advance : List ℕ → ℕ → (List ℕ → Outcome) → Outcome
advance [] carry rest = outcome carry []
advance (x ∷ xs) carry rest = put x (rest xs)

-- One digit of `c` in a round.
unfoldable pub mult_add_rounds : List ℕ → List ℕ → List ℕ → ℕ → Outcome
mult_add_rounds [] a b carry = outcome carry a
mult_add_rounds (c ∷ cs) a b carry =
    let r = mult_add_digit a b c in
    let carry' = add_carries carry r.carry in
    advance r.digits carry' (λ xs. mult_add_rounds cs xs b carry')

unfoldable pub mult_add : List ℕ → List ℕ → List ℕ → Outcome
mult_add a b c = mult_add_rounds c a b 0
