-- ===== src/Bng/AddSub.antt =====
-- Addition and subtraction of bng.c, in place: the result is the carry out and the new digits of `a`.
pub mod Add
pub mod Sub
use ocaml_pro_ocaml_branch.Base.{
  ℕ, ◌+◌, ◌-◌, ◌%◌, Bool, true, false, ◌||◌, List, [], ◌∷◌, ◌==◌, if◌then◌else◌,
}
use ocaml_pro_ocaml_branch.Bng.Digit.{base, add2_carry, sub2_carry}

pub record Outcome : Type 0 where
  pub carry : ℕ
  pub digits : List ℕ

abbrev pub outcome : ℕ → List ℕ → Outcome
outcome c xs = record { carry = c; digits = xs }

abbrev pub put : ℕ → Outcome → Outcome
put x r = outcome r.carry (x ∷ r.digits)

abbrev pub is_empty : List ℕ → Bool
is_empty [] = true
is_empty (x ∷ xs) = false

-- `do { if (++( *a ) != 0) return 0; a++; } while (--alen); return 1;`
unfoldable pub increment : List ℕ → Outcome
increment [] = outcome 1 []
increment (x ∷ xs) =
    let x' = (x + 1) % base in if x' == 0 then put x' (increment xs) else outcome 0 (x' ∷ xs)

-- `do { if (( *a )-- != 0) return 0; a++; } while (--alen); return 1;`
unfoldable pub decrement : List ℕ → Outcome
decrement [] = outcome 1 []
decrement (x ∷ xs) =
    let x' = (x + base - 1) % base in if x == 0 then put x' (decrement xs) else outcome 0 (x' ∷ xs)

unfoldable pub add_carry : List ℕ → ℕ → Outcome
add_carry a carry = if carry == 0 || is_empty a then outcome carry a else increment a

unfoldable pub sub_carry : List ℕ → ℕ → Outcome
sub_carry a carry = if carry == 0 || is_empty a then outcome carry a else decrement a

-- `a` must have at least as many digits as `b`; the clause for a shorter one is outside the contract.
unfoldable pub add : List ℕ → List ℕ → ℕ → Outcome
add a [] carry = add_carry a carry
add [] (y ∷ ys) carry = outcome carry []
add (x ∷ xs) (y ∷ ys) carry = let s = add2_carry x y carry in put s.res (add xs ys s.carry)

unfoldable pub sub : List ℕ → List ℕ → ℕ → Outcome
sub a [] carry = sub_carry a carry
sub [] (y ∷ ys) carry = outcome carry []
sub (x ∷ xs) (y ∷ ys) carry = let s = sub2_carry x y carry in put s.res (sub xs ys s.carry)
