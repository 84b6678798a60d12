-- ===== src/Int64/SignedDivision.antt =====
-- I64_div and I64_mod divide signed numbers, rounding towards zero.
use native.Mathlib.Nat.{div-add-mod'}
use mathlib.Core.Path.{subst₂}
use ocaml_pro_ocaml_branch.Base.{
  ℕ, zero, suc, ◌-◌, ◌/◌, ◌%◌, ◌^◌, ◌<◌, ◌≡◌, Bool, true, false, Option, some, arith, ap₂, ◌∙◌,
  refl, bit_xor, xor_bool, if◌then◌else◌, ◌==◌,
}
use ocaml_pro_ocaml_branch.Base.Bits.{bit_xor-cut, bit_xor-lt}
use ocaml_pro_ocaml_branch.Base.Int.{ℤ, pos, negsuc, sub_ℕ}
use ocaml_pro_ocaml_branch.Int64.{Int64, negative32, neg, absolute, udivmod, quotient, remainder}
use ocaml_pro_ocaml_branch.Int64.Value.{IsInt64, to_ℕ, to_ℕ-lt, to_ℤ}
use ocaml_pro_ocaml_branch.Int64.Ring.{to_ℕ-neg, neg-IsInt64}
use ocaml_pro_ocaml_branch.Int64.Division.{IsQuotient, udivmod_lem}

abbrev pub is_neg : ℤ → Bool
is_neg (pos n) = false
is_neg (negsuc n) = true

abbrev pub magnitude : ℤ → ℕ
magnitude (pos n) = n
magnitude (negsuc n) = suc n

abbrev pub with_sign : Bool → ℕ → ℤ
with_sign true n = sub_ℕ 0 n
with_sign false n = pos n

-- The division and the remainder of C, rounded towards zero.
abbrev pub trunc_div : ℤ → ℤ → ℤ
trunc_div a b = with_sign (xor_bool (is_neg a) (is_neg b)) (magnitude a / magnitude b)

abbrev pub trunc_rem : ℤ → ℤ → ℤ
trunc_rem a b = with_sign (is_neg a) (magnitude a % magnitude b)

-- The 64-bit pattern of an integer.
abbrev pub wrap64 : ℤ → ℕ
wrap64 (pos n) = n % 2 ^ 64
wrap64 (negsuc n) = 2 ^ 64 - 1 - n % 2 ^ 64

-- `result` is the 64-bit pattern of `n`.
pub record Yields (n : ℤ) (result : Option Int64) : Type 0 where
  pub value : Int64
  pub returns : result ≡ some value
  pub value_ok : IsInt64 value
  pub is_value : to_ℕ value ≡ wrap64 n

absolute-IsInt64 : {x : Int64} → IsInt64 x → IsInt64 (absolute x)
absolute-IsInt64 {x} v = ground (arith, neg-IsInt64 v)

to_ℕ-absolute : {x : Int64} → IsInt64 x → to_ℕ (absolute x) ≡ magnitude (to_ℤ x)
to_ℕ-absolute {x} v = ground (arith, to_ℕ-neg v)

negative-is_neg : {x : Int64} → IsInt64 x → negative32 x.h ≡ is_neg (to_ℤ x)
negative-is_neg v = ground arith

bit_xor-bits : (a b : ℕ) → a < 2 → b < 2 → bit_xor a b ≡ (if a == b then 0 else 1)
bit_xor-bits zero zero ha hb = refl
bit_xor-bits zero (suc zero) ha hb = refl
bit_xor-bits (suc zero) zero ha hb = refl
bit_xor-bits (suc zero) (suc zero) ha hb = refl
bit_xor-bits (suc (suc a)) b ha hb = absurd (omega arith)
bit_xor-bits a (suc (suc b)) ha hb = absurd (omega arith)

-- The sign bit of `x ^ y`.
negative-bit_xor :
    (a b : ℕ)
    → a < 2 ^ 32
    → b < 2 ^ 32
    → negative32 (bit_xor a b) ≡ xor_bool (negative32 a) (negative32 b)
negative-bit_xor a b ha hb = ground (
  arith,
  ap₂ bit_xor (div-add-mod' a (2 ^ 31)) (div-add-mod' b (2 ^ 31)),
  bit_xor-cut 31 (a / 2 ^ 31) (b / 2 ^ 31) (a % 2 ^ 31) (b % 2 ^ 31),
  bit_xor-lt 31 (a % 2 ^ 31) (b % 2 ^ 31),
  bit_xor-bits (a / 2 ^ 31) (b / 2 ^ 31),
)

neg_if :
    (s : Bool) {q : Int64} (n : ℕ)
    → IsInt64 q
    → to_ℕ q ≡ n
    → to_ℕ (if s then neg q else q) ≡ wrap64 (with_sign s n)
neg_if s n v e = ground (arith, to_ℕ-neg v, to_ℕ-lt v)

neg_if-IsInt64 : (s : Bool) {q : Int64} → IsInt64 q → IsInt64 (if s then neg q else q)
neg_if-IsInt64 s v = ground (arith, neg-IsInt64 v)

module _ {x y : Int64} (v : IsInt64 x) (w : IsInt64 y) (nonzero : 0 < to_ℕ y) where
  udivmod-absolute-IsQuotient :
      IsQuotient (magnitude (to_ℤ x)) (magnitude (to_ℤ y)) (udivmod (absolute x) (absolute y))
  udivmod-absolute-IsQuotient =
      subst₂ (λ (m d : ℕ). IsQuotient m d (udivmod (absolute x) (absolute y))) (to_ℕ-absolute v)
        (to_ℕ-absolute w)
        (udivmod_lem (absolute-IsInt64 v) (absolute-IsInt64 w) (ground (arith, to_ℕ-absolute w)))

  -- For a divisor that is not zero, I64_div ends and gives the signed quotient rounded towards zero,
  -- modulo 2 ^ 64.
  pub quotient_lem : Yields (trunc_div (to_ℤ x) (to_ℤ y)) (quotient x y)
  unfolding quotient
  quotient_lem =
      let p = udivmod-absolute-IsQuotient in
      let sign = negative32 (bit_xor x.h y.h) in
      let agree : sign ≡ xor_bool (is_neg (to_ℤ x)) (is_neg (to_ℤ y)) =
        negative-bit_xor x.h y.h v.high w.high
        ∙ ap₂ xor_bool (negative-is_neg v) (negative-is_neg w) in
      record {
        value = if sign then neg p.quot else p.quot;
        returns = rw p.returns;
        value_ok = neg_if-IsInt64 sign p.quot_ok;
        is_value =
            neg_if sign (magnitude (to_ℤ x) / magnitude (to_ℤ y)) p.quot_ok p.quot_value ∙ rw agree;
      }

  -- For a divisor that is not zero, I64_mod ends and gives the remainder with the sign of the dividend,
  -- modulo 2 ^ 64.
  pub remainder_lem : Yields (trunc_rem (to_ℤ x) (to_ℤ y)) (remainder x y)
  unfolding remainder
  remainder_lem =
      let p = udivmod-absolute-IsQuotient in
      record {
        value = if negative32 x.h then neg p.rem else p.rem;
        returns = rw p.returns;
        value_ok = neg_if-IsInt64 (negative32 x.h) p.rem_ok;
        is_value =
            neg_if (negative32 x.h) (magnitude (to_ℤ x) % magnitude (to_ℤ y)) p.rem_ok p.rem_value
            ∙ rw (negative-is_neg v);
      }
