-- ===== src/Bng/Digit/Exact.antt =====
-- Each macro computes exactly: the digit and the carry together are the sum, difference or product.
use native.Mathlib.Nat.{div-add-mod'}
use ocaml_pro_ocaml_branch.Base.{ℕ, ◌+◌, ◌-◌, ◌*◌, ◌/◌, ◌%◌, ◌^◌, ◌<◌, ◌≤◌, ◌≡◌, arith, ap₂}
use ocaml_pro_ocaml_branch.Base.Bits.{bit_and-mask}
use ocaml_pro_ocaml_branch.Bng.Digit.{
  base, add2, add2_carry, add3, sub2, sub2_carry, sub3, join_products, mult,
}

pub add2_lem :
    (a b : ℕ)
    → a < base
    → b < base
    → ((add2 a b).res + base * (add2 a b).carry ≡ a + b)
      × ((add2 a b).res < base)
      × ((add2 a b).carry ≤ 1)
unfolding add2
add2_lem a b ha hb = ground arith

pub add2_carry_lem :
    (a b c : ℕ)
    → a < base
    → b < base
    → c ≤ 1
    → ((add2_carry a b c).res + base * (add2_carry a b c).carry ≡ a + b + c)
      × ((add2_carry a b c).res < base)
      × ((add2_carry a b c).carry ≤ 1)
unfolding add2_carry
add2_carry_lem a b c ha hb hc = ground arith

-- The total must fit two digits, since the accumulated carry is a digit.
pub add3_lem :
    (accu a b c : ℕ)
    → a < base
    → b < base
    → c < base
    → accu < base
    → a + b + c + base * accu < base * base
    → ((add3 accu a b c).res + base * (add3 accu a b c).carry ≡ a + b + c + base * accu)
      × ((add3 accu a b c).res < base)
      × ((add3 accu a b c).carry < base)
unfolding add3
add3_lem accu a b c ha hb hc h fits = ground arith

pub sub2_lem :
    (a b : ℕ)
    → a < base
    → b < base
    → ((sub2 a b).res + b ≡ a + base * (sub2 a b).carry)
      × ((sub2 a b).res < base)
      × ((sub2 a b).carry ≤ 1)
unfolding sub2
sub2_lem a b ha hb = ground arith

pub sub2_carry_lem :
    (a b c : ℕ)
    → a < base
    → b < base
    → c ≤ 1
    → ((sub2_carry a b c).res + b + c ≡ a + base * (sub2_carry a b c).carry)
      × ((sub2_carry a b c).res < base)
      × ((sub2_carry a b c).carry ≤ 1)
unfolding sub2_carry
sub2_carry_lem a b c ha hb hc = ground arith

pub sub3_lem :
    (accu a b c : ℕ)
    → a < base
    → b < base
    → c < base
    → accu < base
    → b + c + base * accu ≤ base * (base - 1)
    → ((sub3 accu a b c).res + b + c + base * accu ≡ a + base * (sub3 accu a b c).carry)
      × ((sub3 accu a b c).res < base)
      × ((sub3 accu a b c).carry < base)
unfolding sub3
sub3_lem accu a b c ha hb hc h fits = ground arith

-- The largest product of two halves.
abbrev top_product : ℕ
top_product = (2 ^ 32 - 1) * (2 ^ 32 - 1)

half_product : (a b : ℕ) → a < 2 ^ 32 → b < 2 ^ 32 → a * b ≤ top_product
half_product a b ha hb = grind arith

join_products_lem :
    (p11 p12 p21 p22 : ℕ)
    → p11 ≤ top_product
    → p12 ≤ top_product
    → p21 ≤ top_product
    → p22 * base + (p12 + p21) * 2 ^ 32 + p11 ≤ (base - 1) * (base - 1)
    → ((join_products p11 p12 p21 p22).res + base * (join_products p11 p12 p21 p22).carry
        ≡ p22 * base + (p12 + p21) * 2 ^ 32 + p11)
      × ((join_products p11 p12 p21 p22).res < base)
unfolding join_products
join_products_lem p11 p12 p21 p22 h11 h12 h21 fits = omega (
  arith,
  add3_lem ((p22 + p12 / 2 ^ 32 + p21 / 2 ^ 32) % base) p11 (p12 * 2 ^ 32 % base)
      (p21 * 2 ^ 32 % base),
)

full_product : (a b : ℕ) → a < base → b < base → a * b ≤ (base - 1) * (base - 1)
full_product a b ha hb = grind arith

cut_product :
    (a b : ℕ)
    → a / 2 ^ 32 * (b / 2 ^ 32) * base
        + (a % 2 ^ 32 * (b / 2 ^ 32) + a / 2 ^ 32 * (b % 2 ^ 32)) * 2 ^ 32
        + a % 2 ^ 32 * (b % 2 ^ 32)
      ≡ a * b
cut_product a b =
    omega (arith, ap₂ (λ (s t : ℕ). s * t) (div-add-mod' a (2 ^ 32)) (div-add-mod' b (2 ^ 32)))

digit_half_product : (a b : ℕ) → a < 2 ^ 32 → b < 2 ^ 32 → a * b % base ≡ a * b
digit_half_product a b ha hb = omega (arith, half_product a b ha hb)

mult_exact :
    (a b : ℕ)
    → a < base
    → b < base
    → let p =
        join_products
          (a % 2 ^ 32 * (b % 2 ^ 32))
          (a % 2 ^ 32 * (b / 2 ^ 32))
          (a / 2 ^ 32 * (b % 2 ^ 32))
          (a / 2 ^ 32 * (b / 2 ^ 32)) in
      (p.res + base * p.carry ≡ a * b) × (p.res < base) × (p.carry + 1 < base)
mult_exact a b ha hb =
    let a1 : a / 2 ^ 32 < 2 ^ 32 = omega arith in
    let b1 : b / 2 ^ 32 < 2 ^ 32 = omega arith in
    let a0 : a % 2 ^ 32 < 2 ^ 32 = omega arith in
    let b0 : b % 2 ^ 32 < 2 ^ 32 = omega arith in
    let joined =
      join_products_lem (a % 2 ^ 32 * (b % 2 ^ 32)) (a % 2 ^ 32 * (b / 2 ^ 32))
        (a / 2 ^ 32 * (b % 2 ^ 32)) (a / 2 ^ 32 * (b / 2 ^ 32)) (half_product _ _ a0 b0)
        (half_product _ _ a0 b1) (half_product _ _ a1 b0)
        (omega (arith, cut_product a b, full_product a b ha hb)) in
    omega (arith, joined, cut_product a b, full_product a b ha hb)

-- BngMult gives the double-digit product.
pub mult_lem :
    (a b : ℕ)
    → a < base
    → b < base
    → ((mult a b).res + base * (mult a b).carry ≡ a * b)
      × ((mult a b).res < base)
      × ((mult a b).carry + 1 < base)
unfolding mult
mult_lem a b ha hb =
    let a1 : a / 2 ^ 32 < 2 ^ 32 = omega arith in
    let b1 : b / 2 ^ 32 < 2 ^ 32 = omega arith in
    let a0 : a % 2 ^ 32 < 2 ^ 32 = omega arith in
    let b0 : b % 2 ^ 32 < 2 ^ 32 = omega arith in
    rw
      (
        bit_and-mask 32 a,
        bit_and-mask 32 b,
        digit_half_product (a % 2 ^ 32) (b % 2 ^ 32) a0 b0,
        digit_half_product (a % 2 ^ 32) (b / 2 ^ 32) a0 b1,
        digit_half_product (a / 2 ^ 32) (b % 2 ^ 32) a1 b0,
        digit_half_product (a / 2 ^ 32) (b / 2 ^ 32) a1 b1,
      )
      (mult_exact a b ha hb)
