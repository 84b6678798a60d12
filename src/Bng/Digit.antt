-- ===== src/Bng/Digit.antt =====
-- The macros of bng_digit.c, in their portable form, on 64-bit digits. Each returns what it assigns.
pub mod Exact
use ocaml_pro_ocaml_branch.Base.{
  ℕ, ◌+◌, ◌-◌, ◌*◌, ◌/◌, ◌%◌, ◌^◌, ◌<◌, ◌≤◌, ◌≡◌, bit_and, arith, ltb, if◌then◌else◌, ap₂,
}

-- 2 ^ BNG_BITS_PER_DIGIT.
abbrev pub base : ℕ
base = 2 ^ 64

-- A digit and the carry, or the two digits of a product.
pub record Digits2 : Type 0 where
  pub res : ℕ
  pub carry : ℕ

-- The value of a C comparison.
abbrev pub lt_flag : ℕ → ℕ → ℕ
lt_flag a b = if ltb a b then 1 else 0

unfoldable pub add2 : ℕ → ℕ → Digits2
add2 a b = let tmp2 = (a + b) % base in record { res = tmp2; carry = lt_flag tmp2 a }

unfoldable pub add2_carry : ℕ → ℕ → ℕ → Digits2
add2_carry a b carryin =
    let tmp2 = (a + b) % base in
    let tmp3 = (tmp2 + carryin) % base in
    record { res = tmp3; carry = lt_flag tmp2 a + lt_flag tmp3 tmp2 }

-- `carryaccu` is a digit, incremented twice.
unfoldable pub add3 : ℕ → ℕ → ℕ → ℕ → Digits2
add3 carryaccu a b c =
    let tmp2 = (a + b) % base in
    let accu1 = (carryaccu + lt_flag tmp2 a) % base in
    let tmp3 = (tmp2 + c) % base in
    record { res = tmp3; carry = (accu1 + lt_flag tmp3 tmp2) % base }

unfoldable pub sub2 : ℕ → ℕ → Digits2
sub2 a b = record { res = (a + base - b) % base; carry = lt_flag a b }

unfoldable pub sub2_carry : ℕ → ℕ → ℕ → Digits2
sub2_carry a b carryin =
    let tmp3 = (a + base - b) % base in
    record { res = (tmp3 + base - carryin) % base; carry = lt_flag a b + lt_flag tmp3 carryin }

unfoldable pub sub3 : ℕ → ℕ → ℕ → ℕ → Digits2
sub3 carryaccu a b c =
    let tmp4 = (a + base - b) % base in
    record {
      res = (tmp4 + base - c) % base;
      carry = (carryaccu + (lt_flag a b + lt_flag tmp4 c)) % base;
    }

abbrev pub low_half : ℕ → ℕ
low_half d = bit_and d (2 ^ 32 - 1)

abbrev pub high_half : ℕ → ℕ
high_half d = d / 2 ^ 32

-- The four products of halves put together; `carry` is the high digit.
unfoldable pub join_products : ℕ → ℕ → ℕ → ℕ → Digits2
join_products p11 p12 p21 p22 =
    let resh = (p22 + p12 / 2 ^ 32 + p21 / 2 ^ 32) % base in
    add3 resh p11 (p12 * 2 ^ 32 % base) (p21 * 2 ^ 32 % base)

unfoldable pub mult : ℕ → ℕ → Digits2
mult a b =
    join_products (low_half a * low_half b % base) (low_half a * high_half b % base)
      (high_half a * low_half b % base) (high_half a * high_half b % base)
