-- ===== src/Int64/Product.antt =====
-- I64_mul is multiplication modulo 2 ^ 64.
use ocaml_pro_ocaml_branch.Base.{
  ℕ, ◌+◌, ◌-◌, ◌*◌, ◌/◌, ◌%◌, ◌^◌, ◌<◌, ◌≤◌, ◌≡◌, arith, bit_and, ap₂, ◌∙◌,
}
use ocaml_pro_ocaml_branch.Base.Bits.{bit_and-mask}
use ocaml_pro_ocaml_branch.Int64.{Int64, u32, mul, sum_products}
use ocaml_pro_ocaml_branch.Int64.Value.{IsInt64, to_ℕ}

-- The largest product of two half words.
abbrev top_product : ℕ
top_product = (2 ^ 16 - 1) * (2 ^ 16 - 1)

half_product : (a b : ℕ) → a < 2 ^ 16 → b < 2 ^ 16 → a * b ≤ top_product
half_product a b ha hb = grind arith

word_product : (a b : ℕ) → a < 2 ^ 32 → b < 2 ^ 32 → a * b < 2 ^ 64
word_product a b ha hb = grind arith

sum_products_value :
    (p00 p10 p01 p11 : ℕ)
    → p00 ≤ top_product
    → p10 ≤ top_product
    → p01 ≤ top_product
    → p11 ≤ top_product
    → p11 * 2 ^ 32 + (p10 + p01) * 2 ^ 16 + p00 < 2 ^ 64
    → to_ℕ (sum_products p00 p10 p01 p11) ≡ p11 * 2 ^ 32 + (p10 + p01) * 2 ^ 16 + p00
unfolding sum_products
sum_products_value p00 p10 p01 p11 h00 h10 h01 h11 fits = ground arith

pub mul-IsInt64 : (x y : Int64) → IsInt64 (mul x y)
unfolding mul sum_products
mul-IsInt64 x y = record { high = omega arith; low = omega arith }

-- The low words multiplied out exactly.
low_product :
    (a b : ℕ)
    → a < 2 ^ 32
    → b < 2 ^ 32
    → a / 2 ^ 16 * (b / 2 ^ 16) * 2 ^ 32
        + (a / 2 ^ 16 * (b % 2 ^ 16) + a % 2 ^ 16 * (b / 2 ^ 16)) * 2 ^ 16
        + a % 2 ^ 16 * (b % 2 ^ 16)
      ≡ a * b
low_product a b ha hb =
    let ea : a ≡ a / 2 ^ 16 * 2 ^ 16 + a % 2 ^ 16 = omega arith in
    let eb : b ≡ b / 2 ^ 16 * 2 ^ 16 + b % 2 ^ 16 = omega arith in
    omega (arith, ap₂ (λ (s t : ℕ). s * t) ea eb)

-- A product of half words is not cut by the word.
u32-half_product : (a b : ℕ) → a < 2 ^ 16 → b < 2 ^ 16 → a * b % 2 ^ 32 ≡ a * b
u32-half_product a b ha hb = omega (arith, half_product a b ha hb)

low_words :
    (a b : ℕ)
    → a < 2 ^ 32
    → b < 2 ^ 32
    → to_ℕ (
        sum_products
          (u32 (bit_and a 0xFFFF * bit_and b 0xFFFF))
          (u32 (a / 2 ^ 16 * bit_and b 0xFFFF))
          (u32 (bit_and a 0xFFFF * (b / 2 ^ 16)))
          (u32 (a / 2 ^ 16 * (b / 2 ^ 16))))
      ≡ a * b
low_words a b ha hb =
    let a1 : a / 2 ^ 16 < 2 ^ 16 = omega arith in
    let b1 : b / 2 ^ 16 < 2 ^ 16 = omega arith in
    let a0 : a % 2 ^ 16 < 2 ^ 16 = omega arith in
    let b0 : b % 2 ^ 16 < 2 ^ 16 = omega arith in
    rw
      (
        bit_and-mask 16 a,
        bit_and-mask 16 b,
        u32-half_product (a % 2 ^ 16) (b % 2 ^ 16) a0 b0,
        u32-half_product (a / 2 ^ 16) (b % 2 ^ 16) a1 b0,
        u32-half_product (a % 2 ^ 16) (b / 2 ^ 16) a0 b1,
        u32-half_product (a / 2 ^ 16) (b / 2 ^ 16) a1 b1,
      )
      (sum_products_value _ _ _ _ (half_product _ _ a0 b0) (half_product _ _ a1 b0)
          (half_product _ _ a0 b1) (half_product _ _ a1 b1)
          (omega (arith, low_product a b ha hb, word_product a b ha hb))
        ∙ low_product a b ha hb)

-- I64_mul computes the product modulo 2 ^ 64.
pub to_ℕ-mul : {x y : Int64} → IsInt64 x → IsInt64 y → to_ℕ (mul x y) ≡ (to_ℕ x * to_ℕ y) % 2 ^ 64
unfolding mul sum_products
to_ℕ-mul {x} {y} v w = omega (arith, low_words x.l y.l v.low w.low)
