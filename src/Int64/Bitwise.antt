-- ===== src/Int64/Bitwise.antt =====
-- I64_and, I64_or and I64_xor on 64-bit patterns, and the tests made of them.
use ocaml_pro_ocaml_branch.Base.{ℕ, ◌-◌, ◌^◌, ◌<◌, ◌≡◌, refl, arith, bit_and, bit_or, bit_xor, ◌==◌}
use ocaml_pro_ocaml_branch.Base.Bits.{
  bit_and-cut, bit_or-cut, bit_xor-cut, bit_and-lt, bit_or-lt, bit_xor-lt, bit_or-eq-zero_iff,
  bit_and-le,
}
use ocaml_pro_ocaml_branch.Base.Int.{ltb_ℤ, pos}
use ocaml_pro_ocaml_branch.Int64.{
  Int64, and, or, xor, is_zero, is_negative, is_min_int, is_minus_one, of_int32, to_int32, signed32,
}
use ocaml_pro_ocaml_branch.Int64.Value.{IsInt64, to_ℕ, to_ℤ}

-- I64_is_zero, I64_is_negative, I64_is_min_int and I64_is_minus_one test the value.
pub tests_lem :
    {x : Int64}
    → IsInt64 x
    → (is_zero x ≡ (to_ℕ x == 0))
      × (is_negative x ≡ ltb_ℤ (to_ℤ x) (pos 0))
      × (is_min_int x ≡ (to_ℕ x == 2 ^ 63))
      × (is_minus_one x ≡ (to_ℕ x == 2 ^ 64 - 1))
unfolding is_zero is_negative is_min_int is_minus_one
tests_lem {x} v = (
  ground (arith, bit_or-eq-zero_iff x.l x.h),
  ground arith,
  ground arith,
  ground (arith, bit_and-le x.l x.h, ones x.l x.h),
)
  where
    ones : (a b : ℕ) → a ≡ 0xFFFFFFFF → b ≡ 0xFFFFFFFF → bit_and a b ≡ 0xFFFFFFFF
    ones a b p q = rw (p, q)

-- I64_of_int32 extends the sign, and I64_to_int32 undoes it.
of_int32_lem : (w : ℕ) → w < 2 ^ 32 → (to_ℤ (of_int32 w) ≡ signed32 w) × (to_int32 (of_int32 w) ≡ w)
unfolding of_int32 to_int32
of_int32_lem w h = (ground arith, refl)

module _ {x y : Int64} (v : IsInt64 x) (w : IsInt64 y) where
  pub to_ℕ-and : to_ℕ (and x y) ≡ bit_and (to_ℕ x) (to_ℕ y)
  unfolding and
  to_ℕ-and = omega (arith, bit_and-cut 32 x.h y.h x.l y.l v.low w.low)

  pub to_ℕ-or : to_ℕ (or x y) ≡ bit_or (to_ℕ x) (to_ℕ y)
  unfolding or
  to_ℕ-or = omega (arith, bit_or-cut 32 x.h y.h x.l y.l v.low w.low)

  pub to_ℕ-xor : to_ℕ (xor x y) ≡ bit_xor (to_ℕ x) (to_ℕ y)
  unfolding xor
  to_ℕ-xor = omega (arith, bit_xor-cut 32 x.h y.h x.l y.l v.low w.low)

  pub and-IsInt64 : IsInt64 (and x y)
  unfolding and
  and-IsInt64 = record {
    high = bit_and-lt 32 x.h y.h v.high w.high;
    low = bit_and-lt 32 x.l y.l v.low w.low;
  }

  pub xor-IsInt64 : IsInt64 (xor x y)
  unfolding xor
  xor-IsInt64 = record {
    high = bit_xor-lt 32 x.h y.h v.high w.high;
    low = bit_xor-lt 32 x.l y.l v.low w.low;
  }

  pub or-IsInt64 : IsInt64 (or x y)
  unfolding or
  or-IsInt64 = record {
    high = bit_or-lt 32 x.h y.h v.high w.high;
    low = bit_or-lt 32 x.l y.l v.low w.low;
  }

-- The three bitwise operators act on the two words as on the 64-bit patterns.
bitwise_lem :
    {x y : Int64}
    → IsInt64 x
    → IsInt64 y
    → (to_ℕ (and x y) ≡ bit_and (to_ℕ x) (to_ℕ y))
      × (to_ℕ (or x y) ≡ bit_or (to_ℕ x) (to_ℕ y))
      × (to_ℕ (xor x y) ≡ bit_xor (to_ℕ x) (to_ℕ y))
bitwise_lem v w = (to_ℕ-and v w, to_ℕ-or v w, to_ℕ-xor v w)
