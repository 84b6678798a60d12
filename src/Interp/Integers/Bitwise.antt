-- ===== src/Interp/Integers/Bitwise.antt =====
-- Bitwise operations and shifts of tagged words.
use native.Mathlib.Nat.{div-div-eq-div-mul, div-le_self}
use ocaml_pro_ocaml_branch.Base.{
  ℕ, zero, suc, ◌+◌, ◌-◌, ◌*◌, ◌/◌, ◌%◌, ◌^◌, ◌<◌, ◌≡◌, bit_and, bit_or, bit_xor, arith, ap, ap₂,
  refl, sym, ◌∙◌,
}
use ocaml_pro_ocaml_branch.Base.Bits.{bit_and-cut, bit_or-cut, bit_xor-cut, bit_or-zero}
use ocaml_pro_ocaml_branch.Int64.SignedShift.{floor_div}
use ocaml_pro_ocaml_branch.Interp.Value.{long_val}
use ocaml_pro_ocaml_branch.Interp.Integers.{andint, orint, xorint, lslint, lsrint, asrint}
use ocaml_pro_ocaml_branch.Interp.Integers.Arithmetic.{tagged, signed63, wrap63}

low_bits : (r : ℕ) → r < 2 → bit_or r 1 ≡ 1
low_bits zero h = refl
low_bits (suc zero) h = refl
low_bits (suc (suc r)) h = absurd (omega arith)

-- `x | 1`.
pub bit_or-one : (x : ℕ) → bit_or x 1 ≡ tagged (x / 2)
bit_or-one x = omega (
  arith,
  ap₂ bit_or (halves x) (halves 1),
  bit_or-cut 1 (x / 2) 0 (x % 2) 1,
  low_bits (x % 2),
  bit_or-zero (x / 2),
)
  where
    halves : (x : ℕ) → x ≡ x / 2 * 2 ^ 1 + x % 2
    halves x = omega arith

-- Halving and dividing by a power of two.
half_quotient : (x s : ℕ) → x / 2 ^ s / 2 ≡ x / 2 / 2 ^ s
half_quotient x s =
    div-div-eq-div-mul x (2 ^ s) 2
    ∙ ap (λ (d : ℕ). x / d) (commuted (2 ^ s))
    ∙ sym (div-div-eq-div-mul x 2 (2 ^ s))
  where
    commuted : (p : ℕ) → p * 2 ≡ 2 * p
    commuted p = omega arith

module _ (m n : ℕ) (hm : m < 2 ^ 63) (hn : n < 2 ^ 63) where
  bits :
      (andint (tagged m) (tagged n) ≡ tagged (bit_and m n))
      × (orint (tagged m) (tagged n) ≡ tagged (bit_or m n))
      × (xorint (tagged m) (tagged n) ≡ tagged (bit_xor m n))
  bits = (
    bit_and-cut 1 m n 1 1 (omega arith) (omega arith),
    bit_or-cut 1 m n 1 1 (omega arith) (omega arith),
    bit_or-one (bit_xor (tagged m) (tagged n))
        ∙ omega (arith, bit_xor-cut 1 m n 1 1 (omega arith) (omega arith)),
  )

module _ (m s : ℕ) (hm : m < 2 ^ 63) (hs : s < 64) where
  count : long_val (tagged s) ≡ s
  count = ground arith

  cleared : (tagged m + 2 ^ 64 - 1) % 2 ^ 64 ≡ m * 2
  cleared = omega arith

  doubled : m * 2 * 2 ^ s ≡ m * 2 ^ s * 2
  doubled = omega arith

  lsl_tagged : lslint (tagged m) (tagged s) ≡ tagged (m * 2 ^ s % 2 ^ 63)
  lsl_tagged = rw (count, cleared) (omega (arith, doubled))

  half_of : (x y : ℕ) → x / 2 ≡ y → x / 2 ^ s / 2 ≡ y / 2 ^ s
  half_of x y e = half_quotient x s ∙ ap (λ (h : ℕ). h / 2 ^ s) e

  lsr_tagged : lsrint (tagged m) (tagged s) ≡ tagged (m / 2 ^ s)
  lsr_tagged = rw (count, cleared) (bit_or-one _ ∙ ap tagged (half_of (m * 2) m (omega arith)))

  asr_tagged : asrint (tagged m) (tagged s) ≡ tagged (wrap63 (floor_div (signed63 m) (2 ^ s)))
  asr_tagged =
      rw (count, cleared)
        (bit_or-one _
          ∙ ap tagged (
              ground (
                arith,
                half_of (m * 2) m (omega arith),
                half_of (2 ^ 64 - 1 - m * 2) (2 ^ 63 - 1 - m) (omega arith),
                div-le_self m (2 ^ s),
                div-le_self (2 ^ 63 - 1 - m) (2 ^ s),
              )))

-- On the words of two 63-bit patterns ANDINT, ORINT and XORINT act on the patterns. With a count below
-- 64, LSLINT multiplies by a power of two modulo 2 ^ 63, LSRINT divides the pattern by it, and ASRINT
-- the signed integer, both rounding down.
pub bitwise63_lem :
    (m n s : ℕ)
    → m < 2 ^ 63
    → n < 2 ^ 63
    → s < 64
    → (andint (tagged m) (tagged n) ≡ tagged (bit_and m n))
      × (orint (tagged m) (tagged n) ≡ tagged (bit_or m n))
      × (xorint (tagged m) (tagged n) ≡ tagged (bit_xor m n))
      × (lslint (tagged m) (tagged s) ≡ tagged (m * 2 ^ s % 2 ^ 63))
      × (lsrint (tagged m) (tagged s) ≡ tagged (m / 2 ^ s))
      × (asrint (tagged m) (tagged s) ≡ tagged (wrap63 (floor_div (signed63 m) (2 ^ s))))
bitwise63_lem m n s hm hn hs =
    let (a, b, c) = bits m n hm hn in
    (a, b, c, lsl_tagged m s hm hs, lsr_tagged m s hm hs, asr_tagged m s hm hs)
