-- ===== src/Int64/SignedShift.antt =====
-- I64_asr divides the signed value by a power of two, rounding down.
use native.Mathlib.Nat.{mod-lt, div-le_self, div-lt_iff_lt-mul}
use ocaml_pro_ocaml_branch.Base.{
  ℕ, zero, suc, ◌+◌, ◌-◌, ◌*◌, ◌/◌, ◌%◌, ◌^◌, ◌<◌, ◌≤◌, ◌≡◌, arith, bit_or, ap,
}
use ocaml_pro_ocaml_branch.Base.Bits.{bit_and-mask}
use ocaml_pro_ocaml_branch.Base.Shifts.{
  pow_pos, pow_split, complement-div, complement-mod, bit_or-shr-shl,
}
use ocaml_pro_ocaml_branch.Base.Int.{ℤ, pos, negsuc}
use ocaml_pro_ocaml_branch.Int64.{Int64, asr, asr_masked, lsr_masked}
use ocaml_pro_ocaml_branch.Int64.Shift.{to_ℕ-lsr_masked}
use ocaml_pro_ocaml_branch.Int64.Value.{IsInt64, to_ℕ, to_ℤ, of_parts}

-- Division of an integer by a positive number, rounded down.
abbrev pub floor_div : ℤ → ℕ → ℤ
floor_div (pos n) p = pos (n / p)
floor_div (negsuc n) p = negsuc (n / p)

-- The words with every bit flipped.
abbrev complement : Int64 → Int64
complement x = of_parts (2 ^ 32 - 1 - x.h) (2 ^ 32 - 1 - x.l)

complement-IsInt64 : (x : Int64) → IsInt64 (complement x)
complement-IsInt64 x = omega arith

-- A word and its complement, each divided by `2 ^ s`.
module _ (c s : ℕ) (hs : s ≤ 32) (hc : c < 2 ^ 32) where
  word_div-lt : c / 2 ^ s < 2 ^ (32 - s)
  word_div-lt = (div-lt_iff_lt-mul (pow_pos s)).1 (omega (arith, pow_split 32 s hs))

  word_div : (2 ^ 32 - 1 - c) / 2 ^ s + c / 2 ^ s + 1 ≡ 2 ^ (32 - s)
  word_div = omega (
    arith,
    ap (λ (n : ℕ). (n - 1 - c) / 2 ^ s) (pow_split 32 s hs),
    complement-div c (2 ^ s) (2 ^ (32 - s)) (pow_pos s) (omega (arith, pow_split 32 s hs)),
    word_div-lt,
  )

  word_mod : (2 ^ 32 - 1 - c) % 2 ^ s + c % 2 ^ s + 1 ≡ 2 ^ s
  word_mod = omega (
    arith,
    ap (λ (n : ℕ). (n - 1 - c) % 2 ^ s) (pow_split 32 s hs),
    complement-mod c (2 ^ s) (2 ^ (32 - s)) (pow_pos s) (omega (arith, pow_split 32 s hs)),
    mod-lt c (pow_pos s),
  )

-- On a negative number the shift is the unsigned shift between two complements.
low_words :
    {x : Int64} (s : ℕ)
    → IsInt64 x
    → s ≤ 32
    → bit_or (x.l / 2 ^ s) (x.h * 2 ^ (32 - s) % 2 ^ 32)
        + bit_or ((2 ^ 32 - 1 - x.l) / 2 ^ s) ((2 ^ 32 - 1 - x.h) * 2 ^ (32 - s) % 2 ^ 32)
      ≡ 2 ^ 32 - 1
low_words {x} s v hs = omega (
  arith,
  bit_or-shr-shl 32 s hs x.l x.h v.low,
  bit_or-shr-shl 32 s hs (2 ^ 32 - 1 - x.l) (2 ^ 32 - 1 - x.h) (omega arith),
  word_div x.l s hs v.low,
  ap (λ (n : ℕ). n * 2 ^ (32 - s)) (word_mod x.h s hs v.high),
  pow_split 32 s hs,
)

asr_negative :
    {x : Int64} (s : ℕ)
    → IsInt64 x
    → 2 ^ 31 ≤ x.h
    → to_ℕ (asr_masked x s) + to_ℕ (lsr_masked (complement x) s) ≡ 2 ^ 64 - 1
unfolding asr_masked lsr_masked
asr_negative {x} zero v neg = omega arith
asr_negative {x} (suc s) v neg = ground (
  arith,
  low_words (suc s) v,
  div-le_self (2 ^ 32 - 1 - x.h) (2 ^ suc s),
  div-le_self (2 ^ 32 - 1 - x.h) (2 ^ (suc s - 32)),
)

asr_nonnegative : (x : Int64) (s : ℕ) → x.h < 2 ^ 31 → to_ℕ (asr_masked x s) ≡ to_ℕ (lsr_masked x s)
unfolding asr_masked lsr_masked
asr_nonnegative x s small = ground arith

to_ℤ-asr_masked :
    {x : Int64} (s : ℕ) → IsInt64 x → to_ℤ (asr_masked x s) ≡ floor_div (to_ℤ x) (2 ^ s)
to_ℤ-asr_masked {x} s v = ground (
  arith,
  asr_negative s v,
  asr_nonnegative x s,
  to_ℕ-lsr_masked s v,
  to_ℕ-lsr_masked s (complement-IsInt64 x),
  div-le_self (to_ℕ x) (2 ^ s),
  div-le_self (to_ℕ (complement x)) (2 ^ s),
)

-- I64_asr divides the signed value by a power of two, rounding down; only the low 6 bits of the
-- count matter.
pub to_ℤ-asr : {x : Int64} (s : ℕ) → IsInt64 x → to_ℤ (asr x s) ≡ floor_div (to_ℤ x) (2 ^ (s % 64))
unfolding asr
to_ℤ-asr s v = rw (bit_and-mask 6 s) (to_ℤ-asr_masked (s % 64) v)
