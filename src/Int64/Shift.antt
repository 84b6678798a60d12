-- ===== src/Int64/Shift.antt =====
-- The 64-bit shifts are multiplication and division by a power of two.
use native.Mathlib.Nat.{div-add-mod', mod-lt, div-div-eq-div-mul}
use ocaml_pro_ocaml_branch.Base.{
  ℕ, zero, suc, ◌+◌, ◌-◌, ◌*◌, ◌/◌, ◌%◌, ◌^◌, ◌<◌, ◌≤◌, ◌≡◌, arith, bit_or, ap, ◌∙◌, sym,
}
use ocaml_pro_ocaml_branch.Base.Bits.{bit_and-mask}
use ocaml_pro_ocaml_branch.Base.Shifts.{
  pow_pos, pow_add, pow_split, div_unique, shl_split, shl-lt, shl_word, shr-lt, bit_or-shl-shr,
  bit_or-shr-shl,
}
use ocaml_pro_ocaml_branch.Int64.{Int64, lsl, lsl_masked, lsr, lsr_masked, shl1, shr1}
use ocaml_pro_ocaml_branch.Int64.Value.{IsInt64, to_ℕ, to_ℕ-lt, h_of_to_ℕ}

pub to_ℕ-shl1 : {x : Int64} → IsInt64 x → to_ℕ (shl1 x) ≡ 2 * to_ℕ x % 2 ^ 64
unfolding shl1
to_ℕ-shl1 {x} v = omega (arith, bit_or-shl-shr 32 1 (omega arith) x.h x.l v.low)

pub to_ℕ-shr1 : {x : Int64} → IsInt64 x → to_ℕ (shr1 x) ≡ to_ℕ x / 2
unfolding shr1
to_ℕ-shr1 {x} v = omega (arith, bit_or-shr-shl 32 1 (omega arith) x.l x.h v.low)

pub shl1-IsInt64 : {x : Int64} → IsInt64 x → IsInt64 (shl1 x)
unfolding shl1
shl1-IsInt64 {x} v = omega (arith, bit_or-shl-shr 32 1 (omega arith) x.h x.l v.low)

pub shr1-IsInt64 : {x : Int64} → IsInt64 x → IsInt64 (shr1 x)
unfolding shr1
shr1-IsInt64 {x} v = omega (arith, bit_or-shr-shl 32 1 (omega arith) x.l x.h v.low)

-- The shift left by fewer than 32 bits moves the top of the low word into the high word.
lsl_narrow :
    {x : Int64} (s : ℕ)
    → IsInt64 x
    → s < 32
    → bit_or (x.h * 2 ^ s % 2 ^ 32) (x.l / 2 ^ (32 - s)) * 2 ^ 32 + x.l * 2 ^ s % 2 ^ 32
      ≡ to_ℕ x * 2 ^ s % 2 ^ 64
lsl_narrow {x} s v h =
    let hs : s ≤ 32 = omega arith in
    omega (
      arith,
      bit_or-shl-shr 32 s hs x.h x.l v.low,
      shl_word 32 s hs x.l,
      shl_split 32 s hs x.h,
      shl_split 32 s hs x.l,
      shl-lt 32 s hs x.h,
      shl-lt 32 s hs x.l,
      shr-lt 32 s hs x.l v.low,
    )

-- A two-word number divided by `2 ^ s`, word by word.
wide_div :
    (h l s : ℕ)
    → s ≤ 32
    → (h * 2 ^ 32 + l) / 2 ^ s ≡ h / 2 ^ s * 2 ^ 32 + (h % 2 ^ s * 2 ^ (32 - s) + l / 2 ^ s)
wide_div h l s hs =
    ap (λ (n : ℕ). n / 2 ^ s) cut
    ∙ div_unique (h / 2 ^ s * 2 ^ 32 + (h % 2 ^ s * 2 ^ (32 - s) + l / 2 ^ s)) (2 ^ s) (l % 2 ^ s)
        (mod-lt l (pow_pos s))
  where
    cut :
        h * 2 ^ 32 + l
        ≡ (h / 2 ^ s * 2 ^ 32 + (h % 2 ^ s * 2 ^ (32 - s) + l / 2 ^ s)) * 2 ^ s + l % 2 ^ s
    cut = omega (
      arith,
      ap (λ (n : ℕ). n * 2 ^ 32) (div-add-mod' h (2 ^ s)),
      div-add-mod' l (2 ^ s),
      ap (λ (n : ℕ). h % 2 ^ s * n) (pow_split 32 s hs),
    )

lsr_narrow :
    {x : Int64} (s : ℕ)
    → IsInt64 x
    → s < 32
    → x.h / 2 ^ s * 2 ^ 32 + bit_or (x.l / 2 ^ s) (x.h * 2 ^ (32 - s) % 2 ^ 32) ≡ to_ℕ x / 2 ^ s
lsr_narrow {x} s v h =
    let hs : s ≤ 32 = omega arith in
    omega (arith, bit_or-shr-shl 32 s hs x.l x.h v.low, wide_div x.h x.l s hs)

-- A shift by 32 bits or more is one by 32 and one of the other word.
pow_wide : (s : ℕ) → 32 ≤ s → 2 ^ s ≡ 2 ^ 32 * 2 ^ (s - 32)
pow_wide s h = omega (arith, ap (λ (n : ℕ). 2 ^ n) (add_back s h), pow_add 32 (s - 32))
  where
    add_back : (s : ℕ) → 32 ≤ s → 32 + (s - 32) ≡ s
    add_back s h = omega arith

lsl_wide :
    (x : Int64) (s : ℕ) → 32 ≤ s → x.l * 2 ^ (s - 32) % 2 ^ 32 * 2 ^ 32 ≡ to_ℕ x * 2 ^ s % 2 ^ 64
lsl_wide x s h = omega (arith, ap (λ (n : ℕ). to_ℕ x * n) (pow_wide s h))

lsr_wide : {x : Int64} (s : ℕ) → IsInt64 x → 32 ≤ s → x.h / 2 ^ (s - 32) ≡ to_ℕ x / 2 ^ s
lsr_wide {x} s v h =
    ap (λ (n : ℕ). n / 2 ^ (s - 32)) (h_of_to_ℕ v)
    ∙ div-div-eq-div-mul (to_ℕ x) (2 ^ 32) (2 ^ (s - 32))
    ∙ ap (λ (n : ℕ). to_ℕ x / n) (sym (pow_wide s h))

to_ℕ-lsl_masked : {x : Int64} (s : ℕ) → IsInt64 x → to_ℕ (lsl_masked x s) ≡ to_ℕ x * 2 ^ s % 2 ^ 64
unfolding lsl_masked
to_ℕ-lsl_masked {x} zero v = omega (arith, to_ℕ-lt v)
to_ℕ-lsl_masked {x} (suc s) v = ground (arith, lsl_narrow (suc s) v, lsl_wide x (suc s))

pub to_ℕ-lsr_masked : {x : Int64} (s : ℕ) → IsInt64 x → to_ℕ (lsr_masked x s) ≡ to_ℕ x / 2 ^ s
unfolding lsr_masked
to_ℕ-lsr_masked {x} zero v = omega arith
to_ℕ-lsr_masked {x} (suc s) v = ground (arith, lsr_narrow (suc s) v, lsr_wide (suc s) v)

-- On a pair of words, I64_lsl multiplies by a power of two modulo 2 ^ 64; only the low 6 bits of the
-- count matter.
pub to_ℕ-lsl : {x : Int64} (s : ℕ) → IsInt64 x → to_ℕ (lsl x s) ≡ to_ℕ x * 2 ^ (s % 64) % 2 ^ 64
unfolding lsl
to_ℕ-lsl s v = rw (bit_and-mask 6 s) (to_ℕ-lsl_masked (s % 64) v)

-- On a pair of words, I64_lsr divides the unsigned value by a power of two, rounding down; only the
-- low 6 bits of the count matter.
to_ℕ-lsr : {x : Int64} (s : ℕ) → IsInt64 x → to_ℕ (lsr x s) ≡ to_ℕ x / 2 ^ (s % 64)
unfolding lsr
to_ℕ-lsr s v = rw (bit_and-mask 6 s) (to_ℕ-lsr_masked (s % 64) v)
