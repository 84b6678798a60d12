-- ===== src/Base/Bits.antt =====
-- The bitwise operators of C on words of any width, as arithmetic: a word cut at bit `k` is
-- combined part by part.
mod Digits
use Prim.Native.Nat.{differ, bit_and-bitwise, bit_or-bitwise, bit_xor-bitwise}
use native.Mathlib.Nat.{pow-suc, one-le-pow, div-add-mod', add-zero, mod-lt}
use Digits.{bitwise_step, bitwise-lt, bitwise_cut}
use ocaml_pro_ocaml_branch.Base.{
  ℕ, zero, suc, ◌+◌, ◌-◌, ◌*◌, ◌/◌, ◌%◌, ◌^◌, ◌≤◌, ◌<◌, bit_and, bit_or, bit_xor, min, max, ◌≡◌,
  ◌↔◌, refl, ap, ap₂, arith,
}

half_ones : (k : ℕ) → (2 ^ suc k - 1) / 2 ≡ 2 ^ k - 1
half_ones k = omega (arith, pow-suc 2 k, one-le-pow k 2 (omega arith))

zero_high : (k r : ℕ) → 0 * 2 ^ k + r ≡ r
zero_high k r = omega arith

or_z_step : (b : ℕ) → b ≡ b / 2 * 2 + max 0 (b % 2)
or_z_step b = omega arith

xor_z_step : (b : ℕ) → b ≡ b / 2 * 2 + differ 0 (b % 2)
xor_z_step b = omega arith

and_z_step : (b : ℕ) → 0 ≡ 0 * 2 + min 0 (b % 2)
and_z_step b = omega arith

pub bit_and-cut :
    (k a b r s : ℕ)
    → r < 2 ^ k
    → s < 2 ^ k
    → bit_and (a * 2 ^ k + r) (b * 2 ^ k + s) ≡ bit_and a b * 2 ^ k + bit_and r s
bit_and-cut k a b r s hr hs =
    simp bit_and-bitwise (bitwise_cut (λ _. 0) min and_z_step k a b r s hr hs refl refl)

pub bit_or-cut :
    (k a b r s : ℕ)
    → r < 2 ^ k
    → s < 2 ^ k
    → bit_or (a * 2 ^ k + r) (b * 2 ^ k + s) ≡ bit_or a b * 2 ^ k + bit_or r s
bit_or-cut k a b r s hr hs =
    simp bit_or-bitwise (bitwise_cut (λ y. y) max or_z_step k a b r s hr hs refl refl)

pub bit_xor-cut :
    (k a b r s : ℕ)
    → r < 2 ^ k
    → s < 2 ^ k
    → bit_xor (a * 2 ^ k + r) (b * 2 ^ k + s) ≡ bit_xor a b * 2 ^ k + bit_xor r s
bit_xor-cut k a b r s hr hs =
    simp bit_xor-bitwise (bitwise_cut (λ y. y) differ xor_z_step k a b r s hr hs refl refl)

pub bit_or-lt : (k a b : ℕ) → a < 2 ^ k → b < 2 ^ k → bit_or a b < 2 ^ k
bit_or-lt k a b ha hb =
    simp bit_or-bitwise
      (bitwise-lt (λ y. y) max or_z_step k a b (λ x y hx hy. omega arith) refl ha hb)

pub bit_and-lt : (k a b : ℕ) → a < 2 ^ k → b < 2 ^ k → bit_and a b < 2 ^ k
bit_and-lt k a b ha hb =
    simp bit_and-bitwise
      (bitwise-lt (λ _. 0) min and_z_step k a b (λ x y hx hy. omega arith) refl ha hb)

differ-lt : (x y : ℕ) → x < 2 → y < 2 → differ x y < 2
differ-lt zero y hx hy = hy
differ-lt (suc zero) zero hx hy = hx
differ-lt (suc zero) (suc zero) hx hy = omega arith
differ-lt (suc zero) (suc (suc y)) hx hy = absurd (omega arith)
differ-lt (suc (suc x)) y hx hy = absurd (omega arith)

pub bit_xor-lt : (k a b : ℕ) → a < 2 ^ k → b < 2 ^ k → bit_xor a b < 2 ^ k
bit_xor-lt k a b ha hb =
    simp bit_xor-bitwise (bitwise-lt (λ y. y) differ xor_z_step k a b differ-lt refl ha hb)

pub zero-bit_or : (b : ℕ) → bit_or 0 b ≡ b
zero-bit_or b = bit_or-bitwise 0 b

pub zero-bit_and : (b : ℕ) → bit_and 0 b ≡ 0
zero-bit_and b = bit_and-bitwise 0 b

bit_or_step : (a b : ℕ) → bit_or a b ≡ bit_or (a / 2) (b / 2) * 2 + max (a % 2) (b % 2)
bit_or_step a b = simp bit_or-bitwise (bitwise_step (λ y. y) max or_z_step a b)

bit_and_step : (a b : ℕ) → bit_and a b ≡ bit_and (a / 2) (b / 2) * 2 + min (a % 2) (b % 2)
bit_and_step a b = simp bit_and-bitwise (bitwise_step (λ _. 0) min and_z_step a b)

bit_or-zero_below : (n a : ℕ) → a ≤ n → bit_or a 0 ≡ a
bit_or-zero_below _ zero h = refl
bit_or-zero_below zero (suc a) h = absurd (omega arith)
bit_or-zero_below (suc n) (suc a) h =
    omega (arith, bit_or_step (suc a) 0, bit_or-zero_below n (suc a / 2) (omega arith))

pub bit_or-zero : (a : ℕ) → bit_or a 0 ≡ a
bit_or-zero a = bit_or-zero_below a a (omega arith)

bit_and-zero_below : (n a : ℕ) → a ≤ n → bit_and a 0 ≡ 0
bit_and-zero_below _ zero h = refl
bit_and-zero_below zero (suc a) h = absurd (omega arith)
bit_and-zero_below (suc n) (suc a) h =
    omega (arith, bit_and_step (suc a) 0, bit_and-zero_below n (suc a / 2) (omega arith))

pub bit_and-zero : (a : ℕ) → bit_and a 0 ≡ 0
bit_and-zero a = bit_and-zero_below a a (omega arith)

-- `(q << k) | r`, the parts in either order.
pub bit_or-high_low : (k q r : ℕ) → r < 2 ^ k → bit_or (q * 2 ^ k) r ≡ q * 2 ^ k + r
bit_or-high_low k q r h = omega (
  arith,
  ap₂ bit_or (add-zero (q * 2 ^ k)) (zero_high k r),
  bit_or-cut k q 0 0 r (omega arith) h,
  ap (λ (t : ℕ). t * 2 ^ k) (bit_or-zero q),
  zero-bit_or r,
)

pub bit_or-low_high : (k q r : ℕ) → r < 2 ^ k → bit_or r (q * 2 ^ k) ≡ q * 2 ^ k + r
bit_or-low_high k q r h = omega (
  arith,
  ap₂ bit_or (zero_high k r) (add-zero (q * 2 ^ k)),
  bit_or-cut k 0 q r 0 h (omega arith),
  ap (λ (t : ℕ). t * 2 ^ k) (zero-bit_or q),
  bit_or-zero r,
)

bit_and-ones : (k r : ℕ) → r < 2 ^ k → bit_and r (2 ^ k - 1) ≡ r
bit_and-ones zero r h = omega (arith, bit_and-zero r)
bit_and-ones (suc k) r h = omega (
  arith,
  pow-suc 2 k,
  bit_and_step r (2 ^ suc k - 1),
  ap (bit_and (r / 2)) (half_ones k),
  bit_and-ones k (r / 2) (omega (arith, pow-suc 2 k)),
)

-- `a & ((1 << k) - 1)` keeps the low `k` bits.
pub bit_and-mask : (k a : ℕ) → bit_and a (2 ^ k - 1) ≡ a % 2 ^ k
bit_and-mask k a =
    let below : a % 2 ^ k < 2 ^ k = mod-lt a (one-le-pow k 2 (omega arith)) in
    omega (
      arith,
      ap₂ bit_and (div-add-mod' a (2 ^ k)) (zero_high k (2 ^ k - 1)),
      bit_and-cut k (a / 2 ^ k) 0 (a % 2 ^ k) (2 ^ k - 1) below (omega arith),
      ap (λ (t : ℕ). t * 2 ^ k) (bit_and-zero (a / 2 ^ k)),
      bit_and-ones k (a % 2 ^ k) below,
    )

bit_or-ge_below : (n a b : ℕ) → a ≤ n → (a ≤ bit_or a b) × (b ≤ bit_or a b)
bit_or-ge_below _ zero b h = omega (arith, zero-bit_or b)
bit_or-ge_below zero (suc a) b h = absurd (omega arith)
bit_or-ge_below (suc n) (suc a) b h =
    omega (arith, bit_or_step (suc a) b, bit_or-ge_below n (suc a / 2) (b / 2) (omega arith))

pub bit_or-eq-zero_iff : (a b : ℕ) → (bit_or a b ≡ 0) ↔ ((a ≡ 0) × (b ≡ 0))
bit_or-eq-zero_iff a b =
    (λ h. omega (arith, bit_or-ge_below a a b (omega arith)), λ h. ap₂ bit_or h.0 h.1)

bit_and-le_below : (n a b : ℕ) → a ≤ n → (bit_and a b ≤ a) × (bit_and a b ≤ b)
bit_and-le_below _ zero b h = omega (arith, zero-bit_and b)
bit_and-le_below zero (suc a) b h = absurd (omega arith)
bit_and-le_below (suc n) (suc a) b h =
    omega (arith, bit_and_step (suc a) b, bit_and-le_below n (suc a / 2) (b / 2) (omega arith))

pub bit_and-le : (a b : ℕ) → (bit_and a b ≤ a) × (bit_and a b ≤ b)
bit_and-le a b = bit_and-le_below a a b (omega arith)
