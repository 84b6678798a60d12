-- ===== src/Base/Shifts.antt =====
-- Shifts of a `w`-bit word by a variable number of bits, and the double shifts
-- `(x << s) | (y >> (w - s))` and `(x >> s) | (y << (w - s))`.
use native.Mathlib.Nat.{
  pow-suc, pow-le-pow_right, one-le-pow, div-add-mod', mod-lt, div-lt_iff_lt-mul,
}
use native.Mathlib.Decide.{dec_lt}
use ocaml_pro_ocaml_branch.Base.{
  ℕ, zero, suc, ◌+◌, ◌-◌, ◌*◌, ◌/◌, ◌%◌, ◌^◌, ◌≤◌, ◌<◌, bit_or, ◌≡◌, subst, ap, ◌∙◌, arith,
}
use ocaml_pro_ocaml_branch.Base.Bits.{bit_or-high_low, bit_or-low_high}

pub pow_pos : (k : ℕ) → 0 < 2 ^ k
pow_pos k = one-le-pow k 2 (omega arith)

pub pow_add : (s t : ℕ) → 2 ^ (s + t) ≡ 2 ^ s * 2 ^ t
pow_add zero t = omega (arith, ap (λ (n : ℕ). 2 ^ n) (zero_add t))
  where
    zero_add : (t : ℕ) → 0 + t ≡ t
    zero_add t = omega arith
pow_add (suc s) t = omega (
  arith,
  ap (λ (n : ℕ). 2 ^ n) (suc_add s t),
  pow-suc 2 (s + t),
  ap (λ (n : ℕ). n * 2 ^ t) (pow-suc 2 s),
  pow_add s t,
)
  where
    suc_add : (s t : ℕ) → suc s + t ≡ suc (s + t)
    suc_add s t = omega arith

-- An exponent is bounded where its power is.
pub lt_of_pow : (j k : ℕ) → 2 ^ j < 2 ^ k → j < k
lt_of_pow j k h = elim (dec_lt j k) [
  | yes below ↦ below
  | no above ↦
      absurd (omega (arith, pow-le-pow_right {n = 2} (omega arith) {i = k} {j = j} (omega arith)))
]

pub pow_split : (w s : ℕ) → s ≤ w → 2 ^ s * 2 ^ (w - s) ≡ 2 ^ w
pow_split w s h = omega (arith, pow_add s (w - s), ap (λ (n : ℕ). 2 ^ n) (back w s h))
  where
    back : (w s : ℕ) → s ≤ w → s + (w - s) ≡ w
    back w s h = omega arith

-- A product by `p` cut at the multiple of `q` below `x`.
pub mul_split : (x p q : ℕ) → x * p ≡ x / q * (p * q) + x % q * p
mul_split x p q = omega (arith, ap (λ (n : ℕ). n * p) (div-add-mod' x q))

pub mul_below : (r p q : ℕ) → r < q → r * p + p ≤ p * q
mul_below r p q h = grind arith

pub div_unique : (q p r : ℕ) → r < p → (q * p + r) / p ≡ q
div_unique q p r h = grind arith

pub mod_unique : (q p r : ℕ) → r < p → (q * p + r) % p ≡ r
mod_unique q p r h = grind arith

module _ (w s : ℕ) (h : s ≤ w) where
  -- `x << s` before it is cut to a word: the bits that fall off, and those that stay.
  pub shl_split : (x : ℕ) → x * 2 ^ s ≡ x / 2 ^ (w - s) * 2 ^ w + x % 2 ^ (w - s) * 2 ^ s
  shl_split x = omega (
    arith,
    mul_split x (2 ^ s) (2 ^ (w - s)),
    ap (λ (n : ℕ). x / 2 ^ (w - s) * n) (pow_split w s h),
  )

  pub shl-lt : (x : ℕ) → x % 2 ^ (w - s) * 2 ^ s + 2 ^ s ≤ 2 ^ w
  shl-lt x = omega (
    arith,
    mul_below (x % 2 ^ (w - s)) (2 ^ s) (2 ^ (w - s)) (mod-lt x (pow_pos (w - s))),
    pow_split w s h,
  )

  -- What `x << s` keeps.
  pub shl_word : (x : ℕ) → x * 2 ^ s % 2 ^ w ≡ x % 2 ^ (w - s) * 2 ^ s
  shl_word x =
      ap (λ (n : ℕ). n % 2 ^ w) (shl_split x)
      ∙ mod_unique (x / 2 ^ (w - s)) (2 ^ w) (x % 2 ^ (w - s) * 2 ^ s)
          (omega (arith, shl-lt x, pow_pos s))

  pub shr-lt : (y : ℕ) → y < 2 ^ w → y / 2 ^ (w - s) < 2 ^ s
  shr-lt y hy = (div-lt_iff_lt-mul (pow_pos (w - s))).1 (omega (arith, pow_split w s h))

  pub bit_or-shl-shr :
      (x y : ℕ)
      → y < 2 ^ w
      → bit_or (x * 2 ^ s % 2 ^ w) (y / 2 ^ (w - s)) ≡ x % 2 ^ (w - s) * 2 ^ s + y / 2 ^ (w - s)
  bit_or-shl-shr x y hy =
      rw (shl_word x) (bit_or-high_low s (x % 2 ^ (w - s)) (y / 2 ^ (w - s)) (shr-lt y hy))

module _ (w s : ℕ) (h : s ≤ w) where
  twice_back : w - (w - s) ≡ s
  twice_back = omega arith

  pub bit_or-shr-shl :
      (x y : ℕ)
      → x < 2 ^ w
      → bit_or (x / 2 ^ s) (y * 2 ^ (w - s) % 2 ^ w) ≡ y % 2 ^ s * 2 ^ (w - s) + x / 2 ^ s
  bit_or-shr-shl x y hx =
      let at = λ (t : ℕ). y * 2 ^ (w - s) % 2 ^ w ≡ y % 2 ^ t * 2 ^ (w - s) in
      let kept = subst at twice_back (shl_word w (w - s) (omega arith) y) in
      let small = (div-lt_iff_lt-mul (pow_pos s)).1 (omega (arith, pow_split w s h)) in
      rw kept (bit_or-low_high (w - s) (y % 2 ^ s) (x / 2 ^ s) small)

-- The complement of a number below `p * q` has the complements of its parts.
module _ (c p q : ℕ) (hp : 0 < p) (hc : c < p * q) where
  complement_split : p * q - 1 - c ≡ (q - 1 - c / p) * p + (p - 1 - c % p)
  complement_split =
      let big : c / p < q = (div-lt_iff_lt-mul hp).1 (omega arith) in
      let small = mod-lt c hp in
      let gap : q ≡ (q - 1 - c / p) + (c / p + 1) = omega arith in
      omega (arith, div-add-mod' c p, ap (λ (n : ℕ). p * n) gap)

  pub complement-div : (p * q - 1 - c) / p ≡ q - 1 - c / p
  complement-div =
      ap (λ (n : ℕ). n / p) complement_split
      ∙ div_unique (q - 1 - c / p) p (p - 1 - c % p) (omega arith)

  pub complement-mod : (p * q - 1 - c) % p ≡ p - 1 - c % p
  complement-mod =
      ap (λ (n : ℕ). n % p) complement_split
      ∙ mod_unique (q - 1 - c / p) p (p - 1 - c % p) (omega arith)
