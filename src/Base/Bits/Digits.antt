-- ===== src/Base/Bits/Digits.antt =====
-- The native bitwise operations as recursions on binary digits, for any operator given on bits.
use Prim.Native.Nat.{digits, bitwise}
use native.Mathlib.Nat.{pow-suc}
use ocaml_pro_ocaml_branch.Base.{
  ℕ, zero, suc, ◌+◌, ◌*◌, ◌/◌, ◌%◌, ◌^◌, ◌≤◌, ◌<◌, ◌≡◌, refl, ap, ap₂, ◌∙◌, arith,
}

double_pow : (a k : ℕ) → a * 2 ^ suc k ≡ 2 * (a * 2 ^ k)
double_pow a k = omega (arith, ap (λ (t : ℕ). a * t) (pow-suc 2 k))

low_bit : (a r : ℕ) → a % 2 ≡ 0 → (a + r) % 2 ≡ r % 2
low_bit a r h = omega arith

-- An operator given on bits, with `z` for what is left when the first word is used up.
module _ (z : ℕ → ℕ) (f : ℕ → ℕ → ℕ) (z_step : (b : ℕ) → z b ≡ z (b / 2) * 2 + f 0 (b % 2)) where
  digits-fuel : (n m a b : ℕ) → a ≤ n → a ≤ m → digits z f n a b ≡ digits z f m a b
  digits-fuel zero zero zero b hn hm = refl
  digits-fuel zero (suc m) zero b hn hm = refl
  digits-fuel (suc n) zero zero b hn hm = refl
  digits-fuel (suc n) (suc m) zero b hn hm = refl
  digits-fuel (suc n) (suc m) (suc a) b hn hm =
      ap (λ (t : ℕ). t * 2 + f (suc a % 2) (b % 2))
        (digits-fuel n m (suc a / 2) (b / 2) (omega arith) (omega arith))
  digits-fuel zero _ (suc a) b hn hm = absurd (omega arith)
  digits-fuel _ zero (suc a) b hn hm = absurd (omega arith)

  pub bitwise_step :
      (a b : ℕ) → bitwise z f a b ≡ bitwise z f (a / 2) (b / 2) * 2 + f (a % 2) (b % 2)
  bitwise_step zero b = z_step b
  bitwise_step (suc a) b =
      ap (λ (t : ℕ). t * 2 + f (suc a % 2) (b % 2))
        (digits-fuel a (suc a / 2) (suc a / 2) (b / 2) (omega arith) (omega arith))

  pub bitwise-eq : (a a' b b' : ℕ) → a ≡ a' → b ≡ b' → bitwise z f a b ≡ bitwise z f a' b'
  bitwise-eq a a' b b' p q = ap₂ (bitwise z f) p q

  -- The digit function `f` keeps bits below 2.
  pub bitwise-lt :
      (k a b : ℕ)
      → ((x y : ℕ) → x < 2 → y < 2 → f x y < 2)
      → z 0 ≡ 0
      → a < 2 ^ k
      → b < 2 ^ k
      → bitwise z f a b < 2 ^ k
  bitwise-lt zero a b bits z0 ha hb =
      omega (arith, bitwise-eq a 0 b 0 (omega arith) (omega arith), z0)
  bitwise-lt (suc k) a b bits z0 ha hb = omega (
    arith,
    bitwise_step a b,
    pow-suc 2 k,
    bits (a % 2) (b % 2) (omega arith) (omega arith),
    bitwise-lt k (a / 2) (b / 2) bits z0 (omega (arith, pow-suc 2 k)) (omega (arith, pow-suc 2 k)),
  )

  pub bitwise_cut :
      (k a b r s : ℕ)
      → r < 2 ^ k
      → s < 2 ^ k
      → f 0 0 ≡ 0
      → z 0 ≡ 0
      → bitwise z f (a * 2 ^ k + r) (b * 2 ^ k + s) ≡ bitwise z f a b * 2 ^ k + bitwise z f r s
  bitwise_cut zero a b r s hr hs f0 z0 =
      bitwise-eq (a * 1 + r) a (b * 1 + s) b (omega arith) (omega arith)
      ∙ omega (arith, bitwise-eq r 0 s 0 (omega arith) (omega arith), z0)
  bitwise_cut (suc k) a b r s hr hs f0 z0 =
      let ea : a * 2 ^ suc k ≡ 2 * (a * 2 ^ k) = double_pow a k in
      let eb : b * 2 ^ suc k ≡ 2 * (b * 2 ^ k) = double_pow b k in
      omega (
        arith,
        bitwise_step (a * 2 ^ suc k + r) (b * 2 ^ suc k + s),
        bitwise_step r s,
        bitwise-eq ((a * 2 ^ suc k + r) / 2) (a * 2 ^ k + r / 2) ((b * 2 ^ suc k + s) / 2)
            (b * 2 ^ k + s / 2) (omega arith) (omega arith),
        bitwise_cut k a b (r / 2) (s / 2) (omega (arith, pow-suc 2 k)) (omega (arith, pow-suc 2 k))
            f0 z0,
        ap₂ f (low_bit (a * 2 ^ suc k) r (omega arith)) (low_bit (b * 2 ^ suc k) s (omega arith)),
        double_pow (bitwise z f a b) k,
      )
