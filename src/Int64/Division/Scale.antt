-- ===== src/Int64/Division/Scale.antt =====
-- The first loop of I64_udivmod ends within 64 rounds, with the divisor scaled up to more than half
-- the modulus.
use native.Mathlib.Nat.{pow-suc}
use ocaml_pro_ocaml_branch.Base.{
  ℕ, zero, suc, ◌+◌, ◌*◌, ◌^◌, ◌<◌, ◌≤◌, ◌≡◌, true, Option, some, arith, ap, ◌∙◌, sym, refl, leb,
  leb→le, Bool-cases, inl, inr,
}
use ocaml_pro_ocaml_branch.Base.Shifts.{pow_pos, lt_of_pow}
use ocaml_pro_ocaml_branch.Int64.{Int64, ucompare, shl1, nonneg, negative32, scale}
use ocaml_pro_ocaml_branch.Int64.Value.{IsInt64, to_ℕ, to_ℕ-lt}
use ocaml_pro_ocaml_branch.Int64.Order.{ucompare_lem}
use ocaml_pro_ocaml_branch.Int64.Shift.{to_ℕ-shl1, shl1-IsInt64}

-- The test `cmp >= 0` of both loops.
pub fits_iff : {x y : Int64} → IsInt64 x → IsInt64 y → nonneg (ucompare x y) ≡ leb (to_ℕ y) (to_ℕ x)
fits_iff v w = ground (arith, ucompare_lem v w)

-- A divisor and a mask scaled up together: `mask` is `2 ^ k` and `divisor` is `d * 2 ^ k`.
pub record Scaled (d k : ℕ) (divisor mask : Int64) : Type 0 where
  pub divisor_ok : IsInt64 divisor
  pub mask_ok : IsInt64 mask
  pub divisor_value : to_ℕ divisor ≡ d * 2 ^ k
  pub mask_value : to_ℕ mask ≡ 2 ^ k

-- The outcome of the first loop: scaled far enough to exceed half the modulus.
pub record IsScaledUp (m d : ℕ) (result : Option (Int64 × Int64)) : Type 0 where
  pub k : ℕ
  pub divisor : Int64
  pub mask : Int64
  pub returns : result ≡ some (divisor, mask)
  pub scaled : Scaled d k divisor mask
  pub short : k < 64
  pub enough : m < 2 * (d * 2 ^ k)

Scaled-double :
    {d k : ℕ} {divisor mask : Int64}
    → Scaled d k divisor mask
    → 0 < d
    → d * 2 ^ k < 2 ^ 63
    → Scaled d (suc k) (shl1 divisor) (shl1 mask)
Scaled-double {d} {k} s hd room =
    let big : 2 ^ k ≤ d * 2 ^ k = grind arith in
    record {
      divisor_ok = shl1-IsInt64 s.divisor_ok;
      mask_ok = shl1-IsInt64 s.mask_ok;
      divisor_value =
          omega
            (arith, to_ℕ-shl1 s.divisor_ok, s.divisor_value, ap (λ (t : ℕ). d * t) (pow-suc 2 k));
      mask_value = omega (arith, to_ℕ-shl1 s.mask_ok, s.mask_value, pow-suc 2 k);
    }

below_of_mul : (d p : ℕ) {b : ℕ} → 0 < d → d * p < b → p < b
below_of_mul d p hd h = grind arith

-- A divisor that reached the modulus before the doubling exceeds half of it afterwards.
stops_enough :
    (k d : ℕ) {modulus divisor mask : Int64}
    → IsInt64 modulus
    → Scaled d k divisor mask
    → nonneg (ucompare divisor modulus) ≡ true
    → 0 < d
    → to_ℕ modulus < 2 * (d * 2 ^ suc k)
stops_enough k d {modulus} {divisor} m s stop hd =
    let reached : to_ℕ modulus ≤ to_ℕ divisor = leb→le _ _ (sym (fits_iff s.divisor_ok m) ∙ stop) in
    let grows : 0 < d * 2 ^ k = grind (arith, pow_pos k) in
    omega (arith, s.divisor_value, ap (λ (t : ℕ). d * t) (pow-suc 2 k))

pub scale_lem :
    (fuel k d : ℕ) {modulus divisor mask : Int64}
    → IsInt64 modulus
    → 0 < d
    → Scaled d k divisor mask
    → k + fuel ≡ 65
    → k < 64
    → IsScaledUp (to_ℕ modulus) d (scale fuel modulus divisor mask)
unfolding scale
scale_lem zero k d m hd s total short = absurd (omega arith)
scale_lem (suc fuel) k d {modulus} {divisor} {mask} m hd s total short =
    elim (Bool-cases (negative32 divisor.h)) [
      | inl large ↦ rw large (record {
        k = k;
        divisor = divisor;
        mask = mask;
        returns = refl;
        scaled = s;
        short = short;
        enough = omega (arith, s.divisor_value, to_ℕ-lt m, leb→le _ _ large);
      })
      | inr small ↦
          let room : d * 2 ^ k < 2 ^ 63 = ground (arith, s.divisor_value) in
          let doubled = Scaled-double s hd room in
          let next : suc k < 64 = omega (arith, lt_of_pow k 63 (below_of_mul d (2 ^ k) hd room)) in
          rw small (elim (Bool-cases (nonneg (ucompare divisor modulus))) [
            | inl stop ↦ rw stop (record {
              k = suc k;
              divisor = shl1 divisor;
              mask = shl1 mask;
              returns = refl;
              scaled = doubled;
              short = next;
              enough = stops_enough k d m s stop hd;
            })
            | inr go ↦ rw go (scale_lem fuel (suc k) d m hd doubled (omega arith) next)
          ])
    ]
