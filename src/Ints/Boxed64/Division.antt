-- ===== src/Ints/Boxed64/Division.antt =====
-- The guards of caml_int64_div and caml_int64_mod.
use ocaml_pro_ocaml_branch.Base.{
  ℕ, ◌-◌, ◌^◌, ◌<◌, ◌≡◌, inl, inr, true, false, ◌&&◌, ◌==◌, if◌then◌else◌, Bool-cases, arith, ap,
  refl,
}
use ocaml_pro_ocaml_branch.Int64.{Int64, is_zero, is_min_int, is_minus_one}
use ocaml_pro_ocaml_branch.Int64.Value.{IsInt64, to_ℕ, to_ℤ, signed64}
use ocaml_pro_ocaml_branch.Int64.Bitwise.{tests_lem}
use ocaml_pro_ocaml_branch.Int64.SignedDivision.{
  trunc_div, trunc_rem, wrap64, quotient_lem, remainder_lem,
}
use ocaml_pro_ocaml_branch.Ints.Exception.{ok, raise, zero_divide}
use ocaml_pro_ocaml_branch.Ints.Boxed64.{unboxed, int64_div, int64_mod}

-- The one quotient that does not fit wraps around to the dividend.
quotient_overflow :
    {m n : ℕ} → m ≡ 2 ^ 63 → n ≡ 2 ^ 64 - 1 → m ≡ wrap64 (trunc_div (signed64 m) (signed64 n))
quotient_overflow a b = rw (a, b) refl

remainder_overflow :
    {m n : ℕ} → m ≡ 2 ^ 63 → n ≡ 2 ^ 64 - 1 → 0 ≡ wrap64 (trunc_rem (signed64 m) (signed64 n))
remainder_overflow a b = rw (a, b) refl

module _ {x y : Int64} (v : IsInt64 x) (w : IsInt64 y) where
  guard : (is_min_int x && is_minus_one y) ≡ (to_ℕ x == 2 ^ 63 && to_ℕ y == 2 ^ 64 - 1)
  guard = ground (arith, tests_lem v, tests_lem w)

  zero_test : is_zero y ≡ (to_ℕ y == 0)
  zero_test = ground (arith, tests_lem w)

  -- What the guard finds.
  guarded :
      (to_ℕ x == 2 ^ 63 && to_ℕ y == 2 ^ 64 - 1) ≡ true → (to_ℕ x ≡ 2 ^ 63) × (to_ℕ y ≡ 2 ^ 64 - 1)
  guarded h = (ground arith, ground arith)

  nonzero_pos : (to_ℕ y == 0) ≡ false → 0 < to_ℕ y
  nonzero_pos h = ground arith

  -- caml_int64_div raises Zero_divide exactly for a zero divisor; for every other divisor it returns
  -- the pattern of the quotient rounded towards zero, which for the least integer by minus one, the
  -- one quotient that does not fit, is that of the dividend.
  pub int64_div_lem :
      unboxed (int64_div x y)
      ≡ (if to_ℕ y == 0 then raise zero_divide else ok (wrap64 (trunc_div (to_ℤ x) (to_ℤ y))))
  unfolding int64_div
  int64_div_lem = elim (Bool-cases (to_ℕ y == 0)) [
    | inl zero ↦ rw (zero_test, zero) refl
    | inr nonzero ↦
        rw (zero_test, nonzero, guard)
          (elim (Bool-cases (to_ℕ x == 2 ^ 63 && to_ℕ y == 2 ^ 64 - 1)) [
            | inl least ↦ rw least (let (a, b) = guarded least in ap ok (quotient_overflow a b))
            | inr other ↦
                let q = quotient_lem v w (nonzero_pos nonzero) in
                rw (other, q.returns) (ap ok q.is_value)
          ])
  ]

  -- caml_int64_mod raises Zero_divide exactly for a zero divisor; for every other divisor it returns
  -- the pattern of the remainder with the sign of the dividend, also for the least integer by minus
  -- one.
  pub int64_mod_lem :
      unboxed (int64_mod x y)
      ≡ (if to_ℕ y == 0 then raise zero_divide else ok (wrap64 (trunc_rem (to_ℤ x) (to_ℤ y))))
  unfolding int64_mod
  int64_mod_lem = elim (Bool-cases (to_ℕ y == 0)) [
    | inl zero ↦ rw (zero_test, zero) refl
    | inr nonzero ↦
        rw (zero_test, nonzero, guard)
          (elim (Bool-cases (to_ℕ x == 2 ^ 63 && to_ℕ y == 2 ^ 64 - 1)) [
            | inl least ↦ rw least (let (a, b) = guarded least in ap ok (remainder_overflow a b))
            | inr other ↦
                let q = remainder_lem v w (nonzero_pos nonzero) in
                rw (other, q.returns) (ap ok q.is_value)
          ])
  ]
