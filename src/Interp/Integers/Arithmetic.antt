-- ===== src/Interp/Integers/Arithmetic.antt =====
-- The operations on tagged words are arithmetic on 63-bit integers.
use ocaml_pro_ocaml_branch.Base.{
  ℕ, ◌+◌, ◌-◌, ◌*◌, ◌%◌, ◌^◌, ◌<◌, ◌≡◌, Bool, true, false, List, ◌∷◌, ◌==◌, ltb, if◌then◌else◌,
  arith, ap₂, refl, ◌∙◌,
}
use ocaml_pro_ocaml_branch.Base.Int.{ℤ, pos, negsuc}
use ocaml_pro_ocaml_branch.Int64.Value.{signed64}
use ocaml_pro_ocaml_branch.Int64.SignedDivision.{trunc_div, trunc_rem, wrap64}
use ocaml_pro_ocaml_branch.Interp.Value.{Value, imm, val_long, long_val}
use ocaml_pro_ocaml_branch.Interp.Machine.{Machine, Runtime, Outcome, next}
use ocaml_pro_ocaml_branch.Interp.Control.{raise_zero_divide}
use ocaml_pro_ocaml_branch.Interp.Integers.{
  negint, addint, subint, mulint, divint, modint, binary, divide,
}

-- The word of the 63-bit pattern `n`.
abbrev pub tagged : ℕ → ℕ
tagged n = n * 2 + 1

abbrev pub signed63 : ℕ → ℤ
signed63 n = if ltb n (2 ^ 62) then pos n else negsuc (2 ^ 63 - n - 1)

abbrev pub wrap63 : ℤ → ℕ
wrap63 (pos n) = n % 2 ^ 63
wrap63 (negsuc n) = 2 ^ 63 - 1 - n % 2 ^ 63

-- Long_val extends the sign.
long_val-tagged :
    (n : ℕ) → n < 2 ^ 63 → long_val (tagged n) ≡ (if ltb n (2 ^ 62) then n else n + 2 ^ 63)
long_val-tagged n h = ground arith

signed64-long_val : (n : ℕ) → n < 2 ^ 63 → signed64 (long_val (tagged n)) ≡ signed63 n
signed64-long_val n h = ground arith

val_long-wrap64 : (z : ℤ) → val_long (wrap64 z) ≡ tagged (wrap63 z)
val_long-wrap64 (pos n) = omega arith
val_long-wrap64 (negsuc n) = omega arith

-- The sign bit is a multiple of 2 ^ 63 in a product.
extended_product :
    (m n : ℕ) (s t : Bool)
    → ((if s then m else m + 2 ^ 63) * (if t then n else n + 2 ^ 63)) % 2 ^ 63 ≡ m * n % 2 ^ 63
extended_product m n true true = refl
extended_product m n true false = omega arith
extended_product m n false true = omega arith
extended_product m n false false = omega arith

module _ (m n : ℕ) (hm : m < 2 ^ 63) (hn : n < 2 ^ 63) where
  mulint-tagged : mulint (tagged m) (tagged n) ≡ tagged (m * n % 2 ^ 63)
  mulint-tagged = omega (
    arith,
    extended_product m n (ltb m (2 ^ 62)) (ltb n (2 ^ 62)),
    ap₂ (λ (a b : ℕ). a * b) (long_val-tagged m hm) (long_val-tagged n hn),
  )

  -- On the words of two 63-bit patterns NEGINT, ADDINT, SUBINT and MULINT compute the negation, the
  -- sum, the difference and the product modulo 2 ^ 63.
  pub ring63_lem :
      (negint (tagged m) ≡ tagged ((2 ^ 63 - m) % 2 ^ 63))
      × (addint (tagged m) (tagged n) ≡ tagged ((m + n) % 2 ^ 63))
      × (subint (tagged m) (tagged n) ≡ tagged ((m + 2 ^ 63 - n) % 2 ^ 63))
      × (mulint (tagged m) (tagged n) ≡ tagged (m * n % 2 ^ 63))
  ring63_lem = (omega arith, omega arith, omega arith, mulint-tagged)

  divint-tagged :
      divint (tagged m) (tagged n) ≡ tagged (wrap63 (trunc_div (signed63 m) (signed63 n)))
  divint-tagged =
      val_long-wrap64 _
      ∙ ap₂ (λ (a b : ℤ). tagged (wrap63 (trunc_div a b))) (signed64-long_val m hm)
          (signed64-long_val n hn)

  modint-tagged :
      modint (tagged m) (tagged n) ≡ tagged (wrap63 (trunc_rem (signed63 m) (signed63 n)))
  modint-tagged =
      val_long-wrap64 _
      ∙ ap₂ (λ (a b : ℤ). tagged (wrap63 (trunc_rem a b))) (signed64-long_val m hm)
          (signed64-long_val n hn)

  divisor_test : long_val (tagged n) == 0 ≡ (n == 0)
  divisor_test = ground (arith, long_val-tagged n hn)

  -- The stack and the accumulator of a division.
  abbrev pub dividing : Machine → List Value → Machine
  dividing g rest = record g { accu = imm (tagged m); sp = imm (tagged n) ∷ rest }

  abbrev pub divided : Machine → List Value → ℤ → Outcome
  divided g rest q = next (record g { accu = imm (tagged (wrap63 q)); sp = rest })

  divide-tagged :
      (op : ℕ → ℕ → ℕ) (q : ℤ) (r : Runtime) (g : Machine) (rest : List Value)
      → op (tagged m) (tagged n) ≡ tagged (wrap63 q)
      → divide op r (dividing g rest) ≡ (
          if n == 0
          then raise_zero_divide r (record g { accu = imm (tagged m); sp = rest })
          else divided g rest q)
  unfolding divide binary
  divide-tagged op q r g rest e = rw (divisor_test, e) refl

  -- On the words of two 63-bit patterns, with the divisor at the top of the stack, DIVINT and MODINT
  -- raise Division_by_zero where the divisor is zero, with it popped, and otherwise give the quotient
  -- and the remainder of the signed integers, rounded towards zero, modulo 2 ^ 63.
  pub division63_lem :
      (r : Runtime) (g : Machine) (rest : List Value)
      → let raises = raise_zero_divide r (record g { accu = imm (tagged m); sp = rest }) in
        (divide divint r (dividing g rest)
          ≡ (if n == 0 then raises else divided g rest (trunc_div (signed63 m) (signed63 n))))
        × (divide modint r (dividing g rest)
            ≡ (if n == 0 then raises else divided g rest (trunc_rem (signed63 m) (signed63 n))))
  division63_lem r g rest =
      (divide-tagged divint _ r g rest divint-tagged, divide-tagged modint _ r g rest modint-tagged)
