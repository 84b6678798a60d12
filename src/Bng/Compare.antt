-- ===== src/Bng/Compare.antt =====
-- Comparison, significant digits, complement and leading zero bits of bng.c.
pub mod Order
pub mod LeadingZeros
use ocaml_pro_ocaml_branch.Base.{
  ℕ, zero, suc, ◌-◌, ◌*◌, ◌/◌, ◌^◌, bit_and, List, map, length, get_or, ltb, ◌==◌, if◌then◌else◌,
}
use ocaml_pro_ocaml_branch.Base.Int.{ℤ, pos, negsuc}
use ocaml_pro_ocaml_branch.Bng.Digit.{base}

abbrev pub digit : List ℕ → ℕ → ℕ
digit a i = get_or a i 0

unfoldable pub complement : List ℕ → List ℕ
complement a = map (λ d. base - 1 - d) a

-- `while (alen > 0 && a[alen-1] == 0) alen--;`
unfoldable pub trim : List ℕ → ℕ → ℕ
trim a zero = 0
trim a (suc n) = let rest = trim a n in if digit a n == 0 then rest else suc n

unfoldable pub num_digits : List ℕ → ℕ → ℕ
num_digits a zero = 1
num_digits a (suc n) = let rest = num_digits a n in if digit a n == 0 then rest else suc n

-- The last loop, from index `n - 1` down.
unfoldable pub compare_digits : List ℕ → List ℕ → ℕ → ℤ
compare_digits a b zero = pos 0
compare_digits a b (suc n) =
    let rest = compare_digits a b n in
    let da = digit a n in
    let db = digit b n in if ltb db da then pos 1 else if ltb da db then negsuc 0 else rest

unfoldable pub compare : List ℕ → List ℕ → ℤ
compare a b =
    let alen = trim a (length a) in
    let blen = trim b (length b) in
    if ltb blen alen then pos 1 else if ltb alen blen then negsuc 0 else compare_digits a b alen

-- One step of bng_leading_zero_bits: `if ((d & mask) != 0) { n -= k; d = d >> k; }`.
pub record Zeros : Type 0 where
  pub n : ℕ
  pub d : ℕ

unfoldable pub narrow : ℕ → ℕ → Zeros → Zeros
narrow mask k s = if bit_and s.d mask == 0 then s else record { n = s.n - k; d = s.d / 2 ^ k }

unfoldable pub leading_zero_bits : ℕ → ℕ
leading_zero_bits d =
    let s = narrow 2 1 (
      narrow 0xC 2 (
        narrow 0xF0 4 (
          narrow 0xFF00 8
            (narrow 0xFFFF0000 16 (narrow 0xFFFFFFFF00000000 32 (record { n = 64; d = d })))))) in
    s.n - s.d
