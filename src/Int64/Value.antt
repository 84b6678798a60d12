-- ===== src/Int64/Value.antt =====
-- What a pair of words stands for: a number below 2 ^ 64, or an integer in two's complement.
use ocaml_pro_ocaml_branch.Base.{
  ℕ, ◌+◌, ◌-◌, ◌*◌, ◌/◌, ◌%◌, ◌^◌, ◌<◌, ◌≡◌, ap₂, arith, ltb, if◌then◌else◌,
}
use ocaml_pro_ocaml_branch.Base.Int.{ℤ, pos, negsuc}
use ocaml_pro_ocaml_branch.Int64.{Int64}

-- Both words are 32-bit patterns.
pub record IsInt64 (x : Int64) : Type 0 where
  pub high : x.h < 2 ^ 32
  pub low : x.l < 2 ^ 32

-- The `uint64` value.
abbrev pub to_ℕ : Int64 → ℕ
to_ℕ x = x.h * 2 ^ 32 + x.l

abbrev pub signed64 : ℕ → ℤ
signed64 n = if ltb n (2 ^ 63) then pos n else negsuc (2 ^ 64 - n - 1)

-- The `int64` value.
abbrev pub to_ℤ : Int64 → ℤ
to_ℤ x = signed64 (to_ℕ x)

abbrev pub of_parts : ℕ → ℕ → Int64
of_parts h l = record { h = h; l = l }

pub to_ℕ-lt : {x : Int64} → IsInt64 x → to_ℕ x < 2 ^ 64
to_ℕ-lt v = omega arith

-- The words are determined by the value.
pub h_of_to_ℕ : {x : Int64} → IsInt64 x → x.h ≡ to_ℕ x / 2 ^ 32
h_of_to_ℕ v = omega arith

pub l_of_to_ℕ : {x : Int64} → IsInt64 x → x.l ≡ to_ℕ x % 2 ^ 32
l_of_to_ℕ v = omega arith

pub to_ℕ-injective : {x y : Int64} → IsInt64 x → IsInt64 y → to_ℕ x ≡ to_ℕ y → x ≡ y
to_ℕ-injective {x} {y} v w e =
    let eh : x.h ≡ y.h = omega arith in let el : x.l ≡ y.l = omega arith in ap₂ of_parts eh el
