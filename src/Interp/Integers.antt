-- ===== src/Interp/Integers.antt =====
-- Integer arithmetic on tagged words, comparisons and conditional branches on them.
pub mod Arithmetic
pub mod Bitwise
use ocaml_pro_ocaml_branch.Base.{
  ℕ, zero, suc, ◌+◌, ◌-◌, ◌*◌, ◌/◌, ◌%◌, ◌^◌, bit_and, bit_or, bit_xor, Bool, true, false, not,
  Option, none, some, List, [], ◌∷◌, get_elem?, drop, ltb, leb, ◌==◌, if◌then◌else◌, ◌>>=◌,
}
use ocaml_pro_ocaml_branch.Base.Int.{ℤ, pos, negsuc, ltb_ℤ}
use ocaml_pro_ocaml_branch.Int64.Value.{signed64}
use ocaml_pro_ocaml_branch.Int64.SignedDivision.{trunc_div, trunc_rem, wrap64}
use ocaml_pro_ocaml_branch.Interp.Value.{
  Value, imm, ptr, atom, code, trap_frame, val_long, long_val, val_unit, val_bool, same_value,
  field, modify,
}
use ocaml_pro_ocaml_branch.Interp.Machine.{
  Machine, Runtime, Outcome, stuck, next, goes_on, operand, natural, skip_operand, branch,
}
use ocaml_pro_ocaml_branch.Interp.Control.{raise_zero_divide}

-- The operations on 64-bit patterns. C rounds a quotient towards zero.
abbrev pub negint : ℕ → ℕ
negint a = (2 ^ 64 + 2 - a) % 2 ^ 64

abbrev pub addint : ℕ → ℕ → ℕ
addint a b = (a + b + 2 ^ 64 - 1) % 2 ^ 64

abbrev pub subint : ℕ → ℕ → ℕ
subint a b = (a + 2 ^ 64 - b + 1) % 2 ^ 64

abbrev pub mulint : ℕ → ℕ → ℕ
mulint a b = val_long (long_val a * long_val b % 2 ^ 64)

abbrev pub divint : ℕ → ℕ → ℕ
divint a b = val_long (wrap64 (trunc_div (signed64 (long_val a)) (signed64 (long_val b))))

abbrev pub modint : ℕ → ℕ → ℕ
modint a b = val_long (wrap64 (trunc_rem (signed64 (long_val a)) (signed64 (long_val b))))

abbrev pub andint : ℕ → ℕ → ℕ
andint a b = bit_and a b

abbrev pub orint : ℕ → ℕ → ℕ
orint a b = bit_or a b

abbrev pub xorint : ℕ → ℕ → ℕ
xorint a b = bit_or (bit_xor a b) 1

abbrev pub lslint : ℕ → ℕ → ℕ
lslint a b = ((a + 2 ^ 64 - 1) % 2 ^ 64 * 2 ^ long_val b % 2 ^ 64 + 1) % 2 ^ 64

abbrev pub lsrint : ℕ → ℕ → ℕ
lsrint a b = bit_or ((a + 2 ^ 64 - 1) % 2 ^ 64 / 2 ^ long_val b) 1

-- `(intnat) w >> s`.
abbrev pub sar64 : ℕ → ℕ → ℕ
sar64 w s = if ltb w (2 ^ 63) then w / 2 ^ s else 2 ^ 64 - 1 - (2 ^ 64 - 1 - w) / 2 ^ s

abbrev pub asrint : ℕ → ℕ → ℕ
asrint a b = bit_or (sar64 ((a + 2 ^ 64 - 1) % 2 ^ 64) (long_val b)) 1

-- The words at the top of the machine: the accumulator and sp[0].
abbrev pub imm_of : Value → Option ℕ
imm_of (imm w) = some w
imm_of (ptr b o) = none
imm_of (atom t) = none
imm_of (code c) = none
imm_of (trap_frame d) = none

-- An operation of the accumulator and the word popped.
unfoldable pub binary : (ℕ → ℕ → ℕ) → Machine → Option Machine
binary op m = do
  a ← imm_of m.accu
  b ← get_elem? m.sp 0 >>= imm_of
  some (record m { accu = imm (op a b); sp = drop 1 m.sp })

unfoldable pub negate : Machine → Option Machine
negate m = do a ← imm_of m.accu; some (record m { accu = imm (negint a) })

-- The shift of a word by its width or more is not defined.
unfoldable pub shift : (ℕ → ℕ → ℕ) → Machine → Option Machine
unfolding binary
shift op m = do b ← get_elem? m.sp 0 >>= imm_of; if ltb (long_val b) 64 then binary op m else none

-- DIVINT and MODINT. The divisor is popped before the exception is raised.
unfoldable pub divide : (ℕ → ℕ → ℕ) → Runtime → Machine → Outcome
unfolding binary raise_zero_divide
divide op r m = elim (get_elem? m.sp 0 >>= imm_of) [
  | none ↦ stuck
  | some b ↦
      if long_val b == 0
      then raise_zero_divide r (record m { sp = drop 1 m.sp })
      else goes_on (binary op m)
]

-- EQ and NEQ compare any words.
unfoldable pub compare_words : (Bool → Bool) → Machine → Option Machine
compare_words tst m = do
  v ← get_elem? m.sp 0
  some (record m { accu = val_bool (tst (same_value m.accu v)); sp = drop 1 m.sp })

-- The order of pointers is not modelled.
unfoldable pub compare_ints : (ℕ → ℕ → Bool) → Machine → Option Machine
compare_ints tst m = do
  a ← imm_of m.accu
  b ← get_elem? m.sp 0 >>= imm_of
  some (record m { accu = val_bool (tst a b); sp = drop 1 m.sp })

-- `<` on `intnat`, and on `uintnat`.
abbrev pub signed_lt : ℕ → ℕ → Bool
signed_lt a b = ltb_ℤ (signed64 a) (signed64 b)

abbrev pub signed_le : ℕ → ℕ → Bool
signed_le a b = not (signed_lt b a)

-- An operand as a `uintnat`.
abbrev pub wrap_operand : ℤ → ℕ
wrap_operand d = wrap64 d

-- BEQ to BUGEINT: `*pc++ tst Long_val(accu)`, on the patterns of both.
unfoldable pub branch_compare : (ℕ → ℕ → Bool) → Machine → Option Machine
unfolding branch
branch_compare tst m = do
  n ← operand m
  a ← imm_of m.accu
  let m' = skip_operand m
  if tst (wrap_operand n) (long_val a) then branch m' else some (skip_operand m')

-- `*pc << 1` is computed in 32 bits.
abbrev pub doubled : ℤ → ℕ
doubled d = let w = wrap64 d * 2 % 2 ^ 32 in if ltb w (2 ^ 31) then w else w + (2 ^ 64 - 2 ^ 32)

unfoldable pub offsetint : Machine → Option Machine
offsetint m = do
  d ← operand m
  a ← imm_of m.accu
  some (record m { accu = imm ((a + doubled d) % 2 ^ 64); pc = m.pc + 1 })

unfoldable pub offsetref : Machine → Option Machine
offsetref m = do
  d ← operand m
  a ← field m.heap m.accu 0 >>= imm_of
  h ← modify m.heap m.accu 0 (imm ((a + doubled d) % 2 ^ 64))
  some (record m { heap = h; accu = val_unit; pc = m.pc + 1 })

-- `Val_long(accu & 1)`; addresses are even.
abbrev pub low_bit : Value → ℕ
low_bit (imm w) = w % 2
low_bit (ptr b o) = 0
low_bit (atom t) = 0
low_bit (code c) = 0
low_bit (trap_frame d) = 0

unfoldable pub isint : Machine → Machine
isint m = record m { accu = imm (val_long (low_bit m.accu)) }

-- `Val_false + Val_true - accu`.
unfoldable pub boolnot : Machine → Option Machine
boolnot m = do a ← imm_of m.accu; some (record m { accu = imm ((2 ^ 64 + 4 - a) % 2 ^ 64) })
