-- ===== src/Interp/Stack.antt =====
-- Basic stack operations, the environment, the global variables and constants.
use ocaml_pro_ocaml_branch.Base.{
  ℕ, suc, ◌+◌, ◌-◌, ◌*◌, ◌%◌, ◌^◌, Option, none, some, get_elem?, ltb, if◌then◌else◌, ◌>>=◌,
}
use ocaml_pro_ocaml_branch.Base.Int.{ℤ, pos, negsuc}
use ocaml_pro_ocaml_branch.Interp.Value.{
  Value, imm, ptr, atom, code, trap_frame, val_unit, val_long, field, modify, set?,
}
use ocaml_pro_ocaml_branch.Interp.Machine.{Machine, operand, natural, skip_operand, push, pop_words}

-- ACC0 to ACC7.
unfoldable pub acc : ℕ → Machine → Option Machine
acc n m = do v ← get_elem? m.sp n; some (record m { accu = v })

-- PUSHACC1 to PUSHACC7.
unfoldable pub push_acc : ℕ → Machine → Option Machine
unfolding acc
push_acc n m = acc n (push m)

-- ACC.
unfoldable pub acc_operand : Machine → Option Machine
unfolding acc
acc_operand m = do n ← operand m >>= natural; acc n (skip_operand m)

unfoldable pub pop : Machine → Option Machine
pop m = do
  n ← operand m >>= natural
  sp' ← pop_words n m.sp
  some (record m { sp = sp'; pc = m.pc + 1 })

unfoldable pub assign : Machine → Option Machine
assign m = do
  n ← operand m >>= natural
  sp' ← set? m.sp n m.accu
  some (record m { sp = sp'; accu = val_unit; pc = m.pc + 1 })

-- ENVACC1 to ENVACC4.
unfoldable pub envacc : ℕ → Machine → Option Machine
envacc n m = do v ← field m.heap m.env n; some (record m { accu = v })

-- ENVACC.
unfoldable pub envacc_operand : Machine → Option Machine
unfolding envacc
envacc_operand m = do n ← operand m >>= natural; envacc n (skip_operand m)

-- `env + n * sizeof(value)`, an address in the block of the current closure.
unfoldable pub offset_address : Value → ℤ → Option Value
offset_address (ptr b o) (pos n) = some (ptr b (o + n))
offset_address (ptr b o) (negsuc n) = if ltb n o then some (ptr b (o - suc n)) else none
offset_address (imm w) d = none
offset_address (atom t) d = none
offset_address (code c) d = none
offset_address (trap_frame t) d = none

-- OFFSETCLOSUREM2, OFFSETCLOSURE0 and OFFSETCLOSURE2.
unfoldable pub offset_closure : ℤ → Machine → Option Machine
offset_closure d m = do v ← offset_address m.env d; some (record m { accu = v })

-- OFFSETCLOSURE.
unfoldable pub offset_closure_operand : Machine → Option Machine
unfolding offset_closure
offset_closure_operand m = do d ← operand m; offset_closure d (skip_operand m)

unfoldable pub getglobal : Machine → Option Machine
getglobal m = do
  n ← operand m >>= natural
  v ← field m.heap m.global_data n
  some (record m { accu = v; pc = m.pc + 1 })

unfoldable pub getglobalfield : Machine → Option Machine
getglobalfield m = do
  n ← operand m >>= natural
  v ← field m.heap m.global_data n
  let m' = skip_operand m
  i ← operand m' >>= natural
  w ← field m.heap v i
  some (record m { accu = w; pc = m.pc + 2 })

unfoldable pub setglobal : Machine → Option Machine
setglobal m = do
  n ← operand m >>= natural
  h ← modify m.heap m.global_data n m.accu
  some (record m { heap = h; accu = val_unit; pc = m.pc + 1 })

-- ATOM0.
unfoldable pub atom0 : Machine → Machine
atom0 m = record m { accu = atom 0 }

-- ATOM.
unfoldable pub atom_operand : Machine → Option Machine
atom_operand m = do t ← operand m >>= natural; some (record m { accu = atom t; pc = m.pc + 1 })

-- CONST0 to CONST3.
unfoldable pub const : ℕ → Machine → Machine
const n m = record m { accu = imm (val_long n) }

-- Val_int of an operand.
abbrev pub val_int : ℤ → ℕ
val_int (pos n) = (n * 2 + 1) % 2 ^ 64
val_int (negsuc n) = (2 ^ 64 - n * 2 - 1) % 2 ^ 64

-- CONSTINT.
unfoldable pub constint : Machine → Option Machine
constint m = do n ← operand m; some (record m { accu = imm (val_int n); pc = m.pc + 1 })
