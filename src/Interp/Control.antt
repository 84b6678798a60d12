-- ===== src/Interp/Control.antt =====
-- Branches, exceptions, C calls and the end of a run.
pub mod Traps
use ocaml_pro_ocaml_branch.Base.{
  ℕ, zero, suc, ◌+◌, ◌-◌, ◌*◌, ◌/◌, ◌%◌, ◌^◌, Bool, true, false, not, Option, none, some, List, [],
  ◌∷◌, length, get_elem?, drop, take, ltb, leb, ◌==◌, if◌then◌else◌, ◌>>=◌,
}
use ocaml_pro_ocaml_branch.Base.Int.{ℤ, pos, negsuc}
use ocaml_pro_ocaml_branch.Interp.Value.{
  Value, imm, ptr, atom, code, trap_frame, fields, Heap, val_long, val_unit, index_val, same_value,
  field, alloc, tag_val,
}
use ocaml_pro_ocaml_branch.Interp.Machine.{
  Machine, Runtime, shared, with_shared, CResult, returned, raised, Outcome, next, stopped,
  exception_result, stuck, goes_on, operand, natural, offset_pc, skip_operand, branch, pop_words,
  top_words, extra_val,
}
use ocaml_pro_ocaml_branch.Interp.Calls.{process_signal}
use ocaml_pro_ocaml_branch.Interp.Raise.{link_of, handle, raise_exception}

abbrev pub val_false : Value
val_false = imm 1

unfoldable pub branchif : Machine → Option Machine
unfolding branch
branchif m = if same_value m.accu val_false then some (skip_operand m) else branch m

unfoldable pub branchifnot : Machine → Option Machine
unfolding branch
branchifnot m = if same_value m.accu val_false then branch m else some (skip_operand m)

-- `pc += pc[i]`.
abbrev pub jump_table : Machine → ℕ → Option Machine
jump_table m i = do
  d ← get_elem? m.code_area (m.pc + i)
  pc' ← offset_pc m.pc d
  some (record m { pc = pc' })

-- The operand as a `uint32`.
abbrev pub unsigned32 : ℤ → ℕ
unsigned32 (pos n) = n % 2 ^ 32
unsigned32 (negsuc n) = 2 ^ 32 - 1 - n % 2 ^ 32

unfoldable pub switch : Machine → Option Machine
switch m = do
  sizes ← operand m
  let m' = skip_operand m
  elim m.accu [
    | imm w ↦ do i ← index_val (imm w); jump_table m' i
    | ptr b o ↦ do t ← tag_val m.heap (ptr b o); jump_table m' (unsigned32 sizes % 2 ^ 16 + t)
    | atom t ↦ jump_table m' (unsigned32 sizes % 2 ^ 16 + t)
    | code c ↦ none
    | trap_frame d ↦ none
  ]

-- `pc + *pc`, then caml_trapsp, the environment and the extra arguments.
abbrev pub trap_words : Machine → ℕ → List Value
trap_words m handler = code handler ∷ trap_frame m.trapsp ∷ m.env ∷ extra_val m ∷ m.sp

unfoldable pub pushtrap : Machine → Option Machine
pushtrap m = do
  d ← operand m
  handler ← offset_pc m.pc d
  some (record m { sp = trap_words m handler; trapsp = length m.sp + 4; pc = m.pc + 1 })

unfoldable pub pop_trap : Machine → Option Machine
pop_trap m = do
  link ← get_elem? m.sp 1 >>= link_of
  sp' ← pop_words 4 m.sp
  some (record m { trapsp = link; sp = sp' })

-- With something to do, the instruction starts again after it; what it raises goes to this handler.
unfoldable pub poptrap : Runtime → Machine → Outcome
unfolding process_signal pop_trap
poptrap r m =
    if m.something_to_do
    then process_signal r (record m { pc = m.pc - 1 })
    else goes_on (pop_trap m)

-- The call of a primitive, and the machine without its arguments.
abbrev pub call_primitive : ℕ → Runtime → Machine → Option (CResult × Machine)
call_primitive nargs r m = do
  p ← operand m >>= natural
  args ← top_words (nargs - 1) m.sp
  sp' ← pop_words (nargs - 1) m.sp
  some (r.primitive p (m.accu ∷ args) (shared m), record m { sp = sp'; pc = m.pc + 1 })

-- C_CALL1 to C_CALL5: `nargs` counts the accumulator. An exception unwinds the whole stack.
unfoldable pub c_call : ℕ → Runtime → Machine → Outcome
unfolding raise_exception
c_call nargs r m = elim (call_primitive nargs r m) [
  | none ↦ stuck
  | some called ↦
      let (result, m') = called in
      elim result [
        | returned v s ↦ next (record (with_shared s m') { accu = v })
        | raised v s ↦ raise_exception r (record (with_shared s m) { accu = v })
      ]
]

-- C_CALLN.
unfoldable pub c_calln : Runtime → Machine → Outcome
unfolding c_call
c_calln r m = elim (operand m >>= natural) [
  | none ↦ stuck
  | some nargs ↦ if nargs == 0 then stuck else c_call nargs r (skip_operand m)
]

-- caml_raise_zero_divide: the bucket of the exception of number 5 in the global data.
unfoldable pub raise_zero_divide : Runtime → Machine → Outcome
unfolding raise_exception
raise_zero_divide r m = elim (field m.heap m.global_data 5) [
  | none ↦ stuck
  | some exn ↦
      let (h, bucket) = alloc m.heap 0 (fields (exn ∷ [])) in
      raise_exception r (record m { heap = h; accu = bucket })
]

unfoldable pub stop_op : Machine → Outcome
stop_op m = stopped m.accu m
