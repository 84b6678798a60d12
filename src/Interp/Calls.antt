-- ===== src/Interp/Calls.antt =====
-- Function application, closures, and the checks on entry to a function.
pub mod Currying
pub mod Special
use ocaml_pro_ocaml_branch.Base.{
  ℕ, zero, suc, ◌+◌, ◌-◌, ◌*◌, ◌/◌, Bool, true, false, Option, none, some, List, [], ◌∷◌, ◌++◌,
  length, get_elem?, drop, take, ltb, leb, ◌==◌, if◌then◌else◌, ◌>>=◌,
}
use ocaml_pro_ocaml_branch.Base.Int.{ℤ, pos, negsuc}
use ocaml_pro_ocaml_branch.Interp.Value.{
  Value, imm, ptr, atom, code, trap_frame, Contents, fields, bytes, doubles, Block, Heap,
  closure_tag, infix_tag, make_header, val_unit, index_val, field, fields_of, alloc, code_val,
  wosize_val,
}
use ocaml_pro_ocaml_branch.Interp.Raise.{raise_exception}
use ocaml_pro_ocaml_branch.Interp.Machine.{
  Machine, Runtime, shared, with_shared, CResult, returned, raised, Outcome, next, stuck, operand,
  natural, offset_pc, skip_operand, push, pop_words, top_words, extra_val,
}

-- Setup_for_event and Restore_after_event save and restore the registers; an exception of
-- caml_process_event goes to raise_exception.
unfoldable pub process_signal : Runtime → Machine → Outcome
unfolding raise_exception
process_signal r m = elim (r.process_event (shared (record m { something_to_do = false }))) [
  | returned v s ↦ next (with_shared s m)
  | raised v s ↦ raise_exception r (record (with_shared s m) { accu = v })
]

-- check_stacks and CHECK_SIGNALS: the stack of the model has no limit.
unfoldable pub check_signals : Runtime → Machine → Outcome
unfolding process_signal
check_signals r m = if m.something_to_do then process_signal r m else next m

abbrev pub checked : Runtime → Option Machine → Outcome
unfolding check_signals
checked r none = stuck
checked r (some m) = check_signals r m

-- `pc = Code_val(accu); env = accu`.
abbrev pub enter : Machine → ℕ → Option Machine
enter m extra = do
  c ← code_val m.heap m.accu
  some (record m { pc = c; env = m.accu; extra_args = extra })

-- The words that PUSH_RETADDR and the short applications leave under the arguments.
abbrev pub return_frame : Machine → ℕ → List Value → List Value
return_frame m pc sp = code pc ∷ m.env ∷ extra_val m ∷ sp

unfoldable pub push_retaddr : Machine → Option Machine
push_retaddr m = do
  d ← operand m
  pc' ← offset_pc m.pc d
  some (record m { sp = return_frame m pc' m.sp; pc = m.pc + 1 })

-- `none` for no argument, where `extra_args` would be -1.
unfoldable pub apply : Runtime → Machine → Outcome
unfolding check_signals
apply r m =
    checked r do nargs ← operand m >>= natural; elim nargs [ zero ↦ none | suc n ↦ enter m n ]

unfoldable pub apply1 : Runtime → Machine → Outcome
unfolding check_signals
apply1 r m =
    checked r do
      arg1 ← get_elem? m.sp 0
      enter (record m { sp = arg1 ∷ return_frame m m.pc (drop 1 m.sp) }) 0

unfoldable pub apply2 : Runtime → Machine → Outcome
unfolding check_signals
apply2 r m = checked r do
  arg1 ← get_elem? m.sp 0
  arg2 ← get_elem? m.sp 1
  enter (record m { sp = arg1 ∷ arg2 ∷ return_frame m m.pc (drop 2 m.sp) }) 1

unfoldable pub apply3 : Runtime → Machine → Outcome
unfolding check_signals
apply3 r m = checked r do
  arg1 ← get_elem? m.sp 0
  arg2 ← get_elem? m.sp 1
  arg3 ← get_elem? m.sp 2
  enter (record m { sp = arg1 ∷ arg2 ∷ arg3 ∷ return_frame m m.pc (drop 3 m.sp) }) 2

-- `sp = sp + slotsize - nargs` and the copy of the arguments; a slot smaller than the arguments, that
-- no compiled code has, is outside the model.
abbrev pub slide : ℕ → ℕ → List Value → Option (List Value)
slide nargs slotsize sp = do
  args ← top_words nargs sp
  rest ← pop_words slotsize sp
  if ltb slotsize nargs then none else some (args ++ rest)

unfoldable pub appterm : Runtime → Machine → Outcome
unfolding check_signals
appterm r m = checked r do
  nargs ← operand m >>= natural
  slotsize ← operand (skip_operand m) >>= natural
  sp' ← slide nargs slotsize m.sp
  elim nargs [ zero ↦ none | suc n ↦ enter (record m { sp = sp' }) (m.extra_args + n) ]

-- The stack of APPTERM1 to APPTERM3: `sp + *pc - n`, then the `n` arguments.
abbrev pub slot_rest : Machine → ℕ → Option (List Value)
slot_rest m n = do
  slotsize ← operand m >>= natural
  rest ← pop_words slotsize m.sp
  if ltb slotsize n then none else some rest

unfoldable pub appterm1 : Runtime → Machine → Outcome
unfolding check_signals
appterm1 r m = checked r do
  arg1 ← get_elem? m.sp 0
  rest ← slot_rest m 1
  enter (record m { sp = arg1 ∷ rest }) m.extra_args

unfoldable pub appterm2 : Runtime → Machine → Outcome
unfolding check_signals
appterm2 r m = checked r do
  arg1 ← get_elem? m.sp 0
  arg2 ← get_elem? m.sp 1
  rest ← slot_rest m 2
  enter (record m { sp = arg1 ∷ arg2 ∷ rest }) (m.extra_args + 1)

unfoldable pub appterm3 : Runtime → Machine → Outcome
unfolding check_signals
appterm3 r m = checked r do
  arg1 ← get_elem? m.sp 0
  arg2 ← get_elem? m.sp 1
  arg3 ← get_elem? m.sp 2
  rest ← slot_rest m 3
  enter (record m { sp = arg1 ∷ arg2 ∷ arg3 ∷ rest }) (m.extra_args + 2)

-- Back to the caller: sp[0], sp[1] and sp[2].
unfoldable pub return_to_caller : Machine → Option Machine
return_to_caller m = elim m.sp [
  | [] ↦ none
  | v ∷ vs ↦ elim v [
    | code c ↦ elim vs [
      | [] ↦ none
      | env' ∷ ws ↦ elim ws [
        | [] ↦ none
        | x ∷ rest ↦ do
          extra ← index_val x
          some (record m { pc = c; env = env'; extra_args = extra; sp = rest })
      ]
    ]
    | imm w ↦ none
    | ptr b o ↦ none
    | atom t ↦ none
    | trap_frame d ↦ none
  ]
]

unfoldable pub return_op : Machine → Option Machine
return_op m = do
  n ← operand m >>= natural
  sp' ← pop_words n m.sp
  elim m.extra_args [
    | zero ↦ return_to_caller (record m { sp = sp' })
    | suc extra ↦ enter (record m { sp = sp' }) extra
  ]

-- The fields of a closure from the third on: the arguments that RESTART pushes.
unfoldable pub saved_args : Machine → Option (List Value)
saved_args m = do
  size ← wosize_val m.heap m.env
  elim m.env [
    | ptr b o ↦ do
      block ← get_elem? m.heap b
      vs ← fields_of block.contents
      let args = take (size - 2) (drop (o + 2) vs)
      if ltb size 2 then none else if length args == size - 2 then some args else none
    | imm w ↦ none
    | atom t ↦ none
    | code c ↦ none
    | trap_frame d ↦ none
  ]

unfoldable pub restart : Machine → Option Machine
unfolding saved_args
restart m = do
  args ← saved_args m
  env' ← field m.heap m.env 1
  some (record m { sp = args ++ m.sp; env = env'; extra_args = m.extra_args + length args })

-- The allocation of GRAB: `pc - 3` is the RESTART before it.
unfoldable pub partial_application : Machine → Option Machine
partial_application m = do
  args ← top_words (1 + m.extra_args) m.sp
  sp' ← pop_words (1 + m.extra_args) m.sp
  restart_pc ← offset_pc m.pc (negsuc 2)
  let (h, closure) = alloc m.heap closure_tag (fields (code restart_pc ∷ m.env ∷ args))
  return_to_caller (record m { sp = sp'; heap = h; accu = closure })

unfoldable pub grab : Machine → Option Machine
grab m = do
  required ← operand m >>= natural
  let m' = skip_operand m
  let enough = record m' { extra_args = m.extra_args - required }
  if leb required m.extra_args then some enough else partial_application m'

unfoldable pub closure_op : Machine → Option Machine
closure_op m = do
  nvars ← operand m >>= natural
  let m' = skip_operand m
  d ← operand m'
  target ← offset_pc m'.pc d
  let sp' = if ltb 0 nvars then m.accu ∷ m.sp else m.sp
  vars ← top_words nvars sp'
  rest ← pop_words nvars sp'
  let (h, closure) = alloc m.heap closure_tag (fields (code target ∷ vars))
  some (record m { accu = closure; heap = h; sp = rest; pc = m.pc + 2 })

-- The code pointers `pc + pc[i]`.
abbrev pub targets : ℕ → List ℤ → Option (List ℕ)
targets pc [] = some []
targets pc (d ∷ ds) = do c ← offset_pc pc d; cs ← targets pc ds; some (c ∷ cs)

-- The infix headers and code pointers of the functions from the i-th on.
abbrev pub infix_fields : ℕ → List ℕ → List Value
infix_fields i [] = []
infix_fields i (c ∷ cs) = imm (make_header (i * 2) infix_tag) ∷ code c ∷ infix_fields (i + 1) cs

-- The closures pushed, from the i-th on.
abbrev pub push_closures : ℕ → ℕ → List ℕ → List Value → List Value
push_closures b i [] sp = sp
push_closures b i (c ∷ cs) sp = push_closures b (i + 1) cs (ptr b (i * 2) ∷ sp)

unfoldable pub closurerec : Machine → Option Machine
closurerec m = do
  nfuncs ← operand m >>= natural
  nvars ← operand (skip_operand m) >>= natural
  let pc' = m.pc + 2
  let offsets = take nfuncs (drop pc' m.code_area)
  cs ← if length offsets == nfuncs then targets pc' offsets else none
  let sp' = if ltb 0 nvars then m.accu ∷ m.sp else m.sp
  vars ← top_words nvars sp'
  rest ← pop_words nvars sp'
  elim cs [
    | [] ↦ none
    | c ∷ more ↦
        let (h, closure) =
          alloc m.heap closure_tag (fields (code c ∷ infix_fields 1 more ++ vars)) in
        some (record m {
          accu = closure;
          heap = h;
          sp = push_closures (length m.heap) 0 (c ∷ more) rest;
          pc = pc' + nfuncs;
        })
  ]
