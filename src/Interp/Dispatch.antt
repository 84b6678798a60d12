-- ===== src/Interp/Dispatch.antt =====
-- The table of the instructions, in the order of instruct.h, and the loop of the interpreter.
use ocaml_pro_ocaml_branch.Base.{
  ℕ, zero, suc, ◌+◌, not, Option, none, some, List, [], ◌∷◌, ◌++◌, get_elem?, ltb, leb, ◌==◌, ◌>>=◌,
}
use ocaml_pro_ocaml_branch.Base.Int.{pos, negsuc}
use ocaml_pro_ocaml_branch.Interp.Value.{imm, atom}
use ocaml_pro_ocaml_branch.Interp.Machine.{
  Machine, Runtime, Outcome, next, stopped, exception_result, stuck, goes_on, operand, natural,
  branch, push,
}
use ocaml_pro_ocaml_branch.Interp.Stack.{
  acc, push_acc, acc_operand, pop, assign, envacc, envacc_operand, offset_closure,
  offset_closure_operand, getglobal, getglobalfield, setglobal, atom0, atom_operand, const,
  constint,
}
use ocaml_pro_ocaml_branch.Interp.Raise.{raise_exception}
use ocaml_pro_ocaml_branch.Interp.Calls.{
  check_signals, push_retaddr, apply, apply1, apply2, apply3, appterm, appterm1, appterm2, appterm3,
  return_op, restart, grab, closure_op, closurerec,
}
use ocaml_pro_ocaml_branch.Interp.Blocks.{
  makeblock, makeblock1, makeblock2, makeblock3, makefloatblock, getfield, getfield_operand,
  getfloatfield, setfield, setfield_operand, setfloatfield, vectlength, getvectitem, setvectitem,
  getstringchar, setstringchar, getmethod,
}
use ocaml_pro_ocaml_branch.Interp.Control.{
  branchif, branchifnot, switch, pushtrap, poptrap, c_call, c_calln, stop_op,
}
use ocaml_pro_ocaml_branch.Interp.Integers.{
  negate, binary, shift, divide, addint, subint, mulint, divint, modint, andint, orint, xorint,
  lslint, lsrint, asrint, compare_words, compare_ints, signed_lt, signed_le, branch_compare,
  offsetint, offsetref, isint, boolnot,
}
use ocaml_pro_ocaml_branch.Interp.Methods.{getpubmet, getdynmet}

abbrev pub Handler : Type 0
Handler = Machine → Outcome

-- An instruction that always goes on, and one that may be stuck.
abbrev total : (Machine → Machine) → Handler
total f m = next (f m)

abbrev partial : (Machine → Option Machine) → Handler
partial f m = goes_on (f m)

-- `*--sp = accu`, then the instruction that it falls through to.
abbrev pushed : (Machine → Option Machine) → Handler
pushed f m = goes_on (f (push m))

abbrev pushed_total : (Machine → Machine) → Handler
pushed_total f m = next (f (push m))

-- EVENT and BREAK stop in the debugger.
abbrev debugger : Handler
debugger m = stuck

-- ACC0 to PUSHENVACC.
abbrev pub stack_instructions : List Handler
stack_instructions =
    partial (acc 0)
    ∷ partial (acc 1)
    ∷ partial (acc 2)
    ∷ partial (acc 3)
    ∷ partial (acc 4)
    ∷ partial (acc 5)
    ∷ partial (acc 6)
    ∷ partial (acc 7)
    ∷ partial acc_operand
    ∷ total push
    ∷ total push
    ∷ partial (push_acc 1)
    ∷ partial (push_acc 2)
    ∷ partial (push_acc 3)
    ∷ partial (push_acc 4)
    ∷ partial (push_acc 5)
    ∷ partial (push_acc 6)
    ∷ partial (push_acc 7)
    ∷ pushed acc_operand
    ∷ partial pop
    ∷ partial assign
    ∷ partial (envacc 1)
    ∷ partial (envacc 2)
    ∷ partial (envacc 3)
    ∷ partial (envacc 4)
    ∷ partial envacc_operand
    ∷ pushed (envacc 1)
    ∷ pushed (envacc 2)
    ∷ pushed (envacc 3)
    ∷ pushed (envacc 4)
    ∷ pushed envacc_operand
    ∷ []

-- PUSH_RETADDR to PUSHOFFSETCLOSURE.
abbrev pub call_instructions : Runtime → List Handler
call_instructions r =
    partial push_retaddr
    ∷ apply r
    ∷ apply1 r
    ∷ apply2 r
    ∷ apply3 r
    ∷ appterm r
    ∷ appterm1 r
    ∷ appterm2 r
    ∷ appterm3 r
    ∷ partial return_op
    ∷ partial restart
    ∷ partial grab
    ∷ partial closure_op
    ∷ partial closurerec
    ∷ partial (offset_closure (negsuc 1))
    ∷ partial (offset_closure (pos 0))
    ∷ partial (offset_closure (pos 2))
    ∷ partial offset_closure_operand
    ∷ pushed (offset_closure (negsuc 1))
    ∷ pushed (offset_closure (pos 0))
    ∷ pushed (offset_closure (pos 2))
    ∷ pushed offset_closure_operand
    ∷ []

-- GETGLOBAL to SETSTRINGCHAR.
abbrev pub block_instructions : List Handler
block_instructions =
    partial getglobal
    ∷ pushed getglobal
    ∷ partial getglobalfield
    ∷ pushed getglobalfield
    ∷ partial setglobal
    ∷ total atom0
    ∷ partial atom_operand
    ∷ pushed_total atom0
    ∷ pushed atom_operand
    ∷ partial makeblock
    ∷ partial makeblock1
    ∷ partial makeblock2
    ∷ partial makeblock3
    ∷ partial makefloatblock
    ∷ partial (getfield 0)
    ∷ partial (getfield 1)
    ∷ partial (getfield 2)
    ∷ partial (getfield 3)
    ∷ partial getfield_operand
    ∷ partial getfloatfield
    ∷ partial (setfield 0)
    ∷ partial (setfield 1)
    ∷ partial (setfield 2)
    ∷ partial (setfield 3)
    ∷ partial setfield_operand
    ∷ partial setfloatfield
    ∷ partial vectlength
    ∷ partial getvectitem
    ∷ partial setvectitem
    ∷ partial getstringchar
    ∷ partial setstringchar
    ∷ []

-- BRANCH to PUSHCONSTINT.
abbrev pub control_instructions : Runtime → List Handler
control_instructions r =
    partial branch
    ∷ partial branchif
    ∷ partial branchifnot
    ∷ partial switch
    ∷ partial boolnot
    ∷ partial pushtrap
    ∷ poptrap r
    ∷ raise_exception r
    ∷ check_signals r
    ∷ c_call 1 r
    ∷ c_call 2 r
    ∷ c_call 3 r
    ∷ c_call 4 r
    ∷ c_call 5 r
    ∷ c_calln r
    ∷ total (const 0)
    ∷ total (const 1)
    ∷ total (const 2)
    ∷ total (const 3)
    ∷ partial constint
    ∷ pushed_total (const 0)
    ∷ pushed_total (const 1)
    ∷ pushed_total (const 2)
    ∷ pushed_total (const 3)
    ∷ pushed constint
    ∷ []

-- NEGINT to BREAK.
abbrev pub integer_instructions : Runtime → List Handler
integer_instructions r =
    partial negate
    ∷ partial (binary addint)
    ∷ partial (binary subint)
    ∷ partial (binary mulint)
    ∷ divide divint r
    ∷ divide modint r
    ∷ partial (binary andint)
    ∷ partial (binary orint)
    ∷ partial (binary xorint)
    ∷ partial (shift lslint)
    ∷ partial (shift lsrint)
    ∷ partial (shift asrint)
    ∷ partial (compare_words (λ t. t))
    ∷ partial (compare_words not)
    ∷ partial (compare_ints signed_lt)
    ∷ partial (compare_ints signed_le)
    ∷ partial (compare_ints (λ a b. signed_lt b a))
    ∷ partial (compare_ints (λ a b. signed_le b a))
    ∷ partial offsetint
    ∷ partial offsetref
    ∷ total isint
    ∷ partial getmethod
    ∷ partial (branch_compare (λ a b. a == b))
    ∷ partial (branch_compare (λ a b. not (a == b)))
    ∷ partial (branch_compare signed_lt)
    ∷ partial (branch_compare signed_le)
    ∷ partial (branch_compare (λ a b. signed_lt b a))
    ∷ partial (branch_compare (λ a b. signed_le b a))
    ∷ partial (compare_ints ltb)
    ∷ partial (compare_ints (λ a b. leb b a))
    ∷ partial (branch_compare ltb)
    ∷ partial (branch_compare (λ a b. leb b a))
    ∷ partial getpubmet
    ∷ partial getdynmet
    ∷ stop_op
    ∷ debugger
    ∷ debugger
    ∷ []

-- `jumptable`.
abbrev pub jumptable : Runtime → List Handler
jumptable r =
    stack_instructions
    ++ call_instructions r
    ++ block_instructions
    ++ control_instructions r
    ++ integer_instructions r

-- One round of the loop: `curr_instr = *pc++`, and its code.
unfoldable pub step : Runtime → Machine → Outcome
step r m = elim (operand m >>= natural) [
  | none ↦ stuck
  | some opcode ↦ elim (get_elem? (jumptable r) opcode) [
    | none ↦ stuck
    | some handler ↦ handler (record m { pc = m.pc + 1 })
  ]
]

-- The loop, for at most `fuel` instructions.
unfoldable pub run : ℕ → Runtime → Machine → Option Outcome
run zero r m = none
run (suc fuel) r m = elim (step r m) [
  | next m' ↦ run fuel r m'
  | stopped v m' ↦ some (stopped v m')
  | exception_result v m' ↦ some (exception_result v m')
  | stuck ↦ some stuck
]

-- The registers on entry, `prog` the start of the code.
unfoldable pub interprete : ℕ → Runtime → ℕ → Machine → Option Outcome
unfolding run
interprete fuel r prog m =
    run fuel r (record m { pc = prog; extra_args = 0; env = atom 0; accu = imm 1 })
