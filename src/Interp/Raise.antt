-- ===== src/Interp/Raise.antt =====
-- The label raise_exception: the trap frame that caml_trapsp points to.
use ocaml_pro_ocaml_branch.Base.{
  ℕ, ◌-◌, Option, none, some, List, length, get_elem?, drop, leb, if◌then◌else◌, ◌>>=◌,
}
use ocaml_pro_ocaml_branch.Interp.Value.{Value, imm, ptr, atom, code, trap_frame, index_val}
use ocaml_pro_ocaml_branch.Interp.Machine.{Machine, Runtime, Outcome, exception_result, goes_on}

-- The link of a trap frame.
abbrev pub link_of : Value → Option ℕ
link_of (trap_frame d) = some d
link_of (imm w) = none
link_of (ptr b o) = none
link_of (atom t) = none
link_of (code c) = none

abbrev pub code_of : Value → Option ℕ
code_of (code c) = some c
code_of (imm w) = none
code_of (ptr b o) = none
code_of (atom t) = none
code_of (trap_frame d) = none

-- `sp = caml_trapsp`; `none` where it is above the top of the stack.
abbrev pub unwind : Machine → Option (List Value)
unwind m = if leb m.trapsp (length m.sp) then some (drop (length m.sp - m.trapsp) m.sp) else none

-- The registers from the trap frame.
unfoldable pub handle : Machine → Option Machine
handle m = do
  sp' ← unwind m
  handler ← get_elem? sp' 0 >>= code_of
  link ← get_elem? sp' 1 >>= link_of
  env' ← get_elem? sp' 2
  extra ← get_elem? sp' 3 >>= index_val
  some (record m { sp = drop 4 sp'; pc = handler; trapsp = link; env = env'; extra_args = extra })

-- The stack as it was when the interpreter was entered.
abbrev pub initial_stack : Runtime → Machine → Machine
initial_stack r m = record m { sp = drop (length m.sp - r.initial_sp_offset) m.sp }

-- The label raise_exception: a frame under the depth of entry belongs to another run.
unfoldable pub raise_exception : Runtime → Machine → Outcome
unfolding handle
raise_exception r m =
    if leb m.trapsp r.initial_sp_offset
    then exception_result m.accu (initial_stack r m)
    else goes_on (handle m)
