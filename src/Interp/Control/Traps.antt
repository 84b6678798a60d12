-- ===== src/Interp/Control/Traps.antt =====
-- Exception handlers: the trap frame is found again whatever the body left on the stack.
use ocaml_pro_ocaml_branch.Base.{
  ℕ, suc, ◌+◌, ◌-◌, ◌^◌, ◌≤◌, ◌<◌, ◌≡◌, false, some, List, ◌++◌, length, length-append, arith, refl,
  le→leb, lt→leb-false,
}
use ocaml_pro_ocaml_branch.Base.Int.{ℤ}
use ocaml_pro_ocaml_branch.Interp.Value.{Value}
use ocaml_pro_ocaml_branch.Interp.Machine.{Machine, Runtime, next, operand, offset_pc}
use ocaml_pro_ocaml_branch.Interp.Calls.Currying.{index_val-val_long, drop-append}
use ocaml_pro_ocaml_branch.Interp.Raise.{unwind, handle, raise_exception}
use ocaml_pro_ocaml_branch.Interp.Control.{trap_words, pushtrap, pop_trap, poptrap}

module _ (m g : Machine) (handler : ℕ) (above : List Value) (small : m.extra_args < 2 ^ 62)
    (trapped : g.trapsp ≡ length m.sp + 4) (left : g.sp ≡ above ++ trap_words m handler) where
  unwind-above : unwind g ≡ some (trap_words m handler)
  unwind-above =
      rw
        (
          left,
          trapped,
          le→leb (length m.sp + 4) (length (above ++ trap_words m handler)) (omega (arith, size)),
          depth,
          drop-append above (trap_words m handler),
        )
        refl
    where
      size : length (above ++ trap_words m handler) ≡ length above + (length m.sp + 4)
      size = omega (arith, length-append above (trap_words m handler))

      depth : length (above ++ trap_words m handler) - (length m.sp + 4) ≡ length above
      depth = omega (arith, size)

  handle-trap :
      handle g
      ≡ some (record g {
        sp = m.sp;
        pc = handler;
        trapsp = m.trapsp;
        env = m.env;
        extra_args = m.extra_args;
      })
  unfolding handle
  handle-trap = rw (unwind-above, index_val-val_long m.extra_args small) refl

-- PUSHTRAP followed by any run of the body that leaves its trap frame current, with anything above it
-- on the stack, and by RAISE: control is at the handler, with the stack, the environment, the count of
-- extra arguments and the trap pointer of before PUSHTRAP, and the exception in the accumulator,
-- unless the frame is one of the run that this one was called from. Where the body has left the stack
-- at the frame and nothing is pending, POPTRAP restores the stack and the trap pointer.
pub trap_lem :
    (r : Runtime) (m g h : Machine) (d : ℤ) (handler : ℕ) (above : List Value)
    → operand m ≡ some d
    → offset_pc m.pc d ≡ some handler
    → m.extra_args < 2 ^ 62
    → r.initial_sp_offset ≤ length m.sp
    → g.trapsp ≡ length m.sp + 4
    → g.sp ≡ above ++ trap_words m handler
    → h.sp ≡ trap_words m handler
    → h.something_to_do ≡ false
    → (pushtrap m
        ≡ some (record m { sp = trap_words m handler; trapsp = length m.sp + 4; pc = m.pc + 1 }))
      × (raise_exception r g
          ≡ next (record g {
            sp = m.sp;
            pc = handler;
            trapsp = m.trapsp;
            env = m.env;
            extra_args = m.extra_args;
          }))
      × (poptrap r h ≡ next (record h { sp = m.sp; trapsp = m.trapsp }))
unfolding pushtrap raise_exception poptrap pop_trap
trap_lem r m g h d handler above fetched target small entered trapped left popped idle = (
  rw (fetched, target) refl,
  rw
      (
        lt→leb-false g.trapsp r.initial_sp_offset (omega arith),
        handle-trap m g handler above small trapped left,
      )
      refl,
  rw (idle, popped, le→leb 4 (suc (suc (suc (suc (length m.sp))))) (omega arith)) refl,
)
