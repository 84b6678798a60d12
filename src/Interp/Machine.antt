-- ===== src/Interp/Machine.antt =====
-- The registers of the abstract machine, and what an instruction does to them.
use ocaml_pro_ocaml_branch.Base.{
  ℕ, suc, ◌+◌, ◌-◌, Bool, Option, none, some, List, ◌∷◌, length, get_elem?, drop, take, ltb, leb,
  if◌then◌else◌, ◌>>=◌,
}
use ocaml_pro_ocaml_branch.Base.Int.{ℤ, pos, negsuc}
use ocaml_pro_ocaml_branch.Interp.Value.{Value, imm, Heap, val_long}

-- `sp` is the stack from its top, `code_area` the 32-bit words of the program, `pc` an index in it,
-- and `trapsp` the distance of caml_trapsp from the bottom of the stack.
pub record Machine : Type 0 where
  pub code_area : List ℤ
  pub pc : ℕ
  pub sp : List Value
  pub accu : Value
  pub env : Value
  pub extra_args : ℕ
  pub trapsp : ℕ
  pub global_data : Value
  pub heap : Heap
  pub something_to_do : Bool

-- What C code can change besides its result: the heap, caml_global_data, and caml_something_to_do, that
-- a signal sets.
pub record Shared : Type 0 where
  pub heap : Heap
  pub global_data : Value
  pub something_to_do : Bool

abbrev pub shared : Machine → Shared
shared m = record {
  heap = m.heap;
  global_data = m.global_data;
  something_to_do = m.something_to_do;
}

abbrev pub with_shared : Shared → Machine → Machine
with_shared s m = record m {
  heap = s.heap;
  global_data = s.global_data;
  something_to_do = s.something_to_do;
}

-- What a C function does: it returns a value, or raises an exception.
pub data CResult : Type 0 where
  returned : Value → Shared → CResult
  raised : Value → Shared → CResult

-- What the interpreter calls: the primitives by their number, and caml_process_event, that runs what
-- is pending, the handlers of signals included, whose exceptions it raises (its value is not used); and
-- the depth of the stack where the interpreter was entered.
pub record Runtime : Type 0 where
  pub primitive : ℕ → List Value → Shared → CResult
  pub process_event : Shared → CResult
  pub initial_sp_offset : ℕ

-- The next instruction, the end at STOP, the exception that no handler of this run takes, or `stuck`
-- where the behaviour of the code is not defined or not modelled.
pub data Outcome : Type 0 where
  next : Machine → Outcome
  stopped : Value → Machine → Outcome
  exception_result : Value → Machine → Outcome
  stuck : Outcome

abbrev pub goes_on : Option Machine → Outcome
goes_on none = stuck
goes_on (some m) = next m

-- `*pc`.
abbrev pub operand : Machine → Option ℤ
operand m = get_elem? m.code_area m.pc

-- A number of items; a negative one is outside the model.
abbrev pub natural : ℤ → Option ℕ
natural (pos n) = some n
natural (negsuc n) = none

-- `pc + d`.
abbrev pub offset_pc : ℕ → ℤ → Option ℕ
offset_pc pc (pos n) = some (pc + n)
offset_pc pc (negsuc n) = if ltb n pc then some (pc - suc n) else none

abbrev pub skip_operand : Machine → Machine
skip_operand m = record m { pc = m.pc + 1 }

-- `pc += *pc`.
unfoldable pub branch : Machine → Option Machine
branch m = do d ← operand m; pc' ← offset_pc m.pc d; some (record m { pc = pc' })

-- `*--sp = accu`.
abbrev pub push : Machine → Machine
push m = record m { sp = m.accu ∷ m.sp }

-- `sp += n`; `none` below the bottom of the stack.
abbrev pub pop_words : ℕ → List Value → Option (List Value)
pop_words n sp = if leb n (length sp) then some (drop n sp) else none

-- The `n` words at the top, from sp[0] on.
abbrev pub top_words : ℕ → List Value → Option (List Value)
top_words n sp = if leb n (length sp) then some (take n sp) else none

abbrev pub extra_val : Machine → Value
extra_val m = imm (val_long m.extra_args)
