-- ===== src/Tests/Interp.antt =====
-- byterun/interp.c on short programs and machines.
use ocaml_pro_ocaml_branch.Base.{
  ℕ, zero, suc, ◌+◌, ◌-◌, ◌*◌, ◌/◌, ◌%◌, ◌^◌, ◌<◌, ◌≡◌, bit_and, bit_or, bit_xor, true, false,
  Option, none, some, List, [], ◌∷◌, set, ◌==◌, if◌then◌else◌, ◌>>=◌, refl, arith,
}
use ocaml_pro_ocaml_branch.Base.Int.{ℤ, pos, negsuc}
use ocaml_pro_ocaml_branch.Int64.SignedDivision.{trunc_div, trunc_rem}
use ocaml_pro_ocaml_branch.Int64.SignedShift.{floor_div}
use ocaml_pro_ocaml_branch.Interp.Value.{
  Value, imm, ptr, atom, code, fields, Heap, val_unit, field, modify, code_val, index_val,
  wosize_val,
}
use ocaml_pro_ocaml_branch.Interp.Machine.{
  Machine, Runtime, returned, Outcome, next, stopped, exception_result, stuck, branch,
}
use ocaml_pro_ocaml_branch.Interp.Stack.{setglobal, acc, push_acc, constint, const}
use ocaml_pro_ocaml_branch.Interp.Calls.{
  return_frame, enter, check_signals, process_signal, push_retaddr, apply, apply1, apply2, apply3,
  appterm, appterm1, appterm2, appterm3, return_op, return_to_caller, restart, saved_args, grab,
  partial_application, closure_op,
}
use ocaml_pro_ocaml_branch.Interp.Calls.Special.{special_lem}
use ocaml_pro_ocaml_branch.Interp.Calls.Currying.{partial_closure, currying_lem}
use ocaml_pro_ocaml_branch.Interp.Control.{
  trap_words, pushtrap, poptrap, raise_zero_divide, stop_op,
}
use ocaml_pro_ocaml_branch.Interp.Raise.{raise_exception}
use ocaml_pro_ocaml_branch.Interp.Control.Traps.{trap_lem}
use ocaml_pro_ocaml_branch.Interp.Integers.{
  binary, negint, addint, subint, mulint, divint, modint, andint, orint, xorint, lslint, lsrint,
  asrint, signed_lt, divide,
}
use ocaml_pro_ocaml_branch.Interp.Integers.Arithmetic.{
  tagged, signed63, wrap63, ring63_lem, dividing, divided, division63_lem,
}
use ocaml_pro_ocaml_branch.Interp.Integers.Bitwise.{bitwise63_lem}
use ocaml_pro_ocaml_branch.Interp.Methods.{getpubmet}
use ocaml_pro_ocaml_branch.Interp.Methods.Search.{tag_index}
use ocaml_pro_ocaml_branch.Interp.Methods.Cache.{getpubmet-finds}
use ocaml_pro_ocaml_branch.Interp.Blocks.{makeblock1}
use ocaml_pro_ocaml_branch.Interp.Dispatch.{step, run, interprete}

-- No primitive is called.
abbrev runtime : Runtime
runtime = record {
  primitive = λ n args s. returned val_unit s;
  process_event = λ s. returned val_unit s;
  initial_sp_offset = 0;
}

abbrev machine : List ℤ → Machine
machine words = record {
  code_area = words;
  pc = 0;
  sp = [];
  accu = val_unit;
  env = atom 0;
  extra_args = 0;
  trapsp = 0;
  global_data = atom 0;
  heap = [];
  something_to_do = false;
}

result_of : Option Outcome → Option Value
result_of none = none
result_of (some (next m)) = none
result_of (some (stopped v m)) = some v
result_of (some (exception_result v m)) = none
result_of (some stuck) = none

-- CONST3, PUSHCONST2, ADDINT, STOP.
abbrev sum_program : List ℤ
sum_program = pos 102 ∷ pos 106 ∷ pos 110 ∷ pos 143 ∷ []

sum_run : result_of (interprete 10 runtime 0 (machine sum_program)) ≡ some (imm 11)
unfolding result_of interprete run step const binary stop_op
sum_run = refl

-- A subtraction of two arguments, applied to 10, and then the result to 3.
abbrev currying_program : List ℤ
currying_program =
    pos 84
    ∷ pos 9
    ∷ pos 41
    ∷ pos 42
    ∷ pos 1
    ∷ pos 1
    ∷ pos 11
    ∷ pos 111
    ∷ pos 40
    ∷ pos 2
    ∷ pos 43
    ∷ pos 0
    ∷ negsuc 8
    ∷ pos 9
    ∷ pos 31
    ∷ pos 7
    ∷ pos 103
    ∷ pos 10
    ∷ pos 9
    ∷ pos 4
    ∷ pos 32
    ∷ pos 1
    ∷ pos 9
    ∷ pos 31
    ∷ pos 7
    ∷ pos 103
    ∷ pos 3
    ∷ pos 9
    ∷ pos 4
    ∷ pos 32
    ∷ pos 1
    ∷ pos 143
    ∷ []

currying_run : result_of (interprete 40 runtime 0 (machine currying_program)) ≡ some (imm 15)
unfolding result_of interprete run step branch acc push_acc constint binary closure_op push_retaddr
    apply check_signals process_signal grab partial_application return_to_caller restart saved_args
    return_op stop_op code_val field index_val wosize_val
currying_run = refl

-- CONST2, MAKEBLOCK1 0, SETGLOBAL 0, STOP, with one global variable.
abbrev global_program : List ℤ
global_program = pos 101 ∷ pos 63 ∷ pos 0 ∷ pos 57 ∷ pos 0 ∷ pos 143 ∷ []

abbrev global_machine : Machine
global_machine = record (machine global_program) {
  heap = record { tag = 0; contents = fields (val_unit ∷ []) } ∷ [];
  global_data = ptr 0 0;
}

-- The same at the end of the run.
abbrev global_end : Machine
global_end = record global_machine {
  pc = 6;
  heap =
      record { tag = 0; contents = fields (ptr 1 0 ∷ []) }
      ∷ record { tag = 0; contents = fields (imm 5 ∷ []) }
      ∷ [];
}

global_run : interprete 10 runtime 0 global_machine ≡ some (stopped val_unit global_end)
unfolding interprete run step const makeblock1 setglobal modify stop_op
global_run = refl

ring63_lem_example :
    (negint (tagged 5) ≡ tagged ((2 ^ 63 - 5) % 2 ^ 63))
    × (addint (tagged 5) (tagged 9) ≡ tagged ((5 + 9) % 2 ^ 63))
    × (subint (tagged 5) (tagged 9) ≡ tagged ((5 + 2 ^ 63 - 9) % 2 ^ 63))
    × (mulint (tagged 5) (tagged 9) ≡ tagged (5 * 9 % 2 ^ 63))
ring63_lem_example = ring63_lem 5 9 (omega arith) (omega arith)

-- The operands 1, 2 and 3, each followed by a frame of 3 words, and the same at `pc`.
abbrev operands : Machine
operands = machine (pos 3 ∷ pos 1 ∷ pos 3 ∷ pos 2 ∷ pos 3 ∷ pos 3 ∷ pos 3 ∷ [])

division63_lem_example :
    let given = dividing 50 9 (omega arith) (omega arith) operands [] in
    let gives = divided 50 9 (omega arith) (omega arith) operands [] in
    let raises = raise_zero_divide runtime (record operands { accu = imm (tagged 50); sp = [] }) in
    (divide divint runtime given
      ≡ (if 9 == 0 then raises else gives (trunc_div (signed63 50) (signed63 9))))
    × (divide modint runtime given
        ≡ (if 9 == 0 then raises else gives (trunc_rem (signed63 50) (signed63 9))))
division63_lem_example = division63_lem 50 9 (omega arith) (omega arith) runtime operands []

bitwise63_lem_example :
    (andint (tagged 12) (tagged 10) ≡ tagged (bit_and 12 10))
    × (orint (tagged 12) (tagged 10) ≡ tagged (bit_or 12 10))
    × (xorint (tagged 12) (tagged 10) ≡ tagged (bit_xor 12 10))
    × (lslint (tagged 12) (tagged 3) ≡ tagged (12 * 2 ^ 3 % 2 ^ 63))
    × (lsrint (tagged 12) (tagged 3) ≡ tagged (12 / 2 ^ 3))
    × (asrint (tagged 12) (tagged 3) ≡ tagged (wrap63 (floor_div (signed63 12) (2 ^ 3))))
bitwise63_lem_example = bitwise63_lem 12 10 3 (omega arith) (omega arith) (omega arith)

special_lem_example :
    let one = imm 3 ∷ atom 0 ∷ atom 0 ∷ [] in
    let two = imm 3 ∷ imm 5 ∷ atom 0 ∷ atom 0 ∷ [] in
    let three = imm 3 ∷ imm 5 ∷ imm 7 ∷ atom 0 ∷ atom 0 ∷ [] in
    let frame = return_frame operands 0 (atom 0 ∷ atom 0 ∷ []) in
    (apply1 runtime (record operands { sp = one })
      ≡ apply runtime (record operands { pc = 1; sp = imm 3 ∷ frame }))
    × (apply2 runtime (record operands { sp = two })
        ≡ apply runtime (record operands { pc = 3; sp = imm 3 ∷ imm 5 ∷ frame }))
    × (apply3 runtime (record operands { sp = three })
        ≡ apply runtime (record operands { pc = 5; sp = imm 3 ∷ imm 5 ∷ imm 7 ∷ frame }))
    × (appterm1 runtime (record operands { sp = one })
        ≡ appterm runtime (record operands { pc = 1; sp = one }))
    × (appterm2 runtime (record operands { sp = two })
        ≡ appterm runtime (record operands { pc = 3; sp = two }))
    × (appterm3 runtime (record operands { sp = three })
        ≡ appterm runtime (record operands { pc = 5; sp = three }))
special_lem_example =
    special_lem runtime operands 1 3 5 (imm 3) (imm 5) (imm 7) (atom 0 ∷ atom 0 ∷ []) refl refl refl
      refl refl refl

-- A function of three arguments entered with one, and its closure called with two.
abbrev waiting : Machine
waiting = record (machine (pos 143 ∷ pos 41 ∷ pos 42 ∷ pos 2 ∷ [])) {
  pc = 3;
  sp = imm 21 ∷ code 0 ∷ atom 0 ∷ imm 1 ∷ [];
}

abbrev calling : Machine
calling = record waiting {
  sp = imm 7 ∷ imm 9 ∷ [];
  heap = partial_closure 3 (atom 0) (imm 21 ∷ []) ∷ [];
}

currying_lem_example :
    (grab waiting
      ≡ some (record waiting {
        pc = 0;
        env = atom 0;
        extra_args = 0;
        sp = [];
        accu = ptr 0 0;
        heap = partial_closure 3 (atom 0) (imm 21 ∷ []) ∷ [];
      }))
    × ((enter (record calling { accu = ptr 0 0 }) 1 >>= λ entered.
          restart (record entered { pc = entered.pc + 1 }))
        ≡ some (record calling {
          accu = ptr 0 0;
          pc = 2;
          env = atom 0;
          sp = imm 21 ∷ imm 7 ∷ imm 9 ∷ [];
          extra_args = 2;
        }))
currying_lem_example =
    currying_lem waiting calling 2 0 0 1 (atom 0) (imm 21 ∷ []) [] refl (omega arith) refl refl
      (omega arith) (omega arith) refl

-- A handler, and the body with two words on the stack.
abbrev before_trap : Machine
before_trap = record (machine (pos 89 ∷ pos 4 ∷ pos 91 ∷ [])) { pc = 1; sp = imm 33 ∷ [] }

abbrev in_body : Machine
in_body = record before_trap {
  pc = 3;
  trapsp = 5;
  accu = imm 9;
  sp = imm 1 ∷ imm 3 ∷ trap_words before_trap 5;
}

abbrev after_body : Machine
after_body = record in_body { sp = trap_words before_trap 5 }

trap_lem_example :
    (pushtrap before_trap
      ≡ some (record before_trap { sp = trap_words before_trap 5; trapsp = 5; pc = 2 }))
    × (raise_exception runtime in_body
        ≡ next
            (record in_body { sp = imm 33 ∷ []; pc = 5; trapsp = 0; env = atom 0; extra_args = 0 }))
    × (poptrap runtime after_body ≡ next (record after_body { sp = imm 33 ∷ []; trapsp = 0 }))
trap_lem_example =
    trap_lem runtime before_trap in_body after_body (pos 4) 5 (imm 1 ∷ imm 3 ∷ []) refl refl
      (omega arith) (omega arith) refl refl refl refl

-- An object, and its class of two methods of tags 5 and 8; the cache is filled for the other one.
abbrev tags : ℕ → ℕ
tags i = if i == 0 then 11 else 17

abbrev objects : Heap
objects =
    record { tag = 248; contents = fields (ptr 1 0 ∷ []) }
    ∷ record {
      tag = 0;
      contents = fields (imm 5 ∷ imm 31 ∷ code 40 ∷ imm 11 ∷ code 50 ∷ imm 17 ∷ []);
    }
    ∷ []

abbrev sending : Machine
sending = record (machine (pos 141 ∷ pos 8 ∷ pos 0 ∷ [])) { pc = 1 }

tags_stored : (i : ℕ) → i < 2 → field objects (ptr 1 0) (tag_index i) ≡ some (imm (tags i))
unfolding field
tags_stored zero h = refl
tags_stored (suc zero) h = refl
tags_stored (suc (suc i)) h = absurd (omega arith)

tags_increasing : (i j : ℕ) → i < j → j < 2 → signed_lt (tags i) (tags j) ≡ true
tags_increasing zero zero h k = absurd (omega arith)
tags_increasing zero (suc zero) h k = refl
tags_increasing (suc i) (suc zero) h k = absurd (omega arith)
tags_increasing (suc i) zero h k = absurd (omega arith)
tags_increasing i (suc (suc j)) h k = absurd (omega arith)

class_size : field objects (ptr 1 0) 0 ≡ some (imm 5)
unfolding field
class_size = refl

class_mask : field objects (ptr 1 0) 1 ≡ some (imm 31)
unfolding field
class_mask = refl

class_method : field objects (ptr 1 0) 4 ≡ some (code 50)
unfolding field
class_method = refl

object_class : field objects (ptr 0 0) 0 ≡ some (ptr 1 0)
unfolding field
object_class = refl

-- The call fills the cache, and finds the method in it when it is run again.
getpubmet-finds_example :
    let code' = if tags 0 == tags 1 then sending.code_area else set sending.code_area 2 (pos 16) in
    let again = record sending { sp = ptr 0 0 ∷ []; code_area = code' } in
    (getpubmet (record sending { heap = objects; accu = ptr 0 0 })
      ≡ some (record sending {
        heap = objects;
        accu = code 50;
        sp = ptr 0 0 ∷ [];
        pc = 3;
        code_area = code';
      }))
    × (getpubmet (record again { heap = objects; accu = ptr 0 0 })
        ≡ some (record again {
          heap = objects;
          accu = code 50;
          sp = ptr 0 0 ∷ ptr 0 0 ∷ [];
          pc = 3;
          code_area = code';
        }))
getpubmet-finds_example =
    getpubmet-finds objects (ptr 1 0) 2 tags class_size tags_stored tags_increasing 1 (omega arith)
      (code 50) class_method (ptr 0 0) object_class 31 class_mask sending (pos 8) (pos 0) 0
      (ptr 0 0 ∷ []) refl refl refl refl (omega arith) (omega arith) refl
