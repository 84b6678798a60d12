-- ===== src/Interp/Calls/Currying.antt =====
-- A partial application, and its completion.
use ocaml_pro_ocaml_branch.Base.{
  true, ℕ, suc, ◌+◌, ◌-◌, ◌^◌, ◌≤◌, ◌<◌, ◌≡◌, some, List, [], ◌∷◌, ◌++◌, length, length-append,
  get_elem?, take, drop, ltb, ◌==◌, ◌>>=◌, arith, ap, refl, sym, ◌∙◌, false, le→leb, lt→leb-false,
  lt→ltb,
}
use ocaml_pro_ocaml_branch.Base.Int.{pos}
use ocaml_pro_ocaml_branch.Interp.Value.{
  Value, imm, ptr, code, Block, fields, closure_tag, val_long, index_val, field, code_val,
  wosize_val,
}
use ocaml_pro_ocaml_branch.Interp.Machine.{Machine, pop_words, top_words}
use ocaml_pro_ocaml_branch.Interp.Calls.{
  enter, return_to_caller, partial_application, grab, saved_args, restart,
}

take-append : {A : Type 0} (xs ys : List A) → take (length xs) (xs ++ ys) ≡ xs
take-append [] ys = refl
take-append (x ∷ xs) ys = ap (λ (zs : List _). x ∷ zs) (take-append xs ys)

pub drop-append : {A : Type 0} (xs ys : List A) → drop (length xs) (xs ++ ys) ≡ ys
drop-append [] ys = refl
drop-append (x ∷ xs) ys = drop-append xs ys

take-all : {A : Type 0} (xs : List A) → take (length xs) xs ≡ xs
take-all [] = refl
take-all (x ∷ xs) = ap (λ (zs : List _). x ∷ zs) (take-all xs)

pub top_words-append : (xs ys : List Value) → top_words (length xs) (xs ++ ys) ≡ some xs
top_words-append xs ys =
    rw
      (
        le→leb (length xs) (length (xs ++ ys)) (omega (arith, length-append xs ys)),
        take-append xs ys,
      )
      refl

pop_words-append : (xs ys : List Value) → pop_words (length xs) (xs ++ ys) ≡ some ys
pop_words-append xs ys =
    rw
      (
        le→leb (length xs) (length (xs ++ ys)) (omega (arith, length-append xs ys)),
        drop-append xs ys,
      )
      refl

-- Val_long and Long_val of a count.
pub index_val-val_long : (n : ℕ) → n < 2 ^ 62 → index_val (imm (val_long n)) ≡ some n
unfolding index_val
index_val-val_long n h = ground arith

-- The closure that GRAB builds: `pc` is that of the operand of GRAB.
abbrev pub partial_closure : ℕ → Value → List Value → Block
partial_closure pc env args = record {
  tag = closure_tag;
  contents = fields (code (pc - 2) ∷ env ∷ args);
}

module _ (m : Machine) (required c extra : ℕ) (env' : Value) (args rest : List Value)
    (fetched : get_elem? m.code_area m.pc ≡ some (pos required)) (too_few : m.extra_args < required)
    (counted : length args ≡ 1 + m.extra_args)
    (frame : m.sp ≡ args ++ code c ∷ env' ∷ imm (val_long extra) ∷ rest) (preceded : 2 ≤ m.pc)
    (small : extra < 2 ^ 62) where
  grab-partial :
      grab m
      ≡ some (record m {
        pc = c;
        env = env';
        extra_args = extra;
        sp = rest;
        accu = ptr (length m.heap) 0;
        heap = m.heap ++ partial_closure m.pc m.env args ∷ [];
      })
  unfolding grab partial_application return_to_caller
  grab-partial =
      rw
        (
          fetched,
          lt→leb-false required m.extra_args too_few,
          sym counted,
          frame,
          top_words-append args _,
          pop_words-append args _,
          lt→ltb 2 (m.pc + 1) (omega arith),
          back,
          index_val-val_long extra small,
        )
        refl
    where
      back : m.pc + 1 - 3 ≡ m.pc - 2
      back = omega arith

restart-closure :
    (g : Machine) (b pc : ℕ) (env0 : Value) (args : List Value)
    → get_elem? g.heap b ≡ some (partial_closure pc env0 args)
    → restart (record g { env = ptr b 0 })
      ≡ some (record g { env = env0; sp = args ++ g.sp; extra_args = g.extra_args + length args })
unfolding restart saved_args wosize_val field
restart-closure g b pc env0 args h = rw (h, large, counted, take-all args, same) refl
  where
    large : ltb (suc (suc (length args))) 2 ≡ false
    large = ground arith

    counted : suc (suc (length args)) - 2 ≡ length args
    counted = omega arith

    same : (length args == length args) ≡ true
    same = ground arith

code_val-closure :
    (g : Machine) (b pc : ℕ) (env0 : Value) (args : List Value)
    → get_elem? g.heap b ≡ some (partial_closure pc env0 args)
    → code_val g.heap (ptr b 0) ≡ some (pc - 2)
unfolding code_val field
code_val-closure g b pc env0 args h = rw (code_val, h) refl

-- Where a function of `required` more arguments is entered with fewer, its arguments on a return frame
-- and RESTART before GRAB in the code, GRAB returns to the caller with a closure of the environment and
-- the arguments. In any machine where that closure is at its address, entering it with further
-- arguments and running the RESTART it points to leads to the GRAB again, with the arguments of both
-- calls on the stack, the environment of the first, and the count of all arguments.
pub currying_lem :
    (m g : Machine) (required c extra n : ℕ) (env' : Value) (args rest : List Value)
    → get_elem? m.code_area m.pc ≡ some (pos required)
    → m.extra_args < required
    → length args ≡ 1 + m.extra_args
    → m.sp ≡ args ++ code c ∷ env' ∷ imm (val_long extra) ∷ rest
    → 3 ≤ m.pc
    → extra < 2 ^ 62
    → get_elem? g.heap (length m.heap) ≡ some (partial_closure m.pc m.env args)
    → (grab m
        ≡ some (record m {
          pc = c;
          env = env';
          extra_args = extra;
          sp = rest;
          accu = ptr (length m.heap) 0;
          heap = m.heap ++ partial_closure m.pc m.env args ∷ [];
        }))
      × ((enter (record g { accu = ptr (length m.heap) 0 }) n >>= λ entered.
            restart (record entered { pc = entered.pc + 1 }))
          ≡ some (record g {
            accu = ptr (length m.heap) 0;
            pc = m.pc - 1;
            env = m.env;
            sp = args ++ g.sp;
            extra_args = n + length args;
          }))
currying_lem m g required c extra n env' args rest fetched few counted frame preceded small
      closure =
    let pc_value : m.pc - 2 + 1 ≡ m.pc - 1 = omega arith in
    let entered = record g { accu = ptr (length m.heap) 0; pc = m.pc - 2 + 1; extra_args = n } in
    (
      grab-partial m required c extra env' args rest fetched few counted frame (omega arith) small,
      rw (code_val-closure g (length m.heap) m.pc m.env args closure) (
          restart-closure entered (length m.heap) m.pc m.env args closure
          ∙ ap
              (λ (p : ℕ). some (record g {
                accu = ptr (length m.heap) 0;
                pc = p;
                env = m.env;
                sp = args ++ g.sp;
                extra_args = n + length args;
              }))
              pc_value),
    )
