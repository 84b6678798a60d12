-- ===== src/Interp/Blocks.antt =====
-- Allocation of blocks, access to their components, arrays and strings.
use ocaml_pro_ocaml_branch.Base.{
  ℕ, zero, suc, ◌+◌, ◌-◌, ◌%◌, ◌^◌, Option, none, some, List, [], ◌∷◌, get_elem?, drop, ltb,
  if◌then◌else◌, ◌>>=◌,
}
use ocaml_pro_ocaml_branch.Interp.Value.{
  Value, imm, ptr, atom, code, trap_frame, fields, bytes, doubles, Block, Heap, double_tag,
  double_array_tag, val_long, long_val, val_unit, index_val, field, modify, set?, set_contents,
  alloc, wosize_val, double_field, bytes_of, doubles_of,
}
use ocaml_pro_ocaml_branch.Interp.Machine.{
  Machine, operand, natural, skip_operand, pop_words, top_words,
}

abbrev pub make_block : Machine → ℕ → List Value → List Value → Machine
make_block m tag vs sp =
    let (h, block) = alloc m.heap tag (fields vs) in record m { accu = block; heap = h; sp = sp }

-- Both ways of allocating give the same block; a size of 0 would write outside it.
unfoldable pub makeblock : Machine → Option Machine
makeblock m = do
  wosize ← operand m >>= natural
  let m' = skip_operand m
  tag ← operand m' >>= natural
  vs ← top_words (wosize - 1) m.sp
  sp' ← pop_words (wosize - 1) m.sp
  if ltb 0 wosize then some (make_block (skip_operand m') tag (m.accu ∷ vs) sp') else none

unfoldable pub makeblock1 : Machine → Option Machine
makeblock1 m = do
  tag ← operand m >>= natural
  some (make_block (skip_operand m) tag (m.accu ∷ []) m.sp)

unfoldable pub makeblock2 : Machine → Option Machine
makeblock2 m = do
  tag ← operand m >>= natural
  v ← get_elem? m.sp 0
  some (make_block (skip_operand m) tag (m.accu ∷ v ∷ []) (drop 1 m.sp))

unfoldable pub makeblock3 : Machine → Option Machine
makeblock3 m = do
  tag ← operand m >>= natural
  v ← get_elem? m.sp 0
  w ← get_elem? m.sp 1
  some (make_block (skip_operand m) tag (m.accu ∷ v ∷ w ∷ []) (drop 2 m.sp))

-- Double_val of each value.
abbrev pub unboxed_floats : Heap → List Value → Option (List ℕ)
unboxed_floats h [] = some []
unboxed_floats h (v ∷ vs) = do d ← double_field h v 0; ds ← unboxed_floats h vs; some (d ∷ ds)

unfoldable pub makefloatblock : Machine → Option Machine
makefloatblock m = do
  size ← operand m >>= natural
  vs ← top_words (size - 1) m.sp
  sp' ← pop_words (size - 1) m.sp
  ds ← unboxed_floats m.heap (m.accu ∷ vs)
  let (h, block) = alloc m.heap double_array_tag (doubles ds)
  let m' = record m { accu = block; heap = h; sp = sp'; pc = m.pc + 1 }
  if ltb 0 size then some m' else none

-- GETFIELD0 to GETFIELD3.
unfoldable pub getfield : ℕ → Machine → Option Machine
getfield n m = do v ← field m.heap m.accu n; some (record m { accu = v })

-- GETFIELD.
unfoldable pub getfield_operand : Machine → Option Machine
unfolding getfield
getfield_operand m = do n ← operand m >>= natural; getfield n (skip_operand m)

unfoldable pub getfloatfield : Machine → Option Machine
getfloatfield m = do
  n ← operand m >>= natural
  d ← double_field m.heap m.accu n
  let (h, block) = alloc m.heap double_tag (doubles (d ∷ []))
  some (record m { accu = block; heap = h; pc = m.pc + 1 })

-- The code after the label `modify`: field `n` of the accumulator becomes `v`.
unfoldable pub modify_accu : ℕ → Value → Machine → Option Machine
modify_accu n v m = do h ← modify m.heap m.accu n v; some (record m { heap = h; accu = val_unit })

-- SETFIELD0 to SETFIELD3.
unfoldable pub setfield : ℕ → Machine → Option Machine
unfolding modify_accu
setfield n m = do v ← get_elem? m.sp 0; modify_accu n v (record m { sp = drop 1 m.sp })

-- SETFIELD.
unfoldable pub setfield_operand : Machine → Option Machine
unfolding setfield
setfield_operand m = do n ← operand m >>= natural; setfield n (skip_operand m)

-- Store_double_field.
unfoldable pub store_double : Heap → Value → ℕ → ℕ → Option Heap
store_double h (ptr b o) i d = do
  block ← get_elem? h b
  ds ← doubles_of block.contents
  ds' ← set? ds (o + i) d
  some (set_contents h b block (doubles ds'))
store_double h (imm w) i d = none
store_double h (atom t) i d = none
store_double h (code c) i d = none
store_double h (trap_frame t) i d = none

unfoldable pub setfloatfield : Machine → Option Machine
unfolding store_double
setfloatfield m = do
  n ← operand m >>= natural
  v ← get_elem? m.sp 0
  d ← double_field m.heap v 0
  h ← store_double m.heap m.accu n d
  some (record m { heap = h; accu = val_unit; sp = drop 1 m.sp; pc = m.pc + 1 })

-- Double_wosize is 1 on a 64-bit machine, so the size of an array of floats is not divided.
unfoldable pub vectlength : Machine → Option Machine
vectlength m = do size ← wosize_val m.heap m.accu; some (record m { accu = imm (val_long size) })

unfoldable pub getvectitem : Machine → Option Machine
getvectitem m = do
  i ← get_elem? m.sp 0 >>= index_val
  v ← field m.heap m.accu i
  some (record m { accu = v; sp = drop 1 m.sp })

unfoldable pub setvectitem : Machine → Option Machine
unfolding modify_accu
setvectitem m = do
  i ← get_elem? m.sp 0 >>= index_val
  v ← get_elem? m.sp 1
  modify_accu i v (record m { sp = drop 2 m.sp })

-- The bytes of the string in the accumulator.
abbrev pub string_at : Heap → Value → Option (ℕ × Block × List ℕ)
string_at h (ptr b zero) = do
  block ← get_elem? h b
  cs ← bytes_of block.contents
  some (b, block, cs)
string_at h (ptr b (suc o)) = none
string_at h (imm w) = none
string_at h (atom t) = none
string_at h (code c) = none
string_at h (trap_frame t) = none

unfoldable pub getstringchar : Machine → Option Machine
getstringchar m = do
  i ← get_elem? m.sp 0 >>= index_val
  (b, block, cs) ← string_at m.heap m.accu
  c ← get_elem? cs i
  some (record m { accu = imm (val_long c); sp = drop 1 m.sp })

-- `(unsigned char) Int_val(v)`.
abbrev pub byte_val : Value → Option ℕ
byte_val (imm w) = some (long_val w % 2 ^ 8)
byte_val (ptr b o) = none
byte_val (atom t) = none
byte_val (code c) = none
byte_val (trap_frame t) = none

unfoldable pub setstringchar : Machine → Option Machine
setstringchar m = do
  i ← get_elem? m.sp 0 >>= index_val
  c ← get_elem? m.sp 1 >>= byte_val
  (b, block, cs) ← string_at m.heap m.accu
  cs' ← set? cs i c
  some (record m {
    heap = set_contents m.heap b block (bytes cs');
    sp = drop 2 m.sp;
    accu = val_unit;
  })

unfoldable pub getmethod : Machine → Option Machine
getmethod m = do
  obj ← get_elem? m.sp 0
  meths ← field m.heap obj 0
  lab ← index_val m.accu
  v ← field m.heap meths lab
  some (record m { accu = v })
