-- ===== src/Interp/Methods.antt =====
-- The search of a public method by its tag, and its cache in the code.
pub mod Search
pub mod Cache
use ocaml_pro_ocaml_branch.Base.{
  ℕ, zero, suc, ◌+◌, ◌-◌, ◌*◌, ◌/◌, ◌%◌, ◌^◌, bit_and, bit_or, Bool, true, false, Option, none,
  some, List, get_elem?, set, ltb, ◌==◌, if◌then◌else◌, ◌>>=◌,
}
use ocaml_pro_ocaml_branch.Base.Int.{ℤ, pos, negsuc}
use ocaml_pro_ocaml_branch.Int64.SignedDivision.{wrap64}
use ocaml_pro_ocaml_branch.Interp.Value.{Value, imm, Heap, field, set?}
use ocaml_pro_ocaml_branch.Interp.Machine.{Machine, operand, skip_operand, push}
use ocaml_pro_ocaml_branch.Interp.Stack.{val_int}
use ocaml_pro_ocaml_branch.Interp.Integers.{imm_of, signed_lt}

-- `((li + hi) >> 1) | 1`.
abbrev pub middle : ℕ → ℕ → ℕ
middle li hi = bit_or ((li + hi) / 2) 1

-- `while (li < hi)`: the index of the tag, `none` where the rounds run out or a field is no word.
unfoldable pub search_tag : ℕ → Heap → Value → ℕ → ℕ → ℕ → Option ℕ
search_tag zero h meths tag li hi = none
search_tag (suc fuel) h meths tag li hi =
    let mi = middle li hi in
    let below = search_tag fuel h meths tag li (mi - 2) in
    let above = search_tag fuel h meths tag mi hi in
    if ltb li hi
    then elim (field h meths mi >>= imm_of) [
      | none ↦ none
      | some t ↦ if signed_lt tag t then below else above
    ]
    else some li

-- `li = 3, hi = Field(meths, 0)`: the field is the index of the last tag.
unfoldable pub find_tag : Heap → Value → ℕ → Option ℕ
find_tag h meths tag = do hi ← field h meths 0 >>= imm_of; search_tag (suc hi) h meths tag 3 hi

unfoldable pub getdynmet : Machine → Option Machine
getdynmet m = do
  obj ← get_elem? m.sp 0
  meths ← field m.heap obj 0
  tag ← imm_of m.accu
  li ← find_tag m.heap meths tag
  v ← field m.heap meths (li - 1)
  some (record m { accu = v })

-- The value at a byte offset from field `i`; one that is not aligned is outside the model.
abbrev pub field_at : Heap → Value → ℕ → ℕ → Option Value
field_at h v i ofs = if ofs % 8 == 0 then field h v (i + ofs / 8) else none

-- A hit in the cache.
abbrev pub cached : Machine → Value → ℕ → Option Machine
cached m meths ofs = do v ← field_at m.heap meths 2 ofs; some (record m { accu = v; pc = m.pc + 1 })

-- A miss: the search, and the cache filled at `pc`. The byte offset is an `int`.
unfoldable pub search_and_cache : Machine → Value → ℕ → Option Machine
search_and_cache m meths tag = do
  li ← find_tag m.heap meths tag
  code' ← set? m.code_area m.pc (pos ((li - 3) * 8))
  v ← field m.heap meths (li - 1)
  some (record m { accu = v; code_area = code'; pc = m.pc + 1 })

unfoldable pub getpubmet : Machine → Option Machine
getpubmet m = do
  meths ← field m.heap m.accu 0
  n ← operand m
  let tag = val_int n
  let m' = record (push m) { pc = m.pc + 1 }
  cache ← operand m'
  mask ← field m.heap meths 1 >>= imm_of
  let ofs = bit_and (wrap64 cache) mask
  t ← field_at m.heap meths 3 ofs >>= imm_of
  if t == tag then cached m' meths ofs else search_and_cache m' meths tag
