-- ===== src/Interp/Value.antt =====
-- The values of mlvalues.h on a 64-bit machine, and the heap they point to.
use ocaml_pro_ocaml_branch.Base.{
  ℕ, zero, suc, ◌+◌, ◌*◌, ◌/◌, ◌%◌, ◌^◌, Bool, true, false, ◌&&◌, Option, none, some, List, [], ◌∷◌,
  ◌++◌, length, get_elem?, set, ltb, ◌==◌, if◌then◌else◌, ◌>>=◌,
}

-- A word: an immediate value by its 64-bit pattern, the address of a field of a block (field 0 for
-- the block itself, another for an infix closure), a preallocated block of size 0, a code pointer, or
-- the address of a trap frame by its distance from the bottom of the stack.
pub data Value : Type 0 where
  imm : ℕ → Value
  ptr : ℕ → ℕ → Value
  atom : ℕ → Value
  code : ℕ → Value
  trap_frame : ℕ → Value

-- Fields, the bytes of a string, or the bit patterns of unboxed floats.
pub data Contents : Type 0 where
  fields : List Value → Contents
  bytes : List ℕ → Contents
  doubles : List ℕ → Contents

pub record Block : Type 0 where
  pub tag : ℕ
  pub contents : Contents

abbrev pub Heap : Type 0
Heap = List Block

abbrev pub closure_tag : ℕ
closure_tag = 247

abbrev pub infix_tag : ℕ
infix_tag = 249

abbrev pub double_tag : ℕ
double_tag = 253

abbrev pub double_array_tag : ℕ
double_array_tag = 254

-- Val_long of a number, and of a bit pattern.
abbrev pub val_long : ℕ → ℕ
val_long n = (n * 2 + 1) % 2 ^ 64

-- Long_val on bit patterns: an arithmetic shift.
abbrev pub long_val : ℕ → ℕ
long_val w = if ltb w (2 ^ 63) then w / 2 else w / 2 + 2 ^ 63

abbrev pub val_unit : Value
val_unit = imm 1

abbrev pub val_bool : Bool → Value
val_bool true = imm 3
val_bool false = imm 1

-- Long_val where the result is used as an index or a count; `none` for what is not an integer.
unfoldable pub index_val : Value → Option ℕ
index_val (imm w) = if ltb w (2 ^ 63) then some (w / 2) else none
index_val (ptr b o) = none
index_val (atom t) = none
index_val (code c) = none
index_val (trap_frame d) = none

-- Make_header with the color white.
abbrev pub make_header : ℕ → ℕ → ℕ
make_header wosize tag = wosize * 2 ^ 10 + tag

abbrev pub same_value : Value → Value → Bool
same_value (imm v) (imm w) = v == w
same_value (ptr b o) (ptr b' o') = b == b' && o == o'
same_value (atom s) (atom t) = s == t
same_value (code c) (code c') = c == c'
same_value (trap_frame d) (trap_frame d') = d == d'
same_value v w = false

abbrev pub fields_of : Contents → Option (List Value)
fields_of (fields vs) = some vs
fields_of (bytes cs) = none
fields_of (doubles ds) = none

abbrev pub bytes_of : Contents → Option (List ℕ)
bytes_of (fields vs) = none
bytes_of (bytes cs) = some cs
bytes_of (doubles ds) = none

abbrev pub doubles_of : Contents → Option (List ℕ)
doubles_of (fields vs) = none
doubles_of (bytes cs) = none
doubles_of (doubles ds) = some ds

-- Field(v, i); `none` where the address is outside the block.
unfoldable pub field : Heap → Value → ℕ → Option Value
field h (ptr b o) i = do block ← get_elem? h b; vs ← fields_of block.contents; get_elem? vs (o + i)
field h (imm w) i = none
field h (atom t) i = none
field h (code c) i = none
field h (trap_frame d) i = none

-- A write to one element of a list, `none` out of bounds.
abbrev pub set? {ℓ} : {A : Type ℓ} → List A → ℕ → A → Option (List A)
set? xs i v = if ltb i (length xs) then some (set xs i v) else none

abbrev pub set_contents : Heap → ℕ → Block → Contents → Heap
set_contents h b block c = set h b (record block { contents = c })

-- Field(v, i) = x, by caml_modify, Modify or caml_initialize.
unfoldable pub modify : Heap → Value → ℕ → Value → Option Heap
modify h (ptr b o) i x = do
  block ← get_elem? h b
  vs ← fields_of block.contents
  vs' ← set? vs (o + i) x
  some (set_contents h b block (fields vs'))
modify h (imm w) i x = none
modify h (atom t) i x = none
modify h (code c) i x = none
modify h (trap_frame d) i x = none

-- Alloc_small and caml_alloc_shr: the new block, and its address.
abbrev pub alloc : Heap → ℕ → Contents → Heap × Value
alloc h tag c = (h ++ record { tag = tag; contents = c } ∷ [], ptr (length h) 0)

-- Code_val(v).
unfoldable pub code_val : Heap → Value → Option ℕ
code_val h v = elim (field h v 0) [
  | none ↦ none
  | some w ↦ elim w [
    | code c ↦ some c
    | imm n ↦ none
    | ptr b o ↦ none
    | atom t ↦ none
    | trap_frame d ↦ none
  ]
]

-- The size in words of a block: a word for each float, and strings padded.
abbrev pub wosize_of : Contents → ℕ
wosize_of (fields vs) = length vs
wosize_of (bytes cs) = length cs / 8 + 1
wosize_of (doubles ds) = length ds

-- The header in an infix closure, in the field before it.
abbrev pub infix_header : Heap → ℕ → ℕ → Option ℕ
infix_header h b o = elim (field h (ptr b o) 0) [
  | none ↦ none
  | some w ↦ elim w [
    | imm n ↦ some n
    | code c ↦ none
    | ptr b' o' ↦ none
    | atom t ↦ none
    | trap_frame d ↦ none
  ]
]

unfoldable pub wosize_val : Heap → Value → Option ℕ
wosize_val h (ptr b zero) = do block ← get_elem? h b; some (wosize_of block.contents)
wosize_val h (ptr b (suc o)) = do hd ← infix_header h b o; some (hd / 2 ^ 10)
wosize_val h (atom t) = some 0
wosize_val h (imm w) = none
wosize_val h (code c) = none
wosize_val h (trap_frame d) = none

unfoldable pub tag_val : Heap → Value → Option ℕ
tag_val h (ptr b zero) = do block ← get_elem? h b; some block.tag
tag_val h (ptr b (suc o)) = do hd ← infix_header h b o; some (hd % 2 ^ 8)
tag_val h (atom t) = some t
tag_val h (imm w) = none
tag_val h (code c) = none
tag_val h (trap_frame d) = none

-- Double_val(v) and Double_field(v, i), by bit patterns.
unfoldable pub double_field : Heap → Value → ℕ → Option ℕ
double_field h (ptr b o) i = do
  block ← get_elem? h b
  ds ← doubles_of block.contents
  get_elem? ds (o + i)
double_field h (imm w) i = none
double_field h (atom t) i = none
double_field h (code c) i = none
double_field h (trap_frame d) i = none
