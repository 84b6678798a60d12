-- ===== src/Str.antt =====
-- Strings: byterun/str.c, and the allocation of strings in byterun/alloc.c.
pub mod Encoding
pub mod Equal
pub mod Order
pub mod Update
use ocaml_pro_ocaml_branch.Base.{
  ℕ, zero, suc, ◌+◌, ◌-◌, ◌*◌, ◌/◌, ◌%◌, ◌^◌, Bool, true, false, not, ◌&&◌, Option, none, some,
  List, [], ◌∷◌, length, take, drop, set, get_or, replicate, ltb, leb, ◌==◌, if◌then◌else◌,
}
use ocaml_pro_ocaml_branch.Base.Int.{ℤ, pos, negsuc}
use ocaml_pro_ocaml_branch.Base.Buffers.{slice, blit}

-- A string is a block of words, and here the list of its bytes, eight for each word.
-- `sizeof (value)`
abbrev pub word_size : ℕ
word_size = 8

-- `memory` is what the block that is allocated holds, of `wosize` words.
unfoldable pub alloc_string : List ℕ → ℕ → List ℕ
alloc_string memory len =
    let wosize = (len + word_size) / word_size in
    let result = blit memory ((wosize - 1) * word_size) (replicate word_size 0) in
    let offset_index = wosize * word_size - 1 in
    set result offset_index ((offset_index - len) % 2 ^ 8)

-- The C string without its null character.
unfoldable pub copy_string : List ℕ → List ℕ → List ℕ
copy_string memory s = blit (alloc_string memory (length s)) 0 s

unfoldable pub string_length : List ℕ → ℕ
string_length s = let temp = length s - 1 in temp - get_or s temp 0

-- `none` is caml_array_bound_error.
unfoldable pub string_get : List ℕ → ℤ → Option ℕ
string_get str (pos idx) = if leb (string_length str) idx then none else some (get_or str idx 0)
string_get str (negsuc idx) = none

unfoldable pub string_set : List ℕ → ℤ → ℕ → Option (List ℕ)
string_set str (pos idx) newval =
    if leb (string_length str) idx then none else some (set str idx (newval % 2 ^ 8))
string_set str (negsuc idx) newval = none

-- Two words, by their bytes.
abbrev pub same_bytes : List ℕ → List ℕ → Bool
same_bytes [] [] = true
same_bytes [] (y ∷ ys) = false
same_bytes (x ∷ xs) [] = false
same_bytes (x ∷ xs) (y ∷ ys) = (x == y) && same_bytes xs ys

-- The loop on the words, with the number that are left.
unfoldable pub equal_words : ℕ → List ℕ → List ℕ → Bool
equal_words zero p1 p2 = true
equal_words (suc sz) p1 p2 =
    let rest = equal_words sz (drop word_size p1) (drop word_size p2) in
    if same_bytes (take word_size p1) (take word_size p2) then rest else false

-- `same` is the test `s1 == s2` of the addresses.
unfoldable pub string_equal : Bool → List ℕ → List ℕ → Bool
unfolding equal_words
string_equal same s1 s2 =
    let sz1 = length s1 / word_size in
    let sz2 = length s2 / word_size in
    if same then true else if sz1 == sz2 then equal_words sz1 s1 s2 else false

unfoldable pub string_notequal : Bool → List ℕ → List ℕ → Bool
string_notequal same s1 s2 = not (string_equal same s1 s2)

-- memcmp of the C library: the sign of the first difference among `n` bytes.
unfoldable pub memcmp : ℕ → List ℕ → List ℕ → ℤ
memcmp zero xs ys = pos 0
memcmp (suc n) [] ys = pos 0
memcmp (suc n) (x ∷ xs) [] = pos 0
memcmp (suc n) (x ∷ xs) (y ∷ ys) =
    let rest = memcmp n xs ys in if ltb x y then negsuc 0 else if ltb y x then pos 1 else rest

-- After the memcmp: its sign, then the lengths.
abbrev pub settle : ℤ → ℕ → ℕ → ℤ
settle (negsuc r) len1 len2 = negsuc 0
settle (pos (suc r)) len1 len2 = pos 1
settle (pos zero) len1 len2 =
    if ltb len1 len2 then negsuc 0 else if ltb len2 len1 then pos 1 else pos 0

unfoldable pub string_compare : Bool → List ℕ → List ℕ → ℤ
unfolding memcmp
string_compare same s1 s2 =
    let len1 = string_length s1 in
    let len2 = string_length s2 in
    if same then pos 0 else settle (memcmp (if leb len1 len2 then len1 else len2) s1 s2) len1 len2

abbrev pub is_negative : ℤ → Bool
is_negative (pos n) = false
is_negative (negsuc n) = true

abbrev is_zero : ℤ → Bool
is_zero (pos n) = n == 0
is_zero (negsuc n) = false

unfoldable pub string_lessthan : Bool → List ℕ → List ℕ → Bool
string_lessthan same s1 s2 = is_negative (string_compare same s1 s2)

unfoldable pub string_lessequal : Bool → List ℕ → List ℕ → Bool
string_lessequal same s1 s2 =
    let r = string_compare same s1 s2 in if is_negative r then true else is_zero r

unfoldable pub string_greaterthan : Bool → List ℕ → List ℕ → Bool
string_greaterthan same s1 s2 = not (string_lessequal same s1 s2)

unfoldable pub string_greaterequal : Bool → List ℕ → List ℕ → Bool
string_greaterequal same s1 s2 = not (string_lessthan same s1 s2)

-- Int_val(n) is an int of 32 bits; a negative one is a size that memmove cannot have (`none`).
unfoldable pub blit_string : List ℕ → ℕ → List ℕ → ℕ → ℕ → Option (List ℕ)
blit_string s1 ofs1 s2 ofs2 n =
    let size = n % 2 ^ 32 in
    if ltb size (2 ^ 31) then some (blit s2 ofs2 (slice s1 ofs1 size)) else none

unfoldable pub fill_string : List ℕ → ℕ → ℕ → ℕ → List ℕ
fill_string s offset len init = blit s offset (replicate len (init % 2 ^ 8))
