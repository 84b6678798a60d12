-- ===== src/Tests/Str.antt =====
-- byterun/str.c at fixed inputs.
use ocaml_pro_ocaml_branch.Base.{
  ℕ, ◌≡◌, refl, arith, true, false, none, some, List, [], ◌∷◌, replicate,
}
use ocaml_pro_ocaml_branch.Base.Int.{pos, negsuc}
use ocaml_pro_ocaml_branch.Str.{
  alloc_string, copy_string, string_length, string_get, string_set, same_bytes, equal_words,
  string_equal, string_notequal, memcmp, string_compare, string_lessthan, string_lessequal,
  string_greaterthan, string_greaterequal, fill_string,
}
use ocaml_pro_ocaml_branch.Str.Encoding.{encode}
use ocaml_pro_ocaml_branch.Str.Equal.{string_equal-same_bytes}
use ocaml_pro_ocaml_branch.Str.Order.{lexicographic, string_compare-lexicographic}

abbrev hello : List ℕ
hello = 104 ∷ 101 ∷ 108 ∷ 108 ∷ 111 ∷ []

abbrev help : List ℕ
help = 104 ∷ 101 ∷ 108 ∷ 112 ∷ []

abbrev block : List ℕ
block = 104 ∷ 101 ∷ 108 ∷ 108 ∷ 111 ∷ 0 ∷ 0 ∷ 2 ∷ []

abbrev garbage : List ℕ
garbage = replicate 8 255

copied : copy_string garbage hello ≡ block
unfolding copy_string alloc_string
copied = refl

measured : string_length block ≡ 5
unfolding string_length
measured = refl

read_byte : string_get block (pos 4) ≡ some 111
unfolding string_get string_length
read_byte = refl

read_outside : string_get block (pos 5) ≡ none
unfolding string_get string_length
read_outside = refl

write_outside : string_set block (negsuc 0) 7 ≡ none
unfolding string_set
write_outside = refl

differ : string_notequal false block (encode help) ≡ true
unfolding string_notequal string_equal equal_words encode
differ = refl

before : string_lessthan false block (encode help) ≡ true
unfolding string_lessthan string_compare memcmp string_length encode
before = refl

not_after : string_greaterthan false block (encode help) ≡ false
unfolding string_greaterthan string_lessequal string_compare memcmp string_length encode
not_after = refl

not_at_least : string_greaterequal false block (encode help) ≡ false
unfolding string_greaterequal string_lessthan string_compare memcmp string_length encode
not_at_least = refl

filled : fill_string block 1 2 42 ≡ 104 ∷ 42 ∷ 42 ∷ 108 ∷ 111 ∷ 0 ∷ 0 ∷ 2 ∷ []
unfolding fill_string
filled = refl

string_equal-same_bytes_example :
    string_equal false (encode hello) (encode help) ≡ same_bytes hello help
string_equal-same_bytes_example = string_equal-same_bytes false hello help (λ e. ground arith)

string_compare-lexicographic_example :
    string_compare false (encode hello) (encode help) ≡ lexicographic hello help
string_compare-lexicographic_example =
    string_compare-lexicographic false hello help (λ e. ground arith)
