-- ===== src/Str/Encoding.antt =====
-- What a block of a string holds: the bytes, zeroes up to the last byte, and their number in it.
use ocaml_pro_ocaml_branch.Base.{
  ℕ, zero, suc, ◌+◌, ◌-◌, ◌*◌, ◌/◌, ◌%◌, ◌^◌, ◌≤◌, ◌≡◌, List, [], ◌∷◌, ◌++◌, length, take, drop,
  set, get_or, replicate, refl, sym, ap, ap₂, ◌∙◌, arith, length-append, length-replicate,
  length-take,
}
use ocaml_pro_ocaml_branch.Base.Buffers.{append_assoc, drop-append_exact, drop-drop}
use ocaml_pro_ocaml_branch.Str.{alloc_string, string_length}

-- The bytes after `len` bytes of a string.
abbrev pub padding : ℕ → List ℕ
padding len = let pad = 7 - len % 8 in replicate pad 0 ++ pad ∷ []

unfoldable pub encode : List ℕ → List ℕ
encode bytes = bytes ++ padding (length bytes)

pub length-encode : (bytes : List ℕ) → length (encode bytes) ≡ (length bytes + 8) / 8 * 8
unfolding encode
length-encode bytes =
    let pad = 7 - length bytes % 8 in
    omega (
      arith,
      length-append {0} bytes (replicate pad 0 ++ pad ∷ []),
      length-append {0} (replicate pad 0) (pad ∷ []),
      length-replicate {0} {A = ℕ} pad 0,
    )

get_or-append_last : (xs : List ℕ) (y n d : ℕ) → n ≡ length xs → get_or (xs ++ y ∷ []) n d ≡ y
get_or-append_last [] y zero d e = refl
get_or-append_last [] y (suc n) d e = absurd (omega arith)
get_or-append_last (x ∷ xs) y zero d e = absurd (omega arith)
get_or-append_last (x ∷ xs) y (suc n) d e = get_or-append_last xs y n d (omega arith)

-- The length is found again.
pub string_length-encode : (bytes : List ℕ) → string_length (encode bytes) ≡ length bytes
unfolding string_length encode
string_length-encode bytes =
    let pad = 7 - length bytes % 8 in
    let size = length-encode bytes in
    let last : get_or (encode bytes) (length (encode bytes) - 1) 0 ≡ pad =
      ap (λ (xs : List ℕ). get_or xs (length (encode bytes) - 1) 0)
        (sym (append_assoc bytes (replicate pad 0) (pad ∷ [])))
      ∙ get_or-append_last (bytes ++ replicate pad 0) pad (length (encode bytes) - 1) 0 (
          omega (
            arith,
            size,
            length-append {0} bytes (replicate pad 0),
            length-replicate {0} {A = ℕ} pad 0,
          )) in
    omega (arith, last, size)

set-append_last : (xs : List ℕ) (y v n : ℕ) → n ≡ length xs → set (xs ++ y ∷ []) n v ≡ xs ++ v ∷ []
set-append_last [] y v zero e = refl
set-append_last [] y v (suc n) e = absurd (omega arith)
set-append_last (x ∷ xs) y v zero e = absurd (omega arith)
set-append_last (x ∷ xs) y v (suc n) e =
    ap (λ (ws : List ℕ). x ∷ ws) (set-append_last xs y v n (omega arith))

drop_beyond : (n : ℕ) (xs : List ℕ) → length xs ≤ n → drop n xs ≡ []
drop_beyond zero [] l = refl
drop_beyond (suc n) [] l = refl
drop_beyond zero (x ∷ xs) l = absurd (omega arith)
drop_beyond (suc n) (x ∷ xs) l = drop_beyond n xs (omega arith)

drop-replicate :
    (k n : ℕ) (a : ℕ) (rest : List ℕ)
    → k ≤ n
    → drop k (replicate n a ++ rest) ≡ replicate (n - k) a ++ rest
drop-replicate zero n a rest l = ap (λ i. replicate i a ++ rest) (omega arith)
drop-replicate (suc k) zero a rest l = absurd (omega arith)
drop-replicate (suc k) (suc n) a rest l =
    drop-replicate k n a rest (omega arith) ∙ ap (λ i. replicate i a ++ rest) (omega arith)

-- The last word that caml_alloc_string writes.
module _ (memory : List ℕ) (len : ℕ) (size : length memory ≡ (len + 8) / 8 * 8) where
  abbrev start : ℕ
  start = ((len + 8) / 8 - 1) * 8

  abbrev pad : ℕ
  pad = 7 - len % 8

  alloc_string_lem : alloc_string memory len ≡ take start memory ++ (replicate 7 0 ++ pad ∷ [])
  unfolding alloc_string
  alloc_string_lem =
      let t = take start memory in
      let zeroes = replicate {A = ℕ} 7 0 in
      let offset_index = (len + 8) / 8 * 8 - 1 in
      let v = (offset_index - len) % 2 ^ 8 in
      let at : offset_index ≡ length (t ++ zeroes) =
        omega (arith, size, length-append {0} t zeroes, length-take {0} start memory) in
      let v_pad : v ≡ pad = omega arith in
      ap (λ (xs : List ℕ). set (t ++ (replicate 8 0 ++ xs)) offset_index v)
        (drop_beyond (start + 8) memory (omega (arith, size)))
      ∙ ap (λ (xs : List ℕ). set xs offset_index v) (sym (append_assoc t zeroes (0 ∷ [])))
      ∙ set-append_last (t ++ zeroes) 0 v offset_index at
      ∙ append_assoc t zeroes (v ∷ [])
      ∙ ap (λ k. t ++ (zeroes ++ k ∷ [])) v_pad

  pub length-alloc_string : length (alloc_string memory len) ≡ (len + 8) / 8 * 8
  length-alloc_string =
      ap length alloc_string_lem
      ∙ omega (
        arith,
        size,
        length-append {0} (take start memory) (replicate 7 0 ++ pad ∷ []),
        length-take {0} start memory,
      )

  pub drop-alloc_string : drop len (alloc_string memory len) ≡ replicate pad 0 ++ pad ∷ []
  drop-alloc_string =
      let t = take start memory in
      let rest = replicate {A = ℕ} 7 0 ++ pad ∷ [] in
      let k = len % 8 in
      let parts : len ≡ start + k = omega arith in
      ap₂ (λ (i : ℕ) (xs : List ℕ). drop i xs) parts alloc_string_lem
      ∙ sym (drop-drop start k (t ++ rest))
      ∙ ap (drop k)
          (drop-append_exact t rest start (omega (arith, size, length-take {0} start memory)))
      ∙ drop-replicate k 7 0 (pad ∷ []) (omega arith)
