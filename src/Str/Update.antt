-- ===== src/Str/Update.antt =====
-- caml_string_get, caml_string_set, caml_blit_string and caml_fill_string.
use ocaml_pro_ocaml_branch.Base.{
  ℕ, zero, suc, ◌%◌, ◌^◌, ◌≤◌, ◌<◌, ◌≡◌, true, false, none, some, List, [], ◌∷◌, ◌++◌, length, set,
  get_or, get_elem?, ltb, leb, if◌then◌else◌, refl, sym, ap, ◌∙◌, arith, length-set, Bool-cases,
  inl, inr,
}
use ocaml_pro_ocaml_branch.Base.Int.{pos, negsuc}
use ocaml_pro_ocaml_branch.Str.{string_get, string_set}
use ocaml_pro_ocaml_branch.Str.Encoding.{encode, padding, string_length-encode}

get_elem?-append :
    (xs ys : List ℕ) (i : ℕ) → i < length xs → get_elem? xs i ≡ some (get_or (xs ++ ys) i 0)
get_elem?-append [] ys i l = absurd (omega arith)
get_elem?-append (x ∷ xs) ys zero l = refl
get_elem?-append (x ∷ xs) ys (suc i) l = get_elem?-append xs ys i (omega arith)

get_elem?_beyond : (xs : List ℕ) (i : ℕ) → length xs ≤ i → get_elem? xs i ≡ none
get_elem?_beyond [] i l = refl
get_elem?_beyond (x ∷ xs) zero l = absurd (omega arith)
get_elem?_beyond (x ∷ xs) (suc i) l = get_elem?_beyond xs i (omega arith)

set-append : (xs ys : List ℕ) (i v : ℕ) → i < length xs → set (xs ++ ys) i v ≡ set xs i v ++ ys
set-append [] ys i v l = absurd (omega arith)
set-append (x ∷ xs) ys zero v l = refl
set-append (x ∷ xs) ys (suc i) v l =
    ap (λ (ws : List ℕ). x ∷ ws) (set-append xs ys i v (omega arith))

-- A change before the padding that keeps the length.
resized : (a b : List ℕ) → length b ≡ length a → b ++ padding (length a) ≡ encode b
unfolding encode
resized a b l = ap (λ n. b ++ padding n) (sym l)

set-encode : (a : List ℕ) (i v : ℕ) → i < length a → set (encode a) i v ≡ encode (set a i v)
unfolding encode
set-encode a i v l =
    set-append a (padding (length a)) i v l ∙ resized a (set a i v) (length-set a i v)

get_lem : (a : List ℕ) (idx : ℕ) → string_get (encode a) (pos idx) ≡ get_elem? a idx
unfolding string_get encode
get_lem a idx = rw (string_length-encode a) (elim (Bool-cases (leb (length a) idx)) [
  | inl e ↦ rw e (sym (get_elem?_beyond a idx (ground arith)))
  | inr e ↦ rw e (sym (get_elem?-append a _ idx (ground arith)))
])

set_lem :
    (a : List ℕ) (idx v : ℕ)
    → string_set (encode a) (pos idx) v
      ≡ (if ltb idx (length a) then some (encode (set a idx (v % 2 ^ 8))) else none)
unfolding string_set
set_lem a idx v = rw (string_length-encode a) (elim (Bool-cases (leb (length a) idx)) [
  | inl e ↦ let e' : ltb idx (length a) ≡ false = ground arith in rw (e, e') refl
  | inr e ↦
      let e' : ltb idx (length a) ≡ true = ground arith in
      rw (e, e') (ap some (set-encode a idx (v % 2 ^ 8) (ground arith)))
])

-- At an index inside the string the byte is read, and written with its low eight bits, the others
-- kept; at any other index caml_array_bound_error is called.
pub access_lem :
    (a : List ℕ) (idx v : ℕ)
    → (string_get (encode a) (pos idx) ≡ get_elem? a idx)
      × (string_set (encode a) (pos idx) v
          ≡ (if ltb idx (length a) then some (encode (set a idx (v % 2 ^ 8))) else none))
      × (string_get (encode a) (negsuc idx) ≡ none)
      × (string_set (encode a) (negsuc idx) v ≡ none)
unfolding string_get string_set
access_lem a idx v = (get_lem a idx, set_lem a idx v, refl, refl)
