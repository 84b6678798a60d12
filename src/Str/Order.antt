-- ===== src/Str/Order.antt =====
-- caml_string_compare and the tests made of it.
use ocaml_pro_ocaml_branch.Base.{
  ℕ, zero, suc, ◌≡◌, Bool, true, false, List, [], ◌∷◌, ◌++◌, length, ltb, leb, min, if◌then◌else◌,
  refl, sym, ap, ◌∙◌, arith,
}
use ocaml_pro_ocaml_branch.Base.Int.{ℤ, pos, negsuc}
use ocaml_pro_ocaml_branch.Str.{memcmp, settle, string_compare}
use ocaml_pro_ocaml_branch.Str.Encoding.{encode, string_length-encode}

-- The order of lists of bytes, as -1, 0 or 1.
unfoldable pub lexicographic : List ℕ → List ℕ → ℤ
lexicographic [] [] = pos 0
lexicographic [] (y ∷ ys) = negsuc 0
lexicographic (x ∷ xs) [] = pos 1
lexicographic (x ∷ xs) (y ∷ ys) =
    let rest = lexicographic xs ys in if ltb x y then negsuc 0 else if ltb y x then pos 1 else rest

ltb-suc : (m n : ℕ) → ltb (suc m) (suc n) ≡ ltb m n
ltb-suc m n = ground arith

settle-suc : (r : ℤ) (m n : ℕ) → settle r (suc m) (suc n) ≡ settle r m n
settle-suc (negsuc r) m n = refl
settle-suc (pos (suc r)) m n = refl
settle-suc (pos zero) m n = rw (ltb-suc m n, ltb-suc n m) refl

if-settle :
    (t u : Bool) (r : ℤ) (m n : ℕ) (s : ℤ)
    → settle r m n ≡ s
    → settle (if t then negsuc 0 else if u then pos 1 else r) m n
      ≡ (if t then negsuc 0 else if u then pos 1 else s)
if-settle true u r m n s e = refl
if-settle false true r m n s e = refl
if-settle false false r m n s e = e

min-suc : (k m n : ℕ) → k ≡ min (suc m) (suc n) → k ≡ suc (min m n)
min-suc k m n e = omega (arith, e)

-- The bytes in front of what else is in the blocks.
prefix_compare :
    (k : ℕ) (a b p q : List ℕ)
    → k ≡ min (length a) (length b)
    → settle (memcmp k (a ++ p) (b ++ q)) (length a) (length b) ≡ lexicographic a b
unfolding memcmp lexicographic
prefix_compare zero [] [] p q e = refl
prefix_compare zero [] (y ∷ b) p q e = ground arith
prefix_compare zero (x ∷ a) [] p q e = ground arith
prefix_compare zero (x ∷ a) (y ∷ b) p q e = absurd (omega arith)
prefix_compare (suc k) [] b p q e = absurd (omega arith)
prefix_compare (suc k) (x ∷ a) [] p q e = absurd (omega arith)
prefix_compare (suc k) (x ∷ a) (y ∷ b) p q e =
    settle-suc _ (length a) (length b)
    ∙ if-settle (ltb x y) (ltb y x) (memcmp k (a ++ p) (b ++ q)) (length a) (length b)
        (lexicographic a b) (prefix_compare k a b p q (omega (arith, e)))

lexicographic_refl : (xs : List ℕ) → lexicographic xs xs ≡ pos 0
unfolding lexicographic
lexicographic_refl [] = refl
lexicographic_refl (x ∷ xs) =
    let e : ltb x x ≡ false = ground arith in rw (e, lexicographic_refl xs) refl

shorter : (m n : ℕ) → (if leb m n then m else n) ≡ min m n
shorter m n = ground arith

-- Whether or not the strings have one address, where one address is one string.
pub string_compare-lexicographic :
    (same : Bool) (a b : List ℕ)
    → (same ≡ true → a ≡ b)
    → string_compare same (encode a) (encode b) ≡ lexicographic a b
unfolding string_compare encode
string_compare-lexicographic true a b one =
    sym (lexicographic_refl b) ∙ ap (λ (xs : List ℕ). lexicographic xs b) (sym (one refl))
string_compare-lexicographic false a b one =
    rw (string_length-encode a, string_length-encode b)
      (prefix_compare (if leb (length a) (length b) then length a else length b) a b _ _
        (shorter (length a) (length b)))
