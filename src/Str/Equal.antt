-- ===== src/Str/Equal.antt =====
-- caml_string_equal: the comparison of the words, padding included, is that of the strings.
use ocaml_pro_ocaml_branch.Base.{
  ℕ, zero, suc, ◌*◌, ◌/◌, ◌≡◌, Bool, true, false, ◌&&◌, List, [], ◌∷◌, ◌++◌, length, take, drop,
  ◌==◌, if◌then◌else◌, refl, sym, ap, ap₂, ◌∙◌, arith, length-drop, Bool-cases, inl, inr, subst,
  take-append-drop,
}
use ocaml_pro_ocaml_branch.Base.Buffers.{take-append_exact}
use ocaml_pro_ocaml_branch.Str.{same_bytes, equal_words, string_equal, string_length, word_size}
use ocaml_pro_ocaml_branch.Str.Encoding.{encode, length-encode, string_length-encode}

pub same_bytes_refl : (xs : List ℕ) → same_bytes xs xs ≡ true
same_bytes_refl [] = refl
same_bytes_refl (x ∷ xs) = rw (same_bytes_refl xs) (ground arith)

same_bytes_eq : (xs ys : List ℕ) → same_bytes xs ys ≡ true → xs ≡ ys
same_bytes_eq [] [] h = refl
same_bytes_eq [] (y ∷ ys) h = absurd (ground arith)
same_bytes_eq (x ∷ xs) [] h = absurd (ground arith)
same_bytes_eq (x ∷ xs) (y ∷ ys) h =
    let both = and_both (x == y) (same_bytes xs ys) h in
    ap₂ (λ (b : ℕ) (ws : List ℕ). b ∷ ws) (ground (arith, both.0)) (same_bytes_eq xs ys both.1)
  where
    and_both : (t u : Bool) → t && u ≡ true → (t ≡ true) × (u ≡ true)
    and_both true u k = (refl, k)
    and_both false u k = absurd (ground arith)

equal_words_refl : (sz : ℕ) (xs : List ℕ) → equal_words sz xs xs ≡ true
unfolding equal_words
equal_words_refl zero xs = refl
equal_words_refl (suc sz) xs =
    rw (same_bytes_refl (take word_size xs), equal_words_refl sz (drop word_size xs)) refl

no_bytes : (xs : List ℕ) → length xs ≡ 0 → xs ≡ []
no_bytes [] e = refl
no_bytes (x ∷ xs) e = absurd (omega arith)

equal_words_eq :
    (sz : ℕ) (xs ys : List ℕ)
    → length xs ≡ sz * 8
    → length ys ≡ sz * 8
    → equal_words sz xs ys ≡ true
    → xs ≡ ys
unfolding equal_words
equal_words_eq zero xs ys l l' h =
    no_bytes xs (omega (arith, l)) ∙ sym (no_bytes ys (omega (arith, l')))
equal_words_eq (suc sz) xs ys l l' h =
    elim (Bool-cases (same_bytes (take word_size xs) (take word_size ys))) [
      | inl e ↦
          sym (take-append-drop 8 xs)
          ∙ ap₂ (λ (us vs : List ℕ). us ++ vs) (same_bytes_eq (take 8 xs) (take 8 ys) e)
              (equal_words_eq sz (drop 8 xs) (drop 8 ys) (omega (arith, l, length-drop {0} 8 xs))
                (omega (arith, l', length-drop {0} 8 ys)) (rw e at h))
          ∙ take-append-drop 8 ys
      | inr e ↦ absurd (ground (arith, rw e at h))
    ]

-- Two strings with the same block are the same.
pub encode_eq : (a b : List ℕ) → encode a ≡ encode b → a ≡ b
unfolding encode
encode_eq a b e =
    let size : length a ≡ length b =
      sym (string_length-encode a) ∙ ap string_length e ∙ string_length-encode b in
    sym (take-append_exact a _ (length a) refl)
    ∙ ap₂ (λ (n : ℕ) (xs : List ℕ). take n xs) size e
    ∙ take-append_exact b _ (length b) refl

Bool-eq : (t u : Bool) → (t ≡ true → u ≡ true) → (u ≡ true → t ≡ true) → t ≡ u
Bool-eq true true k k' = refl
Bool-eq true false k k' = sym (k refl)
Bool-eq false true k k' = k' refl
Bool-eq false false k k' = refl

if-equal :
    (t : Bool) (same : Bool) (x : Bool) (a b : List ℕ)
    → (if same then true else if t then x else false) ≡ true
    → (same ≡ true → a ≡ b)
    → (t ≡ true → x ≡ true → a ≡ b)
    → a ≡ b
if-equal t true x a b h k k' = k refl
if-equal true false x a b h k k' = k' refl h
if-equal false false x a b h k k' = absurd (ground arith)

string_equal_refl : (same : Bool) (xs : List ℕ) → string_equal same xs xs ≡ true
unfolding string_equal
string_equal_refl true xs = refl
string_equal_refl false xs =
    let e : (length xs / 8 == length xs / 8) ≡ true = ground arith in
    rw (e, equal_words_refl (length xs / 8) xs) refl

-- Whether or not the strings have one address, where one address is one string.
pub string_equal-same_bytes :
    (same : Bool) (a b : List ℕ)
    → (same ≡ true → a ≡ b)
    → string_equal same (encode a) (encode b) ≡ same_bytes a b
unfolding string_equal
string_equal-same_bytes same a b one =
    Bool-eq _ _
      (λ h.
        let size_a = length-encode a in
        let size_b = length-encode b in
        let equal : a ≡ b = if-equal _ same _ a b h one (λ e e'. encode_eq a b (
          equal_words_eq (length (encode a) / 8) (encode a) (encode b) (omega (arith, size_a))
            (ground (arith, size_a, size_b, e)) e')) in
        subst (λ (xs : List ℕ). same_bytes a xs ≡ true) equal (same_bytes_refl a))
      (λ h.
        subst (λ (xs : List ℕ). string_equal same (encode a) (encode xs) ≡ true)
          (same_bytes_eq a b h) (string_equal_refl same (encode a)))
