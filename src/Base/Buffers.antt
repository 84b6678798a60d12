-- ===== src/Base/Buffers.antt =====
-- The buffer as an array: memmove, and what it leaves.
use ocaml_pro_ocaml_branch.Base.{
  ℕ, zero, suc, ◌+◌, ◌-◌, ◌≤◌, ◌<◌, ◌≡◌, min, List, [], ◌∷◌, ◌++◌, sym, ◌∙◌, length, take, drop,
  refl, ap, arith, length-append, length-take, length-drop, set,
}

add_suc : (i j : ℕ) → suc (i + j) ≡ suc i + j
add_suc i j = omega arith

zero_min : (n : ℕ) → min 0 n ≡ 0
zero_min n = omega arith

min_zero : (n : ℕ) → min n 0 ≡ 0
min_zero n = omega arith

least_suc : (m n : ℕ) → min (suc m) (suc n) ≡ suc (min m n)
least_suc m n = omega arith

sub_zero : (n : ℕ) → n - 0 ≡ n
sub_zero n = omega arith

zero_sub : (n : ℕ) → 0 - n ≡ 0
zero_sub n = omega arith

suc_sub : (n i : ℕ) → n - i ≡ suc n - suc i
suc_sub n i = omega arith

module _ {ℓ} {A : Type ℓ} where
  -- `n` bytes from place `i`.
  abbrev pub slice : List A → ℕ → ℕ → List A
  slice xs i n = take n (drop i xs)

  -- A memmove of the bytes to place `i`.
  abbrev pub blit : List A → ℕ → List A → List A
  blit xs i ys = take i xs ++ (ys ++ drop (i + length ys) xs)

  pub append_assoc : (xs ys zs : List A) → (xs ++ ys) ++ zs ≡ xs ++ (ys ++ zs)
  append_assoc [] ys zs = refl
  append_assoc (x ∷ xs) ys zs = ap (λ (ws : List A). x ∷ ws) (append_assoc xs ys zs)

  pub append_nil : (xs : List A) → xs ++ [] ≡ xs
  append_nil [] = refl
  append_nil (x ∷ xs) = ap (λ (ws : List A). x ∷ ws) (append_nil xs)

  pub length-blit :
      (xs : List A) (i : ℕ) (ys : List A)
      → i + length ys ≤ length xs
      → length (blit xs i ys) ≡ length xs
  length-blit xs i ys h = omega (
    arith,
    length-append {ℓ} (take i xs) (ys ++ drop (i + length ys) xs),
    length-append {ℓ} ys (drop (i + length ys) xs),
    length-take {ℓ} i xs,
    length-drop {ℓ} (i + length ys) xs,
  )

  pub take-append_exact : (xs ys : List A) (n : ℕ) → n ≡ length xs → take n (xs ++ ys) ≡ xs
  take-append_exact [] ys zero h = refl
  take-append_exact [] ys (suc n) h = absurd (omega arith)
  take-append_exact (x ∷ xs) ys zero h = absurd (omega arith)
  take-append_exact (x ∷ xs) ys (suc n) h =
      ap (λ (ws : List A). x ∷ ws) (take-append_exact xs ys n (omega arith))

  pub take-nil : (n : ℕ) → take {A = A} n [] ≡ []
  take-nil zero = refl
  take-nil (suc n) = refl

  pub take-append_before : (xs ys : List A) (n : ℕ) → n ≤ length xs → take n (xs ++ ys) ≡ take n xs
  take-append_before xs ys zero h = refl
  take-append_before [] ys (suc n) h = absurd (omega arith)
  take-append_before (x ∷ xs) ys (suc n) h =
      ap (λ (ws : List A). x ∷ ws) (take-append_before xs ys n (omega arith))

  pub take-take : (n i : ℕ) (xs : List A) → n ≤ i → take n (take i xs) ≡ take n xs
  take-take zero i xs h = refl
  take-take (suc n) zero xs h = absurd (omega arith)
  take-take (suc n) (suc i) [] h = refl
  take-take (suc n) (suc i) (x ∷ xs) h =
      ap (λ (ws : List A). x ∷ ws) (take-take n i xs (omega arith))

  -- The bytes up to the end of what was moved.
  pub take-blit :
      (xs : List A) (i : ℕ) (ys : List A) (n : ℕ)
      → i ≤ length xs
      → n ≡ i + length ys
      → take n (blit xs i ys) ≡ take i xs ++ ys
  take-blit xs i ys n h e =
      ap (take n) (sym (append_assoc (take i xs) ys (drop (i + length ys) xs)))
      ∙ take-append_exact (take i xs ++ ys) (drop (i + length ys) xs) n
          (omega (arith, length-append {ℓ} (take i xs) ys, length-take {ℓ} i xs))

  -- The bytes before it.
  pub take-blit_before :
      (xs : List A) (i : ℕ) (ys : List A) (n : ℕ)
      → n ≤ i
      → i ≤ length xs
      → take n (blit xs i ys) ≡ take n xs
  take-blit_before xs i ys n h e =
      take-append_before (take i xs) (ys ++ drop (i + length ys) xs) n
        (omega (arith, length-take {ℓ} i xs))
      ∙ take-take n i xs h

  pub take-append-drop_rest :
      (i n : ℕ) (xs : List A) → i ≤ n → take i xs ++ take (n - i) (drop i xs) ≡ take n xs
  take-append-drop_rest zero n xs h = ap (λ k. take k xs) (omega arith)
  take-append-drop_rest (suc i) zero xs h = absurd (omega arith)
  take-append-drop_rest (suc i) (suc n) [] h = take-nil _
  take-append-drop_rest (suc i) (suc n) (x ∷ xs) h =
      ap (λ (ws : List A). x ∷ ws)
        (ap (λ k. take i xs ++ take k (drop i xs)) (omega arith)
          ∙ take-append-drop_rest i n xs (omega arith))

  pub drop-nil : (n : ℕ) → drop {A = A} n [] ≡ []
  drop-nil zero = refl
  drop-nil (suc n) = refl

  pub drop-drop : (i j : ℕ) (xs : List A) → drop j (drop i xs) ≡ drop (i + j) xs
  drop-drop zero j xs = ap (λ k. drop k xs) (omega arith)
  drop-drop (suc i) j [] = drop-nil j ∙ sym (drop-nil (suc i + j))
  drop-drop (suc i) j (x ∷ xs) = drop-drop i j xs ∙ ap (λ k. drop k (x ∷ xs)) (add_suc i j)

  pub drop-append_exact : (xs ys : List A) (n : ℕ) → n ≡ length xs → drop n (xs ++ ys) ≡ ys
  drop-append_exact [] ys zero h = refl
  drop-append_exact [] ys (suc n) h = absurd (omega arith)
  drop-append_exact (x ∷ xs) ys zero h = absurd (omega arith)
  drop-append_exact (x ∷ xs) ys (suc n) h = drop-append_exact xs ys n (omega arith)

  pub take-length : (xs : List A) → take (length xs) xs ≡ xs
  take-length [] = refl
  take-length (x ∷ xs) = ap (λ (ws : List A). x ∷ ws) (take-length xs)

  pub take-append_beyond :
      (xs ys : List A) (n : ℕ) → take (length xs + n) (xs ++ ys) ≡ xs ++ take n ys
  take-append_beyond [] ys n = ap (λ k. take k ys) zero_plus
    where
      zero_plus : 0 + n ≡ n
      zero_plus = omega arith
  take-append_beyond (x ∷ xs) ys n =
      ap (λ k. take k (x ∷ (xs ++ ys))) (sym (add_suc (length xs) n))
      ∙ ap (λ (ws : List A). x ∷ ws) (take-append_beyond xs ys n)

  pub take-min : (n : ℕ) (xs ys : List A) → take (min n (length xs)) (xs ++ ys) ≡ take n xs
  take-min zero xs ys = ap (λ k. take k (xs ++ ys)) (zero_min (length xs))
  take-min (suc n) [] ys = ap (λ k. take k ys) (min_zero (suc n))
  take-min (suc n) (x ∷ xs) ys =
      ap (λ k. take k (x ∷ (xs ++ ys))) (least_suc n (length xs))
      ∙ ap (λ (ws : List A). x ∷ ws) (take-min n xs ys)

  pub take-set :
      (xs : List A) (i : ℕ) (v : A)
      → i < length xs
      → take (i + 1) (set xs i v) ≡ take i xs ++ (v ∷ [])
  take-set [] i v h = absurd (omega arith)
  take-set (x ∷ xs) zero v h = refl
  take-set (x ∷ xs) (suc i) v h =
      ap (λ k. take k (x ∷ set xs i v)) (sym (add_suc i 1))
      ∙ ap (λ (ws : List A). x ∷ ws) (take-set xs i v (omega arith))

  pub drop-take : (i n : ℕ) (xs : List A) → drop i (take n xs) ≡ take (n - i) (drop i xs)
  drop-take zero n xs = ap (λ k. take k xs) (sym (sub_zero n))
  drop-take (suc i) zero xs = ap (λ k. take k (drop (suc i) xs)) (sym (zero_sub (suc i)))
  drop-take (suc i) (suc n) [] = sym (take-nil _)
  drop-take (suc i) (suc n) (x ∷ xs) = drop-take i n xs ∙ ap (λ k. take k (drop i xs)) (suc_sub n i)

  -- Of what is left of a list, a part that was measured.
  pub take-length-take : (n : ℕ) (xs : List A) → take (length (take n xs)) xs ≡ take n xs
  take-length-take zero xs = refl
  take-length-take (suc n) [] = refl
  take-length-take (suc n) (x ∷ xs) = ap (λ (ws : List A). x ∷ ws) (take-length-take n xs)

  pub drop-length-take : (n : ℕ) (xs : List A) → drop (length (take n xs)) xs ≡ drop n xs
  drop-length-take zero xs = refl
  drop-length-take (suc n) [] = refl
  drop-length-take (suc n) (x ∷ xs) = drop-length-take n xs
