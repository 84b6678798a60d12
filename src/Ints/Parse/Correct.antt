-- ===== src/Ints/Parse/Correct.antt =====
-- parse_intnat reads exactly the numerals in range, and gives their words.
use native.Mathlib.Nat.{pow-le-pow_right}
use ocaml_pro_ocaml_branch.Base.{
  ℕ, ◌+◌, ◌-◌, ◌*◌, ◌/◌, ◌%◌, ◌^◌, ◌≤◌, ◌<◌, ◌≡◌, ◌⊎◌, inl, inr, Bool, true, false, not, ◌||◌, none,
  some, List, [], ◌∷◌, ltb, leb, ◌==◌, if◌then◌else◌, Bool-cases, Option-cases, arith, ap, refl,
  sym, ◌∙◌, leb→le, leb-false→lt,
}
use ocaml_pro_ocaml_branch.Ints.Exception.{Result, ok, raise, int_of_string}
use ocaml_pro_ocaml_branch.Ints.Parse.{
  Prefix, peek, next, base_prefix, parse_sign_and_base, parse_digit, digit_in, words, digits_loop,
  out_of_range, finish, parse_first, parse_intnat,
}
use ocaml_pro_ocaml_branch.Ints.Parse.Numeral.{
  digit, value_from, value_of, magnitude, written, fits, denotes,
}
use ocaml_pro_ocaml_branch.Ints.Parse.Tables.{digit_in-digit, parse_sign_and_base-written}

-- The four bases.
abbrev pub IsBase : ℕ → Type 0
IsBase b = (b ≡ 2) ⊎ (b ≡ 8) ⊎ (b ≡ 10) ⊎ (b ≡ 16)

base_prefix-IsBase : (negative : Bool) (p : List ℕ) → IsBase (base_prefix negative p).base
unfolding base_prefix
base_prefix-IsBase negative p = ground arith

pub parse_sign_and_base-IsBase : (s : List ℕ) → IsBase (parse_sign_and_base s).base
unfolding parse_sign_and_base
parse_sign_and_base-IsBase s =
    ground (arith, base_prefix-IsBase true (next s), base_prefix-IsBase false s)

pub digit_in-lt : (base c d : ℕ) → digit_in base c ≡ some d → d < base
unfolding digit_in
digit_in-lt base c d h = ground arith

-- The two tests of the loop together find every overflow, and nothing else.
overflow :
    (base acc d : ℕ)
    → IsBase base
    → acc < words
    → d < base
    → (ltb ((words - 1) / base) acc || ltb ((base * acc + d) % words) d)
      ≡ leb words (base * acc + d)
overflow base acc d (inl two) ha hd = rw two (ground arith)
overflow base acc d (inr (inl eight)) ha hd = rw eight (ground arith)
overflow base acc d (inr (inr (inl ten))) ha hd = rw ten (ground arith)
overflow base acc d (inr (inr (inr sixteen))) ha hd = rw sixteen (ground arith)

or_branches {ℓ} :
    {A : Type ℓ} (x y : A) (t u : Bool)
    → (if t then x else if u then x else y) ≡ (if t || u then x else y)
or_branches x y true u = refl
or_branches x y false u = refl

mod-below : {v : ℕ} → v < words → v % words ≡ v
mod-below h = omega arith

module _ (nbits : ℕ) (p : Prefix) (is_base : IsBase p.base) (narrow : nbits ≤ 64) where
  words_le : (v : ℕ) → words ≤ v → 2 ^ nbits ≤ v
  words_le v h = omega (arith, pow-le-pow_right {n = 2} (omega arith) {i = nbits} {j = 64} narrow)

  half_words_le : (v : ℕ) → words ≤ v → 2 ^ (nbits - 1) ≤ v - 1
  half_words_le v h =
      omega (arith, pow-le-pow_right {n = 2} (omega arith) {i = nbits - 1} {j = 63} (omega arith))

  too_large : (v : ℕ) → words ≤ v → fits nbits p v ≡ false
  too_large v h = ground (arith, words_le v h, half_words_le v h)

  in_range : (v : ℕ) → v < words → out_of_range nbits p.negative p.base v ≡ not (fits nbits p v)
  unfolding out_of_range
  in_range v h = ground (arith, full_width)
    where
      full_width : 64 ≤ nbits → 2 ^ nbits ≡ words
      full_width h = ap (λ (n : ℕ). 2 ^ n) (same h)
        where
          same : 64 ≤ nbits → nbits ≡ 64
          same h = omega arith

  finish_end :
      (v : ℕ) → v < words → finish nbits p.negative p.base (ok (v, [])) ≡ denotes nbits p (some v)
  unfolding finish
  finish_end v h = ground (arith, in_range v h)

  -- A value that has left the word never comes back into range.
  denotes_large :
      (acc : ℕ) (cs : List ℕ)
      → words ≤ acc
      → denotes nbits p (value_from p.base acc cs) ≡ raise int_of_string
  denotes_large acc [] h = ground (arith, too_large acc h)
  denotes_large acc (c ∷ cs) h = elim (Bool-cases (c == b'_')) [
    | inl skip ↦ rw (denotes, value_from, skip) (denotes_large acc cs h)
    | inr other ↦ elim (Option-cases (digit p.base c)) [
      | inl stop ↦ rw (denotes, value_from, other, stop) refl
      | inr (d, e) ↦
          rw (denotes, value_from, other, e) (denotes_large (p.base * acc + d) cs (grows acc d h))
    ]
  ]
    where
      grows : (acc d : ℕ) → words ≤ acc → words ≤ p.base * acc + d
      grows acc d h = elim is_base [
        | inl e ↦ rw e (omega arith)
        | inr (inl e) ↦ rw e (omega arith)
        | inr (inr (inl e)) ↦ rw e (omega arith)
        | inr (inr (inr e)) ↦ rw e (omega arith)
      ]

  digits_loop-digit :
      (acc c d : ℕ) (cs : List ℕ)
      → acc < words
      → c == b'_' ≡ false
      → digit_in p.base c ≡ some d
      → digits_loop p.base acc (c ∷ cs) ≡ (
          if leb words (p.base * acc + d)
          then raise int_of_string
          else digits_loop p.base ((p.base * acc + d) % words) cs)
  unfolding digits_loop
  digits_loop-digit acc c d cs h other e =
      rw (digits_loop, other, e)
        (tests ∙ ap branch (overflow p.base acc d is_base h (digit_in-lt p.base c d e)))
    where
      branch : Bool → Result (ℕ × List ℕ)
      branch t =
          if t then raise int_of_string else digits_loop p.base ((p.base * acc + d) % words) cs

      tests :
          (if ltb ((words - 1) / p.base) acc
            then raise int_of_string
            else if ltb ((p.base * acc + d) % words) d
            then raise int_of_string
            else digits_loop p.base ((p.base * acc + d) % words) cs)
          ≡ branch (ltb ((words - 1) / p.base) acc || ltb ((p.base * acc + d) % words) d)
      tests = or_branches _ _ (ltb ((words - 1) / p.base) acc) (ltb ((p.base * acc + d) % words) d)

  digits_loop-denotes :
      (acc : ℕ) (cs : List ℕ)
      → acc < words
      → finish nbits p.negative p.base (digits_loop p.base acc cs)
        ≡ denotes nbits p (value_from p.base acc cs)
  unfolding digits_loop finish
  digits_loop-denotes acc [] h = finish_end acc h
  digits_loop-denotes acc (c ∷ cs) h = elim (Bool-cases (c == b'_')) [
    | inl skip ↦ rw (digits_loop, value_from, skip) (digits_loop-denotes acc cs h)
    | inr other ↦ elim (Option-cases (digit_in p.base c)) [
      | inl stop ↦
          rw (digits_loop, value_from, other, stop, sym (digit_in-digit p.base c) ∙ stop) refl
      | inr (d, e) ↦
          rw
            (
              digits_loop-digit acc c d cs h other e,
              value_from,
              other,
              sym (digit_in-digit p.base c) ∙ e,
            )
            (elim (Bool-cases (leb words (p.base * acc + d))) [
              | inl over ↦ rw over (sym (denotes_large (p.base * acc + d) cs (leb→le words _ over)))
              | inr below ↦
                  rw (below, mod-below (leb-false→lt words _ below))
                    (digits_loop-denotes (p.base * acc + d) cs (leb-false→lt words _ below))
            ])
    ]
  ]

  base_below : {d : ℕ} → d < p.base → d < words
  base_below h = ground arith

  -- No digit is the null character that ends the string.
  no_digit : digit_in p.base 0 ≡ none
  unfolding digit_in parse_digit
  no_digit = refl

  first_digit :
      (rest : List ℕ)
      → elim (digit_in p.base (peek rest)) [
        | none ↦ raise int_of_string
        | some d ↦ finish nbits p.negative p.base (digits_loop p.base d (next rest))
      ]
        ≡ denotes nbits p (value_of p.base rest)
  first_digit [] = rw no_digit refl
  first_digit (c ∷ cs) = elim (Option-cases (digit_in p.base c)) [
    | inl stop ↦ rw (value_of, stop, sym (digit_in-digit p.base c) ∙ stop) refl
    | inr (d, e) ↦
        rw (value_of, e, sym (digit_in-digit p.base c) ∙ e)
          (digits_loop-denotes d cs (base_below (digit_in-lt p.base c d e)))
  ]

  parse_first-denotes : parse_first nbits p ≡ denotes nbits p (magnitude p)
  unfolding parse_first
  parse_first-denotes = first_digit p.rest

-- For every string and every width from one to that of a word, parse_intnat returns the word of the
-- number that the string writes, its sign, base prefix, digits and underscores read by the tables of
-- prefixes and digits, with no bound on the value, when that number fits in `nbits` bits (signed in
-- base 10, as a pattern otherwise), and fails with "int_of_string" on every other string.
pub parse_intnat_lem :
    (s : List ℕ) (nbits : ℕ)
    → 0 < nbits
    → nbits ≤ 64
    → parse_intnat s nbits ≡ denotes nbits (written s) (magnitude (written s))
unfolding parse_intnat
parse_intnat_lem s nbits some_bits h =
    parse_first-denotes nbits (parse_sign_and_base s) (parse_sign_and_base-IsBase s) h
    ∙ ap (λ (p : Prefix). denotes nbits p (magnitude p)) (parse_sign_and_base-written s)
