-- ===== src/Ints/Boxed64/OfString.antt =====
-- caml_int64_of_string reads what parse_intnat reads with 64-bit words.
use ocaml_pro_ocaml_branch.Base.{
  ℕ, ◌+◌, ◌-◌, ◌*◌, ◌/◌, ◌%◌, ◌^◌, ◌<◌, ◌≡◌, inl, inr, Bool, true, false, List, [], ◌∷◌, ltb, ◌==◌,
  Bool-cases, Option-cases, arith, ap, ap₂, subst, refl, Option, ◌∙◌,
}
use ocaml_pro_ocaml_branch.Int64.{Int64, ucompare, add, mul, udivmod, of_int32}
use ocaml_pro_ocaml_branch.Int64.Value.{IsInt64, to_ℕ, of_parts}
use ocaml_pro_ocaml_branch.Int64.Ring.{add-IsInt64, to_ℕ-add, to_ℕ-neg}
use ocaml_pro_ocaml_branch.Int64.Product.{mul-IsInt64, to_ℕ-mul}
use ocaml_pro_ocaml_branch.Int64.Division.{IsQuotient, udivmod_lem}
use ocaml_pro_ocaml_branch.Ints.Exception.{ok}
use ocaml_pro_ocaml_branch.Ints.Parse.{
  Prefix, peek, next, parse_sign_and_base, digit_in, words, digits_loop, finish, out_of_range,
  parse_first, parse_intnat,
}
use ocaml_pro_ocaml_branch.Ints.Parse.Numeral.{written, magnitude, denotes}
use ocaml_pro_ocaml_branch.Ints.Parse.Correct.{
  IsBase, parse_sign_and_base-IsBase, digit_in-lt, parse_intnat_lem,
}
use ocaml_pro_ocaml_branch.Ints.Boxed64.{
  ult, loop64, finish64, parse_first64, with_threshold, int64_of_string, unboxed,
}

is_word : (h l : ℕ) → h < 2 ^ 32 → l < 2 ^ 32 → IsInt64 (of_parts h l)
is_word h l b c = record { high = b; low = c }

ult_lem : {x y : Int64} → IsInt64 x → IsInt64 y → ult x y ≡ ltb (to_ℕ x) (to_ℕ y)
unfolding ult ucompare
ult_lem v w = ground arith

of_int32-IsInt64 : (d : ℕ) → d < 2 ^ 31 → IsInt64 (of_int32 d)
unfolding of_int32
of_int32-IsInt64 d h = record { high = ground arith; low = ground arith }

to_ℕ-of_int32 : (d : ℕ) → d < 2 ^ 31 → to_ℕ (of_int32 d) ≡ d
unfolding of_int32
to_ℕ-of_int32 d h = ground arith

base_small : {b : ℕ} → IsBase b → b < 2 ^ 31
base_small h = ground arith

base_pos : {b : ℕ} → IsBase b → 0 < b
base_pos h = ground arith

digit_below : {b d : ℕ} → IsBase b → d < b → d < 2 ^ 31
digit_below h l = ground arith

digit_ok : {b d : ℕ} → IsBase b → d < b → IsInt64 (of_int32 d)
digit_ok {b} {d} h l = of_int32-IsInt64 d (digit_below h l)

-- `base * res + d`.
abbrev next_res : ℕ → Int64 → ℕ → Int64
next_res base res d = add (mul (of_int32 base) res) (of_int32 d)

mod_add : (a d : ℕ) → (a % words + d) % words ≡ (a + d) % words
mod_add a d = omega arith

finish64_end :
    (negative : Bool) (base : ℕ) (x : Int64)
    → IsInt64 x
    → unboxed (finish64 negative base (ok (x, []))) ≡ finish 64 negative base (ok (to_ℕ x, []))
unfolding finish64 finish out_of_range
finish64_end true base x v = ground (
  arith,
  ult_lem {x = of_parts 0x80000000 0} {y = x} (is_word _ _ (omega arith) (omega arith)) v,
  to_ℕ-neg v,
)
finish64_end false base x v = ground (
  arith,
  ult_lem {x = of_parts 0x7FFFFFFF 0xFFFFFFFF} {y = x} (is_word _ _ (omega arith) (omega arith)) v,
)

module _ (negative : Bool) (base : ℕ) (is_base : IsBase base) {threshold : Int64}
    (t : IsInt64 threshold) (t_value : to_ℕ threshold ≡ (words - 1) / base) where
  next-IsInt64 : (res : Int64) (d : ℕ) → d < base → IsInt64 (next_res base res d)
  next-IsInt64 res d h = add-IsInt64 (mul-IsInt64 (of_int32 base) res) (digit_ok is_base h)

  next_word :
      (res : Int64)
      → IsInt64 res
      → (d : ℕ) → d < base
      → to_ℕ (next_res base res d) ≡ (base * to_ℕ res + d) % words
  next_word res v d h =
      to_ℕ-add (mul-IsInt64 (of_int32 base) res) (digit_ok is_base h)
      ∙ ap₂ sum
          (to_ℕ-mul (of_int32-IsInt64 base (base_small is_base)) v
            ∙ ap (λ (b : ℕ). (b * to_ℕ res) % words) (to_ℕ-of_int32 base (base_small is_base)))
          (to_ℕ-of_int32 d (digit_below is_base h))
      ∙ mod_add (base * to_ℕ res) d
    where
      sum : ℕ → ℕ → ℕ
      sum a b = (a + b) % words

  multiplies : (res : Int64) → IsInt64 res → ult threshold res ≡ ltb ((words - 1) / base) (to_ℕ res)
  multiplies res v = ult_lem t v ∙ ap (λ (n : ℕ). ltb n (to_ℕ res)) t_value

  adds :
      (res : Int64)
      → IsInt64 res
      → (d : ℕ) → d < base
      → ult (next_res base res d) (of_int32 d) ≡ ltb ((base * to_ℕ res + d) % words) d
  adds res v d h =
      ult_lem (next-IsInt64 res d h) (digit_ok is_base h)
      ∙ ap₂ ltb (next_word res v d h) (to_ℕ-of_int32 d (digit_below is_base h))

  loop64_lem :
      (res : Int64) (cs : List ℕ)
      → IsInt64 res
      → unboxed (finish64 negative base (loop64 base threshold res cs))
        ≡ finish 64 negative base (digits_loop base (to_ℕ res) cs)
  unfolding loop64 digits_loop finish64 finish
  loop64_lem res [] v = finish64_end negative base res v
  loop64_lem res (c ∷ cs) v = elim (Bool-cases (c == b'_')) [
    | inl skip ↦ rw (loop64, digits_loop, skip) (loop64_lem res cs v)
    | inr other ↦ elim (Option-cases (digit_in base c)) [
      | inl stop ↦ rw (loop64, digits_loop, other, stop) refl
      | inr (d, e) ↦
          let h : d < base = digit_in-lt base c d e in
          rw (loop64, digits_loop, other, e, multiplies res v, adds res v d h)
            (elim (Bool-cases (ltb ((words - 1) / base) (to_ℕ res))) [
              | inl over ↦ rw over refl
              | inr below ↦ rw below (elim (Bool-cases (ltb ((base * to_ℕ res + d) % words) d)) [
                | inl over ↦ rw over refl
                | inr fine ↦ rw fine (
                    loop64_lem (next_res base res d) cs (next-IsInt64 res d h)
                    ∙ ap (λ (n : ℕ). finish 64 negative base (digits_loop base n cs))
                        (next_word res v d h))
              ])
            ])
    ]
  ]

with_threshold_lem :
    (p : Prefix)
    → IsBase p.base
    → {t : Option (Int64 × Int64)} → IsQuotient (words - 1) p.base t
    → unboxed (with_threshold p t) ≡ parse_first 64 p
unfolding with_threshold parse_first64 parse_first finish64 finish
with_threshold_lem p is_base q = rw q.returns (elim (Option-cases (digit_in p.base (peek p.rest))) [
  | inl stop ↦ rw (parse_first64, parse_first, stop) refl
  | inr (d, e) ↦
      let h = digit_in-lt p.base (peek p.rest) d e in
      rw (parse_first64, parse_first, e)
        (loop64_lem p.negative p.base is_base q.quot_ok q.quot_value (of_int32 d) (next p.rest)
            (digit_ok is_base h)
          ∙ ap (λ (n : ℕ). finish 64 p.negative p.base (digits_loop p.base n (next p.rest)))
              (to_ℕ-of_int32 d (digit_below is_base h)))
])

agrees : (s : List ℕ) → unboxed (int64_of_string s) ≡ parse_intnat s 64
unfolding int64_of_string parse_intnat
agrees s = with_threshold_lem p is_base (
    subst (λ (b : ℕ). IsQuotient (words - 1) b division) (to_ℕ-of_int32 p.base (base_small is_base))
      (udivmod_lem (is_word 0xFFFFFFFF 0xFFFFFFFF (omega arith) (omega arith))
        (of_int32-IsInt64 p.base (base_small is_base))
        (omega (arith, to_ℕ-of_int32 p.base (base_small is_base), base_pos is_base))))
  where
    p : Prefix
    p = parse_sign_and_base s

    is_base : IsBase p.base
    is_base = parse_sign_and_base-IsBase s

    division : Option (Int64 × Int64)
    division = udivmod (of_parts 0xFFFFFFFF 0xFFFFFFFF) (of_int32 p.base)

-- caml_int64_of_string, over the emulated 64-bit integers, never fails to return: for every string it
-- gives the 64-bit word of the number that the string writes, read by the tables of prefixes and
-- digits, when that number fits (signed in base 10, as a pattern otherwise), and fails with
-- "int_of_string" on every other string; it is what parse_intnat gives for 64 bits.
pub int64_of_string_lem :
    (s : List ℕ)
    → (unboxed (int64_of_string s) ≡ denotes 64 (written s) (magnitude (written s)))
      × (unboxed (int64_of_string s) ≡ parse_intnat s 64)
int64_of_string_lem s =
    let e = agrees s in (e ∙ parse_intnat_lem s 64 (omega arith) (omega arith), e)
