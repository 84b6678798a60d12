-- ===== src/Ints/Parse/Tables.antt =====
-- parse_sign_and_base and parse_digit read the tables of prefixes and digits.
use ocaml_pro_ocaml_branch.Base.{
  ℕ, zero, suc, ◌≤◌, ◌<◌, ◌≡◌, Bool, true, false, ◌&&◌, ◌||◌, Option, none, some, List, [], ◌∷◌,
  ltb, leb, ◌==◌, if◌then◌else◌, Bool-cases, inl, inr, arith, refl, sym, ap, ◌∙◌, ltb→lt,
  ltb-false→le, ==_iff,
}
use ocaml_pro_ocaml_branch.Ints.Parse.{
  Prefix, base_prefix, parse_sign_and_base, parse_digit, digit_in,
}
use ocaml_pro_ocaml_branch.Ints.Parse.Numeral.{
  digit_table, lookup, digit, prefixed, unsigned, written,
}

same : Option ℕ → Option ℕ → Bool
same none none = true
same none (some y) = false
same (some x) none = false
same (some x) (some y) = x == y

same_eq : (x y : Option ℕ) → same x y ≡ true → x ≡ y
unfolding same
same_eq none none h = refl
same_eq none (some y) h = absurd (ground arith)
same_eq (some x) none h = absurd (ground arith)
same_eq (some x) (some y) h = ap some ((==_iff x y).0 h)

all_below : ℕ → (ℕ → Bool) → Bool
all_below zero f = true
all_below (suc n) f = f n && all_below n f

and_both : (t u : Bool) → t && u ≡ true → (t ≡ true) × (u ≡ true)
and_both true u h = (refl, h)
and_both false u h = absurd (ground arith)

all_below_each : (n : ℕ) (f : ℕ → Bool) (c : ℕ) → all_below n f ≡ true → c < n → f c ≡ true
unfolding all_below
all_below_each zero f c h l = absurd (omega arith)
all_below_each (suc n) f c h l = elim (Bool-cases (ltb c n)) [
  | inl less ↦ all_below_each n f c (and_both (f n) _ h).1 (ltb→lt c n less)
  | inr last ↦
      let e : n ≡ c = omega (arith, ltb-false→le c n last, l) in
      ap f (sym e) ∙ (and_both (f n) _ h).0
]

-- Every character up to `f`.
characters : all_below 103 (λ c. same (parse_digit c) (lookup c digit_table)) ≡ true
unfolding all_below same parse_digit
characters = refl

keys_below : ℕ → List (ℕ × ℕ) → Bool
keys_below c [] = true
keys_below c ((k, d) ∷ more) = ltb k c && keys_below c more

lookup_beyond :
    (c b : ℕ) (table : List (ℕ × ℕ)) → keys_below b table ≡ true → b ≤ c → lookup c table ≡ none
unfolding keys_below
lookup_beyond c b [] h l = refl
lookup_beyond c b ((k, d) ∷ more) h l =
    let both = and_both (ltb k b) (keys_below b more) h in
    let other : (c == k) ≡ false = ground (arith, ltb→lt k b both.0) in
    rw other (lookup_beyond c b more both.1 l)

table_keys : keys_below 103 digit_table ≡ true
unfolding keys_below
table_keys = refl

parse_digit_beyond : (c : ℕ) → 103 ≤ c → parse_digit c ≡ none
unfolding parse_digit
parse_digit_beyond c l = ground arith

pub parse_digit-lookup : (c : ℕ) → parse_digit c ≡ lookup c digit_table
parse_digit-lookup c = elim (Bool-cases (ltb c 103)) [
  | inl low ↦
      same_eq (parse_digit c) (lookup c digit_table)
        (all_below_each 103 _ c characters (ltb→lt c 103 low))
  | inr high ↦
      let l = ltb-false→le c 103 high in
      parse_digit_beyond c l ∙ sym (lookup_beyond c 103 digit_table table_keys l)
]

in_base : ℕ → Option ℕ → Option ℕ
in_base base none = none
in_base base (some d) = if ltb d base then some d else none

pub digit_in-digit : (base c : ℕ) → digit_in base c ≡ digit base c
unfolding digit_in digit in_base
digit_in-digit base c =
    by_value (parse_digit c)
    ∙ ap (in_base base) (parse_digit-lookup c)
    ∙ back (lookup c digit_table)
  where
    by_value :
        (o : Option ℕ)
        → elim o [ none ↦ none | some d ↦ if leb base d then none else some d ] ≡ in_base base o
    by_value none = refl
    by_value (some d) = ground arith

    back :
        (o : Option ℕ)
        → in_base base o ≡ elim o [ none ↦ none | some d ↦ if ltb d base then some d else none ]
    back none = refl
    back (some d) = refl

base_prefix-unsigned : (negative : Bool) (p : List ℕ) → base_prefix negative p ≡ unsigned negative p
unfolding base_prefix unsigned
base_prefix-unsigned negative [] = refl
base_prefix-unsigned negative (c ∷ []) = elim (Bool-cases (c == b'0')) [
  | inl e ↦ rw e refl
  | inr e ↦ rw e refl
]
base_prefix-unsigned negative (c ∷ d ∷ cs) = elim (Bool-cases (c == b'0')) [
  | inr e ↦ rw e refl
  | inl e ↦ rw e (letter (d == b'x') (d == b'X') (d == b'o') (d == b'O') (d == b'b') (d == b'B'))
]
  where
    after : ℕ → Prefix
    after base = record { negative = negative; base = base; rest = cs }

    letter :
        (x x' o o' b b' : Bool)
        → (if x || x'
            then after 16
            else if o || o'
            then after 8
            else if b || b'
            then after 2
            else record { negative = negative; base = 10; rest = c ∷ d ∷ cs })
          ≡ prefixed negative
              (c ∷ d ∷ cs)
              (if x
                then some 16
                else if x'
                then some 16
                else if o
                then some 8
                else if o'
                then some 8
                else if b
                then some 2
                else if b'
                then some 2
                else none)
              cs
    letter true x' o o' b b' = refl
    letter false true o o' b b' = refl
    letter false false true o' b b' = refl
    letter false false false true b b' = refl
    letter false false false false true b' = refl
    letter false false false false false true = refl
    letter false false false false false false = refl

pub parse_sign_and_base-written : (s : List ℕ) → parse_sign_and_base s ≡ written s
unfolding parse_sign_and_base written
parse_sign_and_base-written [] = base_prefix-unsigned false []
parse_sign_and_base-written (c ∷ cs) = elim (Bool-cases (c == b'-')) [
  | inl e ↦ rw e (base_prefix-unsigned true cs)
  | inr e ↦ rw e (base_prefix-unsigned false (c ∷ cs))
]
