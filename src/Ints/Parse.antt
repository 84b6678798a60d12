-- ===== src/Ints/Parse.antt =====
-- The parsing functions of ints.c. A `char *` into a string is the list of the bytes from there to
-- the end; the byte after the last is 0.
pub mod Numeral
pub mod Tables
pub mod Correct
use ocaml_pro_ocaml_branch.Base.{
  ℕ, zero, suc, ◌+◌, ◌-◌, ◌*◌, ◌/◌, ◌%◌, ◌^◌, Bool, true, false, ◌&&◌, ◌||◌, Option, none, some,
  List, [], ◌∷◌, ltb, leb, ◌==◌, if◌then◌else◌,
}
use ocaml_pro_ocaml_branch.Ints.Exception.{Exception, Result, ok, raise, int_of_string}

-- `*p`.
abbrev pub peek : List ℕ → ℕ
peek [] = 0
peek (c ∷ cs) = c

-- `p + 1`.
abbrev pub next : List ℕ → List ℕ
next [] = []
next (c ∷ cs) = cs

-- What parse_sign_and_base stores and returns.
pub record Prefix : Type 0 where
  pub negative : Bool
  pub base : ℕ
  pub rest : List ℕ

unfoldable pub base_prefix : Bool → List ℕ → Prefix
base_prefix negative p =
    let q = next p in
    let c = peek q in
    let after : ℕ → Prefix = λ b. record { negative = negative; base = b; rest = next q } in
    let decimal : Prefix = record { negative = negative; base = 10; rest = p } in
    if peek p == b'0'
    then (if c == b'x' || c == b'X'
        then after 16
        else if c == b'o' || c == b'O'
        then after 8
        else if c == b'b' || c == b'B'
        then after 2
        else decimal)
    else decimal

unfoldable pub parse_sign_and_base : List ℕ → Prefix
unfolding base_prefix
parse_sign_and_base p = if peek p == b'-' then base_prefix true (next p) else base_prefix false p

-- `none` is the -1 of the code.
unfoldable pub parse_digit : ℕ → Option ℕ
parse_digit c =
    if leb b'0' c && leb c b'9'
    then some (c - b'0')
    else if leb b'A' c && leb c b'F'
    then some (c - b'A' + 10)
    else if leb b'a' c && leb c b'f'
    then some (c - b'a' + 10)
    else none

-- The digit, if it is one in this base: the test `d < 0 || d >= base`.
unfoldable pub digit_in : ℕ → ℕ → Option ℕ
unfolding parse_digit
digit_in base c = elim (parse_digit c) [
  | none ↦ none
  | some d ↦ if leb base d then none else some d
]

-- `(uintnat) -1 + 1`, the number of words on a 64-bit machine.
abbrev pub words : ℕ
words = 2 ^ 64

-- The loop: the value and what follows it.
unfoldable pub digits_loop : ℕ → ℕ → List ℕ → Result (ℕ × List ℕ)
digits_loop base res [] = ok (res, [])
digits_loop base res (c ∷ cs) =
    let skip = digits_loop base res cs in
    let threshold = (words - 1) / base in
    elim (c == b'_') [
      | true ↦ skip
      | false ↦ elim (digit_in base c) [
        | none ↦ ok (res, c ∷ cs)
        | some d ↦
            let res' = (base * res + d) % words in
            let go = digits_loop base res' cs in
            if ltb threshold res
            then raise int_of_string
            else if ltb res' d
            then raise int_of_string
            else go
      ]
    ]

-- The tests after the loop. For no bits the code would shift by -1, which has no defined behaviour;
-- every caller passes 31 or more.
unfoldable pub out_of_range : ℕ → Bool → ℕ → ℕ → Bool
out_of_range nbits negative base res =
    if base == 10
    then (if negative then ltb (2 ^ (nbits - 1)) res else leb (2 ^ (nbits - 1)) res)
    else ltb nbits 64 && leb (2 ^ nbits) res

abbrev pub negate_word : ℕ → ℕ
negate_word res = (words - res) % words

unfoldable pub finish : ℕ → Bool → ℕ → Result (ℕ × List ℕ) → Result ℕ
finish nbits negative base (raise e) = raise e
finish nbits negative base (ok (res, c ∷ cs)) = raise int_of_string
finish nbits negative base (ok (res, [])) =
    if out_of_range nbits negative base res
    then raise int_of_string
    else ok (if negative then negate_word res else res)

unfoldable pub parse_first : ℕ → Prefix → Result ℕ
parse_first nbits p = elim (digit_in p.base (peek p.rest)) [
  | none ↦ raise int_of_string
  | some d ↦ finish nbits p.negative p.base (digits_loop p.base d (next p.rest))
]

-- The result is the bit pattern of an `intnat`; `nbits` is one or more.
unfoldable pub parse_intnat : List ℕ → ℕ → Result ℕ
parse_intnat s nbits = parse_first nbits (parse_sign_and_base s)
