-- ===== src/Ints/Parse/Numeral.antt =====
-- What a numeral stands for, with no bound on its value, from tables of the prefixes and the digits.
use ocaml_pro_ocaml_branch.Base.{
  ℕ, ◌+◌, ◌-◌, ◌*◌, ◌^◌, Bool, true, false, Option, none, some, List, [], ◌∷◌, ltb, leb, ◌==◌,
  if◌then◌else◌,
}
use ocaml_pro_ocaml_branch.Ints.Exception.{Result, ok, raise, int_of_string}
use ocaml_pro_ocaml_branch.Ints.Parse.{Prefix, negate_word}

-- The digits, and their values.
abbrev pub digit_table : List (ℕ × ℕ)
digit_table =
    (b'0', 0)
    ∷ (b'1', 1)
    ∷ (b'2', 2)
    ∷ (b'3', 3)
    ∷ (b'4', 4)
    ∷ (b'5', 5)
    ∷ (b'6', 6)
    ∷ (b'7', 7)
    ∷ (b'8', 8)
    ∷ (b'9', 9)
    ∷ (b'A', 10)
    ∷ (b'B', 11)
    ∷ (b'C', 12)
    ∷ (b'D', 13)
    ∷ (b'E', 14)
    ∷ (b'F', 15)
    ∷ (b'a', 10)
    ∷ (b'b', 11)
    ∷ (b'c', 12)
    ∷ (b'd', 13)
    ∷ (b'e', 14)
    ∷ (b'f', 15)
    ∷ []

abbrev pub lookup : ℕ → List (ℕ × ℕ) → Option ℕ
lookup c [] = none
lookup c ((k, d) ∷ more) = if c == k then some d else lookup c more

-- A digit of the base.
unfoldable pub digit : ℕ → ℕ → Option ℕ
digit base c = elim (lookup c digit_table) [
  | none ↦ none
  | some d ↦ if ltb d base then some d else none
]

-- The prefixes of the bases other than ten.
abbrev pub prefix_table : List ((ℕ × ℕ) × ℕ)
prefix_table =
    ((b'0', b'x'), 16)
    ∷ ((b'0', b'X'), 16)
    ∷ ((b'0', b'o'), 8)
    ∷ ((b'0', b'O'), 8)
    ∷ ((b'0', b'b'), 2)
    ∷ ((b'0', b'B'), 2)
    ∷ []

abbrev pub base_of : ℕ → ℕ → List ((ℕ × ℕ) × ℕ) → Option ℕ
base_of c d [] = none
base_of c d (((c', d'), base) ∷ more) =
    if c == c' then (if d == d' then some base else base_of c d more) else base_of c d more

abbrev pub prefixed : Bool → List ℕ → Option ℕ → List ℕ → Prefix
prefixed negative s (some base) rest = record { negative = negative; base = base; rest = rest }
prefixed negative s none rest = record { negative = negative; base = 10; rest = s }

-- The base, and the characters after its prefix.
unfoldable pub unsigned : Bool → List ℕ → Prefix
unsigned negative [] = prefixed negative [] none []
unsigned negative (c ∷ []) = prefixed negative (c ∷ []) none []
unsigned negative (c ∷ d ∷ cs) = prefixed negative (c ∷ d ∷ cs) (base_of c d prefix_table) cs

-- A minus sign, or none, first.
unfoldable pub written : List ℕ → Prefix
unfolding unsigned
written [] = unsigned false []
written (c ∷ cs) = if c == b'-' then unsigned true cs else unsigned false (c ∷ cs)

-- The value of the digits in a base, `_` passed over; `none` where another character stands.
abbrev pub value_from : ℕ → ℕ → List ℕ → Option ℕ
value_from base acc [] = some acc
value_from base acc (c ∷ cs) = elim (c == b'_') [
  | true ↦ value_from base acc cs
  | false ↦ elim (digit base c) [ none ↦ none | some d ↦ value_from base (base * acc + d) cs ]
]

-- The value behind the prefix; it begins with a digit.
abbrev pub value_of : ℕ → List ℕ → Option ℕ
value_of base [] = none
value_of base (c ∷ cs) = elim (digit base c) [ none ↦ none | some d ↦ value_from base d cs ]

abbrev pub magnitude : Prefix → Option ℕ
magnitude p = value_of p.base p.rest

-- A decimal numeral is signed; any other stands for a pattern of `nbits` bits, with a sign or not.
abbrev pub fits : ℕ → Prefix → ℕ → Bool
fits nbits p v =
    if p.base == 10
    then (if p.negative then leb v (2 ^ (nbits - 1)) else ltb v (2 ^ (nbits - 1)))
    else ltb v (2 ^ nbits)

-- The word for a numeral that fits.
abbrev pub denotes : ℕ → Prefix → Option ℕ → Result ℕ
denotes nbits p none = raise int_of_string
denotes nbits p (some v) =
    if fits nbits p v then ok (if p.negative then negate_word v else v) else raise int_of_string
