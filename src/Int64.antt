-- ===== src/Int64.antt =====
-- byterun/int64_emul.h: 64-bit integers emulated by two 32-bit words, for compilers without them.
-- A word is a number below 2 ^ 32; `(int32) w < 0` is a test of its top bit.
pub mod Value
pub mod Ring
pub mod Order
pub mod Bitwise
pub mod Shift
pub mod SignedShift
pub mod Product
pub mod Division
pub mod SignedDivision
use ocaml_pro_ocaml_branch.Base.{
  ℕ, zero, suc, ◌+◌, ◌-◌, ◌*◌, ◌/◌, ◌%◌, ◌^◌, bit_and, bit_or, bit_xor, Bool, true, false, ◌&&◌,
  Option, none, some, ltb, leb, ◌==◌, if◌then◌else◌, ◌>>=◌,
}
use ocaml_pro_ocaml_branch.Base.Int.{ℤ, pos, negsuc}

-- `struct { uint32 l, h; }`, the representation of both `int64` and `uint64`.
pub record Int64 : Type 0 where
  pub h : ℕ
  pub l : ℕ

abbrev pub u32 : ℕ → ℕ
u32 n = n % 2 ^ 32

-- `(int32) w < 0`.
abbrev pub negative32 : ℕ → Bool
negative32 w = leb (2 ^ 31) w

abbrev pub signed32 : ℕ → ℤ
signed32 w = if ltb w (2 ^ 31) then pos w else negsuc (2 ^ 32 - w - 1)

abbrev pub minus_one : ℤ
minus_one = negsuc 0

unfoldable pub ucompare : Int64 → Int64 → ℤ
ucompare x y =
    if ltb y.h x.h
    then pos 1
    else if ltb x.h y.h
    then minus_one
    else if ltb y.l x.l
    then pos 1
    else if ltb x.l y.l
    then minus_one
    else pos 0

-- `(int32) x.h > (int32) y.h` holds of the words with their top bits flipped.
abbrev pub signed_lt : ℕ → ℕ → Bool
signed_lt a b = ltb (u32 (a + 2 ^ 31)) (u32 (b + 2 ^ 31))

unfoldable pub compare : Int64 → Int64 → ℤ
compare x y =
    if signed_lt y.h x.h
    then pos 1
    else if signed_lt x.h y.h
    then minus_one
    else if ltb y.l x.l
    then pos 1
    else if ltb x.l y.l
    then minus_one
    else pos 0

unfoldable pub neg : Int64 → Int64
neg x =
    let l = u32 (2 ^ 32 - x.l) in
    let h = 2 ^ 32 - 1 - x.h in record { h = if l == 0 then u32 (h + 1) else h; l = l }

unfoldable pub add : Int64 → Int64 → Int64
add x y =
    let l = u32 (x.l + y.l) in
    let h = u32 (x.h + y.h) in record { h = if ltb l x.l then u32 (h + 1) else h; l = l }

unfoldable pub sub : Int64 → Int64 → Int64
sub x y =
    let l = u32 (x.l + 2 ^ 32 - y.l) in
    let h = u32 (x.h + 2 ^ 32 - y.h) in
    record { h = if ltb x.l y.l then u32 (h + 2 ^ 32 - 1) else h; l = l }

-- The sum of the four products of half words, each into its place.
unfoldable pub sum_products : ℕ → ℕ → ℕ → ℕ → Int64
sum_products prod00 prod10 prod01 prod11 =
    let h0 = u32 (prod11 + prod01 / 2 ^ 16 + prod10 / 2 ^ 16) in
    let shifted01 = u32 (prod01 * 2 ^ 16) in
    let l1 = u32 (prod00 + shifted01) in
    let h1 = if ltb l1 shifted01 then u32 (h0 + 1) else h0 in
    let shifted10 = u32 (prod10 * 2 ^ 16) in
    let l2 = u32 (l1 + shifted10) in
    let h2 = if ltb l2 shifted10 then u32 (h1 + 1) else h1 in record { h = h2; l = l2 }

unfoldable pub mul : Int64 → Int64 → Int64
mul x y =
    let low =
      sum_products (u32 (bit_and x.l 0xFFFF * bit_and y.l 0xFFFF))
        (u32 (x.l / 2 ^ 16 * bit_and y.l 0xFFFF)) (u32 (bit_and x.l 0xFFFF * (y.l / 2 ^ 16)))
        (u32 (x.l / 2 ^ 16 * (y.l / 2 ^ 16))) in
    record { h = u32 (low.h + (x.l * y.h + x.h * y.l)); l = low.l }

unfoldable pub is_zero : Int64 → Bool
is_zero x = bit_or x.l x.h == 0

unfoldable pub is_negative : Int64 → Bool
is_negative x = negative32 x.h

unfoldable pub is_min_int : Int64 → Bool
is_min_int x = x.l == 0 && x.h == 0x80000000

unfoldable pub is_minus_one : Int64 → Bool
is_minus_one x = bit_and x.l x.h == 0xFFFFFFFF

unfoldable pub and : Int64 → Int64 → Int64
and x y = record { h = bit_and x.h y.h; l = bit_and x.l y.l }

unfoldable pub or : Int64 → Int64 → Int64
or x y = record { h = bit_or x.h y.h; l = bit_or x.l y.l }

unfoldable pub xor : Int64 → Int64 → Int64
xor x y = record { h = bit_xor x.h y.h; l = bit_xor x.l y.l }

-- `x << s`, `x >> s` and `(int32) x >> s` on a word.
abbrev pub shl32 : ℕ → ℕ → ℕ
shl32 x s = u32 (x * 2 ^ s)

abbrev pub shr32 : ℕ → ℕ → ℕ
shr32 x s = x / 2 ^ s

abbrev pub sar32 : ℕ → ℕ → ℕ
sar32 x s = if negative32 x then 2 ^ 32 - 1 - (2 ^ 32 - 1 - x) / 2 ^ s else x / 2 ^ s

unfoldable pub lsl_masked : Int64 → ℕ → Int64
lsl_masked x s =
    if s == 0
    then x
    else if ltb s 32
    then record { h = bit_or (shl32 x.h s) (shr32 x.l (32 - s)); l = shl32 x.l s }
    else record { h = shl32 x.l (s - 32); l = 0 }

-- `s` is the bit pattern of the `int` argument.
unfoldable pub lsl : Int64 → ℕ → Int64
lsl x s = lsl_masked x (bit_and s 63)

unfoldable pub lsr_masked : Int64 → ℕ → Int64
lsr_masked x s =
    if s == 0
    then x
    else if ltb s 32
    then record { h = shr32 x.h s; l = bit_or (shr32 x.l s) (shl32 x.h (32 - s)) }
    else record { h = 0; l = shr32 x.h (s - 32) }

unfoldable pub lsr : Int64 → ℕ → Int64
lsr x s = lsr_masked x (bit_and s 63)

unfoldable pub asr_masked : Int64 → ℕ → Int64
asr_masked x s =
    if s == 0
    then x
    else if ltb s 32
    then record { h = sar32 x.h s; l = bit_or (shr32 x.l s) (shl32 x.h (32 - s)) }
    else record { h = sar32 x.h 31; l = sar32 x.h (s - 32) }

unfoldable pub asr : Int64 → ℕ → Int64
asr x s = asr_masked x (bit_and s 63)

-- The macros I64_SHL1 and I64_SHR1.
unfoldable pub shl1 : Int64 → Int64
shl1 x = record { h = bit_or (shl32 x.h 1) (shr32 x.l 31); l = shl32 x.l 1 }

unfoldable pub shr1 : Int64 → Int64
shr1 x = record { h = shr32 x.h 1; l = bit_or (shr32 x.l 1) (shl32 x.h 31) }

abbrev pub nonneg : ℤ → Bool
nonneg (pos n) = true
nonneg (negsuc n) = false

-- The first loop of I64_udivmod: the divisor and the mask once they are scaled up, or `none` when
-- the rounds run out.
unfoldable pub scale : ℕ → Int64 → Int64 → Int64 → Option (Int64 × Int64)
scale zero modulus divisor mask = none
scale (suc fuel) modulus divisor mask =
    let divisor' = shl1 divisor in
    let mask' = shl1 mask in
    let stop = nonneg (ucompare divisor modulus) in
    let rest = scale fuel modulus divisor' mask' in
    if negative32 divisor.h
    then some (divisor, mask)
    else if stop
    then some (divisor', mask')
    else rest

-- The second loop: the quotient and what is left of the modulus.
unfoldable pub subtract : ℕ → Int64 → Int64 → Int64 → Int64 → Option (Int64 × Int64)
subtract zero quotient modulus divisor mask = none
subtract (suc fuel) quotient modulus divisor mask =
    let fits = nonneg (ucompare modulus divisor) in
    let quotient' = if fits then or quotient mask else quotient in
    let modulus' = if fits then sub modulus divisor else modulus in
    let rest = subtract fuel quotient' modulus' (shr1 divisor) (shr1 mask) in
    if bit_or mask.l mask.h == 0 then some (quotient, modulus) else rest

-- A loop of at most 64 doublings, then one of at most 64 halvings and the last test.
unfoldable pub udivmod : Int64 → Int64 → Option (Int64 × Int64)
udivmod modulus divisor = do
  (divisor', mask) ← scale 65 modulus divisor (record { h = 0; l = 1 })
  subtract 65 (record { h = 0; l = 0 }) modulus divisor' mask

abbrev pub absolute : Int64 → Int64
absolute x = if negative32 x.h then neg x else x

unfoldable pub quotient : Int64 → Int64 → Option Int64
quotient x y = do
  (q, r) ← udivmod (absolute x) (absolute y)
  some (if negative32 (bit_xor x.h y.h) then neg q else q)

unfoldable pub remainder : Int64 → Int64 → Option Int64
remainder x y = do
  (q, r) ← udivmod (absolute x) (absolute y)
  some (if negative32 x.h then neg r else r)

-- `x` is the bit pattern of an `int32`.
unfoldable pub of_int32 : ℕ → Int64
of_int32 x = record { h = sar32 x 31; l = x }

unfoldable pub to_int32 : Int64 → ℕ
to_int32 x = x.l
