-- ===== src/Int64/Order.antt =====
-- I64_ucompare and I64_compare are the unsigned and the signed order.
use ocaml_pro_ocaml_branch.Base.{ℕ, ◌≡◌, arith, ltb, if◌then◌else◌}
use ocaml_pro_ocaml_branch.Base.Int.{ℤ, pos, ltb_ℤ}
use ocaml_pro_ocaml_branch.Int64.{Int64, minus_one, ucompare, compare}
use ocaml_pro_ocaml_branch.Int64.Value.{IsInt64, to_ℕ, to_ℤ}

-- The three-way result of comparing two numbers, and two integers.
abbrev pub three_way : ℕ → ℕ → ℤ
three_way a b = if ltb b a then pos 1 else if ltb a b then minus_one else pos 0

abbrev pub three_way_ℤ : ℤ → ℤ → ℤ
three_way_ℤ a b = if ltb_ℤ b a then pos 1 else if ltb_ℤ a b then minus_one else pos 0

-- I64_ucompare gives 1, -1 or 0 as the unsigned values compare.
pub ucompare_lem :
    {x y : Int64} → IsInt64 x → IsInt64 y → ucompare x y ≡ three_way (to_ℕ x) (to_ℕ y)
unfolding ucompare
ucompare_lem v w = ground arith

-- I64_compare gives 1, -1 or 0 as the signed values compare.
compare_lem : {x y : Int64} → IsInt64 x → IsInt64 y → compare x y ≡ three_way_ℤ (to_ℤ x) (to_ℤ y)
unfolding compare
compare_lem v w = ground arith
