-- ===== src/Int64/Ring.antt =====
-- I64_neg, I64_add and I64_sub are arithmetic modulo 2 ^ 64.
use ocaml_pro_ocaml_branch.Base.{◌+◌, ◌-◌, ◌%◌, ◌^◌, ◌≡◌, arith}
use ocaml_pro_ocaml_branch.Int64.{Int64, neg, add, sub}
use ocaml_pro_ocaml_branch.Int64.Value.{IsInt64, to_ℕ}

pub neg-IsInt64 : {x : Int64} → IsInt64 x → IsInt64 (neg x)
unfolding neg
neg-IsInt64 v = ground arith

pub add-IsInt64 : {x y : Int64} → IsInt64 x → IsInt64 y → IsInt64 (add x y)
unfolding add
add-IsInt64 v w = ground arith

pub sub-IsInt64 : {x y : Int64} → IsInt64 x → IsInt64 y → IsInt64 (sub x y)
unfolding sub
sub-IsInt64 v w = ground arith

pub to_ℕ-neg : {x : Int64} → IsInt64 x → to_ℕ (neg x) ≡ (2 ^ 64 - to_ℕ x) % 2 ^ 64
unfolding neg
to_ℕ-neg v = ground arith

pub to_ℕ-add : {x y : Int64} → IsInt64 x → IsInt64 y → to_ℕ (add x y) ≡ (to_ℕ x + to_ℕ y) % 2 ^ 64
unfolding add
to_ℕ-add v w = ground arith

pub to_ℕ-sub :
    {x y : Int64} → IsInt64 x → IsInt64 y → to_ℕ (sub x y) ≡ (to_ℕ x + 2 ^ 64 - to_ℕ y) % 2 ^ 64
unfolding sub
to_ℕ-sub v w = ground arith

-- I64_add, I64_sub and I64_neg compute the sum, the difference and the negation modulo 2 ^ 64.
pub ring_lem :
    {x y : Int64}
    → IsInt64 x
    → IsInt64 y
    → (to_ℕ (add x y) ≡ (to_ℕ x + to_ℕ y) % 2 ^ 64)
      × (to_ℕ (sub x y) ≡ (to_ℕ x + 2 ^ 64 - to_ℕ y) % 2 ^ 64)
      × (to_ℕ (neg x) ≡ (2 ^ 64 - to_ℕ x) % 2 ^ 64)
ring_lem v w = (to_ℕ-add v w, to_ℕ-sub v w, to_ℕ-neg v)
