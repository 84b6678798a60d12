-- ===== src/Interp/Methods/Search.antt =====
-- The binary search of the method tables.
use ocaml_pro_ocaml_branch.Base.{
  ℕ, zero, suc, ◌+◌, ◌-◌, ◌*◌, ◌/◌, ◌≤◌, ◌<◌, ◌≡◌, inl, inr, true, false, some, ltb, Bool-cases,
  arith, ap, ◌∙◌, ltb→lt, ltb-false→le,
}
use ocaml_pro_ocaml_branch.Interp.Value.{Value, imm, Heap, field}
use ocaml_pro_ocaml_branch.Interp.Integers.{signed_lt}
use ocaml_pro_ocaml_branch.Interp.Integers.Bitwise.{bit_or-one}
use ocaml_pro_ocaml_branch.Interp.Methods.{middle, search_tag, find_tag}

-- Tags are at the odd indices from 3 on.
abbrev pub tag_index : ℕ → ℕ
tag_index i = 3 + 2 * i

half : ℕ → ℕ → ℕ
half a b = (1 + a + b) / 2

middle-tag_index : (a b : ℕ) → middle (tag_index a) (tag_index b) ≡ tag_index (half a b)
unfolding half
middle-tag_index a b = bit_or-one ((tag_index a + tag_index b) / 2) ∙ omega arith

two_less : (c : ℕ) → 0 < c → tag_index c - 2 ≡ tag_index (c - 1)
two_less c h = omega arith

half-between : (a b : ℕ) → a < b → (a < half a b) × (half a b ≤ b)
unfolding half
half-between a b h = (omega arith, omega arith)

ltb-tag_index : (a b : ℕ) → ltb (tag_index a) (tag_index b) ≡ ltb a b
ltb-tag_index a b = ground arith

signed_lt_asym : (s t : ℕ) → signed_lt s t ≡ true → signed_lt t s ≡ false
signed_lt_asym s t h = ground arith

pub signed_lt_irrefl : (t : ℕ) → signed_lt t t ≡ false
signed_lt_irrefl t = ground arith

module _ (h : Heap) (meths : Value) (n : ℕ) (tags : ℕ → ℕ)
    (stored : (i : ℕ) → i < n → field h meths (tag_index i) ≡ some (imm (tags i)))
    (increasing : (i j : ℕ) → i < j → j < n → signed_lt (tags i) (tags j) ≡ true) where
  not_below : (k c : ℕ) → c ≤ k → k < n → signed_lt (tags k) (tags c) ≡ false
  not_below k c le lt = elim (Bool-cases (ltb c k)) [
    | inl less ↦ signed_lt_asym (tags c) (tags k) (increasing c k (ltb→lt c k less) lt)
    | inr same ↦
        let e : c ≡ k = omega (arith, ltb-false→le c k same) in
        ap (λ (i : ℕ). signed_lt (tags k) (tags i)) e ∙ signed_lt_irrefl (tags k)
  ]

  search_tag_lem :
      (fuel a b k : ℕ)
      → a ≤ k
      → k ≤ b
      → b < n
      → b - a < fuel
      → search_tag fuel h meths (tags k) (tag_index a) (tag_index b) ≡ some (tag_index k)
  unfolding search_tag
  search_tag_lem zero a b k ak kb bn enough = absurd (omega arith)
  search_tag_lem (suc fuel) a b k ak kb bn enough = elim (Bool-cases (ltb a b)) [
    | inr done ↦
        rw (search_tag, ltb-tag_index a b, done)
          (ap (λ (i : ℕ). some (tag_index i)) (omega (arith, ltb-false→le a b done)))
    | inl more ↦
        let c = half a b in
        let (low, high) = half-between a b (ltb→lt a b more) in
        let fetched = stored c (omega arith) in
        elim (Bool-cases (ltb k c)) [
          | inl left ↦
              let kc = ltb→lt k c left in
              let before =
                ap (λ (t : ℕ). t - 2) (middle-tag_index a b) ∙ two_less c (omega arith) in
              rw
                (
                  search_tag,
                  ltb-tag_index a b,
                  more,
                  middle-tag_index a b,
                  fetched,
                  increasing k c kc (omega arith),
                  before,
                )
                (search_tag_lem fuel a (c - 1) k ak (omega arith) (omega arith) (omega arith))
          | inr right ↦
              let ck = ltb-false→le k c right in
              rw
                (
                  search_tag,
                  ltb-tag_index a b,
                  more,
                  middle-tag_index a b,
                  fetched,
                  not_below k c ck (omega arith),
                  middle-tag_index a b,
                )
                (search_tag_lem fuel c b k ck kb bn (omega arith))
        ]
  ]

  pub find_tag_lem :
      (k : ℕ)
      → k < n
      → field h meths 0 ≡ some (imm (1 + 2 * n))
      → find_tag h meths (tags k) ≡ some (tag_index k)
  unfolding find_tag
  find_tag_lem k kn size =
      let last : 1 + 2 * n ≡ tag_index (n - 1) = omega arith in
      rw size (
        ap (λ (t : ℕ). search_tag (suc t) h meths (tags k) 3 t) last
        ∙ search_tag_lem (suc (tag_index (n - 1))) 0 (n - 1) k (omega arith) (omega arith)
            (omega arith) (omega arith))
