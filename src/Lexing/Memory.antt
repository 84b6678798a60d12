-- ===== src/Lexing/Memory.antt =====
-- The programs of caml_new_lex_engine that stay inside their string and the memory of positions.
use ocaml_pro_ocaml_branch.Base.{
  ℕ, zero, suc, ◌≡◌, ◌<◌, Bool, true, false, ◌||◌, Option, none, some, List, [], ◌∷◌, length, set,
  length-set, get_elem?, ltb, ltb→lt, Bool-cases, inl, inr, ◌==◌, if◌then◌else◌, arith, refl, ap,
  sym, ◌∙◌,
}
use ocaml_pro_ocaml_branch.Base.Int.{ℤ, pos, negsuc}
use ocaml_pro_ocaml_branch.Lexing.{LexingTable, short}
use ocaml_pro_ocaml_branch.Lexing.NewEngine.{LexingCode, program, source, run_program, moves_offset}

-- A program that ends, and moves cells below `size` only.
unfoldable pub fits : ℕ → List ℕ → Bool
fits size [] = false
fits size (dst ∷ []) = dst == 0xFF
fits size (dst ∷ src ∷ pc) =
    let rest = fits size pc in
    if dst == 0xFF
    then true
    else if ltb dst size
    then (if src == 0xFF || ltb src size then rest else false)
    else false

abbrev pub fits_moves : ℕ → List ℕ → Option ℤ → Bool
fits_moves size code none = false
fits_moves size code (some (pos zero)) = true
fits_moves size code (some (pos (suc n))) = fits size (program code (pos (suc n)))
fits_moves size code (some (negsuc n)) = true

-- The programs of the actions, of the backtrack points and of the transitions.
pub record IsWithin (tbl : LexingTable) (code : LexingCode) (size : ℕ) : Type 0 where
  pub actions :
      (s k : ℕ)
      → short tbl.lex_base s ≡ negsuc k
      → fits size (program code.lex_code (short code.lex_base_code s)) ≡ true
  pub tags :
      (s a : ℕ)
      → short tbl.lex_backtrk s ≡ pos a
      → fits size (program code.lex_code (short code.lex_backtrk_code s)) ≡ true
  pub moves : (s c : ℕ) → fits_moves size code.lex_code (moves_offset code s c) ≡ true

-- A program that runs to its end, and the memory then.
pub record IsComplete (pc : List ℕ) (mem : List ℤ) (position : ℤ) (size : ℕ) : Type 0 where
  pub after : List ℤ
  pub runs : run_program pc mem position ≡ some after
  pub sized : length after ≡ size

entry_in : (xs : List ℤ) (i : ℕ) → i < length xs → (v : ℤ) × (get_elem? xs i ≡ some v)
entry_in [] i h = absurd (omega arith)
entry_in (x ∷ xs) zero h = (x, refl)
entry_in (x ∷ xs) (suc i) h = entry_in xs i (omega arith)

source_in :
    (mem : List ℤ) (src : ℕ) (position : ℤ)
    → (src == 0xFF || ltb src (length mem)) ≡ true
    → (v : ℤ) × (source mem src position ≡ some v)
source_in mem src position h = elim (Bool-cases (src == 0xFF)) [
  | inl e ↦ (position, ap (λ (b : Bool). if b then some position else get_elem? mem src) e)
  | inr e ↦
      let (v, found) =
        entry_in mem src
          (ltb→lt src (length mem) (sym (ap (λ (b : Bool). b || ltb src (length mem)) e) ∙ h)) in
      (v, ap (λ (b : Bool). if b then some position else get_elem? mem src) e ∙ found)
]

pub run_program-IsComplete :
    (pc : List ℕ) (mem : List ℤ) (position : ℤ) (size : ℕ)
    → length mem ≡ size
    → fits size pc ≡ true
    → IsComplete pc mem position size
unfolding fits run_program
run_program-IsComplete [] mem position size l h = absurd (ground arith)
run_program-IsComplete (dst ∷ []) mem position size l h = record {
  after = mem;
  runs = rw h refl;
  sized = l;
}
run_program-IsComplete (dst ∷ src ∷ pc) mem position size l h = elim (Bool-cases (dst == 0xFF)) [
  | inl e ↦ record { after = mem; runs = rw e refl; sized = l }
  | inr e ↦
      let (inside, from, rest) = parts e in
      let (v, read) =
        source_in mem src position (ap (λ (n : ℕ). src == 0xFF || ltb src n) l ∙ from) in
      let r =
        run_program-IsComplete pc (set mem dst v) position size (length-set mem dst v ∙ l) rest in
      record {
        after = r.after;
        runs = rw (e, read, ap (λ (n : ℕ). ltb dst n) l ∙ inside) r.runs;
        sized = r.sized;
      }
]
  where
    parts :
        (dst == 0xFF) ≡ false
        → (ltb dst size ≡ true) × ((src == 0xFF || ltb src size) ≡ true) × (fits size pc ≡ true)
    parts e = ground arith
