-- ===== src/Lexing/NewEngine.antt =====
-- caml_new_lex_engine, which also keeps a memory of positions, and what it shares with the old one.
use ocaml_pro_ocaml_branch.Base.{
  ℕ, zero, suc, ◌+◌, ◌-◌, Option, none, some, List, [], ◌∷◌, get_elem?, length, ltb, set, drop,
  ◌==◌, if◌then◌else◌,
}
use ocaml_pro_ocaml_branch.Base.Int.{ℤ, pos, negsuc}
use ocaml_pro_ocaml_branch.Lexing.{
  Bytes, LexingTable, LexerBuffer, Run, short, returns, refill, eq_ℤ, minus_one, mark, next_char,
  advance, next_state, backtrack, erase_eof, first_entry, enough,
}

-- The other tables of struct lexing_table. `lex_code` holds the programs, each ended by a byte 255.
pub record LexingCode : Type 0 where
  pub lex_base_code : Bytes
  pub lex_backtrk_code : Bytes
  pub lex_default_code : Bytes
  pub lex_trans_code : Bytes
  pub lex_check_code : Bytes
  pub lex_code : List ℕ

-- `Bp_val(tbl->lex_code) + pc_off`; an offset below 0 is outside the string.
abbrev pub program : List ℕ → ℤ → List ℕ
program code (pos n) = drop n code
program code (negsuc n) = []

-- What is stored: the position, or another cell; `none` where the source is outside the memory.
abbrev pub source : List ℤ → ℕ → ℤ → Option ℤ
source mem src position = if src == 0xFF then some position else get_elem? mem src

-- `Field(mem, dst) = ...`; `none` where the destination is outside the memory.
abbrev store_cell : List ℤ → ℕ → Option ℤ → Option (List ℤ)
store_cell mem dst none = none
store_cell mem dst (some v) = if ltb dst (length mem) then some (set mem dst v) else none

-- `position` is `curr_pos` in run_mem and -1 in run_tag. The code checks no bound: `none` where it reads
-- past the end of the string, or reads or writes outside the memory of positions.
unfoldable pub run_program : List ℕ → List ℤ → ℤ → Option (List ℤ)
run_program [] mem position = none
run_program (dst ∷ []) mem position = if dst == 0xFF then some mem else none
run_program (dst ∷ src ∷ pc) mem position =
    let rest : Option (List ℤ) = elim (store_cell mem dst (source mem src position)) [
      | none ↦ none
      | some mem' ↦ run_program pc mem' position
    ] in
    if dst == 0xFF then some mem else rest

abbrev pub with_mem : LexerBuffer → Option (List ℤ) → Option LexerBuffer
with_mem b none = none
with_mem b (some mem) = some (record b { lex_mem = mem })

unfoldable pub run_mem : List ℕ → LexerBuffer → Option LexerBuffer
run_mem pc b = with_mem b (run_program pc b.lex_mem (pos b.lex_curr_pos))

unfoldable pub run_tag : List ℕ → LexerBuffer → Option LexerBuffer
run_tag pc b = with_mem b (run_program pc b.lex_mem minus_one)

-- "See if it's a backtrack point".
unfoldable pub mark_tags : LexingCode → ℕ → ℤ → LexerBuffer → Option LexerBuffer
mark_tags code state (negsuc k) b = some b
mark_tags code state (pos a) b =
    elim (run_tag (program code.lex_code (short code.lex_backtrk_code state)) b) [
      | none ↦ none
      | some b1 ↦ some (mark (pos a) b1)
    ]

-- `base_code + c`; `none` for an index below 0, outside the table.
abbrev pub index_code : ℤ → ℕ → Option ℕ
index_code (pos n) c = some (n + c)
index_code (negsuc n) c = if ltb n c then some (c - suc n) else none

-- The offset of the memory moves of a transition.
unfoldable pub moves_offset : LexingCode → ℕ → ℕ → Option ℤ
moves_offset code pstate c = elim (index_code (short code.lex_base_code pstate) c) [
  | none ↦ none
  | some i ↦ some (
      if eq_ℤ (short code.lex_check_code i) (pos pstate)
      then short code.lex_trans_code i
      else short code.lex_default_code pstate)
]

-- "If some transition, get and perform memory moves".
unfoldable pub run_moves : List ℕ → Option ℤ → LexerBuffer → Option LexerBuffer
run_moves code none b = none
run_moves code (some (pos zero)) b = some b
run_moves code (some (pos (suc n))) b = run_mem (program code (pos (suc n))) b
run_moves code (some (negsuc n)) b = some b

-- A run, `some none` where the rounds run out, and `none` where the code leaves its blocks.
abbrev pub Result : Type 0
Result = Option (Option Run)

abbrev ended : ℕ → Option LexerBuffer → Result
ended k none = none
ended k (some b) = some (some (returns (pos k) b))

unfoldable pub new_rounds : ℕ → LexingTable → LexingCode → ℕ → LexerBuffer → Result
new_rounds zero tbl code state b = some none
new_rounds (suc fuel) tbl code state b = elim (short tbl.lex_base state) [
  | negsuc k ↦ ended k (run_tag (program code.lex_code (short code.lex_base_code state)) b)
  | pos base ↦ elim (mark_tags code state (short tbl.lex_backtrk state) b) [
    | none ↦ none
    | some b1 ↦ elim (next_char b1) [
      | none ↦ some (some (refill state b1))
      | some c ↦ elim (next_state tbl state base c) [
        | negsuc k ↦ some (some (backtrack (advance b1)))
        | pos state' ↦ elim (run_moves code.lex_code (moves_offset code state c) (advance b1)) [
          | none ↦ none
          | some b2 ↦ new_rounds fuel tbl code state' (erase_eof c b2)
        ]
      ]
    ]
  ]
]

unfoldable pub new_lex_engine : LexingTable → LexingCode → ℤ → LexerBuffer → Result
new_lex_engine tbl code (pos state) b = new_rounds (enough b) tbl code state (first_entry b)
new_lex_engine tbl code (negsuc state) b = new_rounds (enough b) tbl code state b
