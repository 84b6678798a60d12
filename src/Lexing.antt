-- ===== src/Lexing.antt =====
-- byterun/lexing.c: the automaton that runs the tables of ocamllex.
pub mod Automaton
pub mod Longest
pub mod NewEngine
pub mod Memory
pub mod Forget
pub mod Match
pub mod Maximal
pub mod Tokens
use ocaml_pro_ocaml_branch.Base.{
  ℕ, zero, suc, ◌+◌, ◌-◌, ◌*◌, ◌%◌, ◌^◌, Bool, true, false, Option, none, some, List, get_or, ltb,
  leb, ◌==◌, if◌then◌else◌,
}
use ocaml_pro_ocaml_branch.Base.Int.{ℤ, pos, negsuc}

-- A table is a string: its bytes by their index.
abbrev pub Bytes : Type 0
Bytes = ℕ → ℕ

-- The tables of struct lexing_table that caml_lex_engine reads.
pub record LexingTable : Type 0 where
  pub lex_base : Bytes
  pub lex_backtrk : Bytes
  pub lex_default : Bytes
  pub lex_trans : Bytes
  pub lex_check : Bytes

-- The macro Short: the signed 16-bit number at index n, least significant byte first.
unfoldable pub short : Bytes → ℕ → ℤ
short tbl n =
    let w = tbl (n * 2) % 2 ^ 8 + tbl (n * 2 + 1) % 2 ^ 8 * 2 ^ 8 in
    if ltb w (2 ^ 15) then pos w else negsuc (2 ^ 16 - 1 - w)

-- The fields of struct lexer_buffer that the engines use; a position is an untagged number.
pub record LexerBuffer : Type 0 where
  pub lex_buffer : List ℕ
  pub lex_buffer_len : ℕ
  pub lex_start_pos : ℕ
  pub lex_curr_pos : ℕ
  pub lex_last_pos : ℕ
  pub lex_last_action : ℤ
  pub lex_eof_reached : Bool
  pub lex_mem : List ℤ

-- The value returned, or `none` for caml_failwith("lexing: empty token"), and the buffer then.
pub record Run : Type 0 where
  pub value : Option ℤ
  pub lexbuf : LexerBuffer

abbrev pub returns : ℤ → LexerBuffer → Run
returns v b = record { value = some v; lexbuf = b }

abbrev pub fails : LexerBuffer → Run
fails b = record { value = none; lexbuf = b }

-- `Val_int(-state - 1)`, the request of a refill.
abbrev pub refill : ℕ → LexerBuffer → Run
refill state b = returns (negsuc state) b

abbrev pub eq_ℤ : ℤ → ℤ → Bool
eq_ℤ (pos m) (pos n) = m == n
eq_ℤ (pos m) (negsuc n) = false
eq_ℤ (negsuc m) (pos n) = false
eq_ℤ (negsuc m) (negsuc n) = m == n

abbrev pub minus_one : ℤ
minus_one = negsuc 0

-- "See if it's a backtrack point".
unfoldable pub mark : ℤ → LexerBuffer → LexerBuffer
mark (negsuc k) b = b
mark (pos a) b = record b { lex_last_pos = b.lex_curr_pos; lex_last_action = pos a }

-- The next character, 256 at the end of the input, or `none` where a refill is needed.
unfoldable pub next_char : LexerBuffer → Option ℕ
next_char b =
    if leb b.lex_buffer_len b.lex_curr_pos
    then (if b.lex_eof_reached then some 256 else none)
    else some (get_or b.lex_buffer b.lex_curr_pos 0 % 2 ^ 8)

-- The buffer once the character is read.
unfoldable pub advance : LexerBuffer → LexerBuffer
advance b =
    if leb b.lex_buffer_len b.lex_curr_pos
    then b
    else record b { lex_curr_pos = b.lex_curr_pos + 1 }

-- "Determine next state".
unfoldable pub next_state : LexingTable → ℕ → ℕ → ℕ → ℤ
next_state tbl state base c =
    if eq_ℤ (short tbl.lex_check (base + c)) (pos state)
    then short tbl.lex_trans (base + c)
    else short tbl.lex_default state

-- "Return to last backtrack point".
unfoldable pub backtrack : LexerBuffer → Run
backtrack b =
    let b' = record b { lex_curr_pos = b.lex_last_pos } in
    if eq_ℤ b.lex_last_action minus_one then fails b' else returns b.lex_last_action b'

-- "Erase the EOF condition".
unfoldable pub erase_eof : ℕ → LexerBuffer → LexerBuffer
erase_eof c b = if c == 256 then record b { lex_eof_reached = false } else b

-- `while (1)`: `none` where the rounds run out.
unfoldable pub rounds : ℕ → LexingTable → ℕ → LexerBuffer → Option Run
rounds zero tbl state b = none
rounds (suc fuel) tbl state b = elim (short tbl.lex_base state) [
  | negsuc k ↦ some (returns (pos k) b)
  | pos base ↦
      let b1 = mark (short tbl.lex_backtrk state) b in
      elim (next_char b1) [
        | none ↦ some (refill state b1)
        | some c ↦ elim (next_state tbl state base c) [
          | negsuc k ↦ some (backtrack (advance b1))
          | pos state' ↦ rounds fuel tbl state' (erase_eof c (advance b1))
        ]
      ]
]

-- The buffer on the first entry.
unfoldable pub first_entry : LexerBuffer → LexerBuffer
first_entry b = record b {
  lex_last_pos = b.lex_curr_pos;
  lex_start_pos = b.lex_curr_pos;
  lex_last_action = minus_one;
}

-- A round for each character left, one for the end of the input, and the last one.
abbrev pub enough : LexerBuffer → ℕ
enough b = suc (suc (b.lex_buffer_len - b.lex_curr_pos))

unfoldable pub lex_engine : LexingTable → ℤ → LexerBuffer → Option Run
lex_engine tbl (pos state) b = rounds (enough b) tbl state (first_entry b)
lex_engine tbl (negsuc state) b = rounds (enough b) tbl state b
