-- ===== src/Tests/Lexing.antt =====
-- byterun/lexing.c on the tables of the lexer `a+`.
use ocaml_pro_ocaml_branch.Base.{
  ℕ, ◌/◌, ◌+◌, ◌%◌, ◌^◌, ◌≡◌, false, Option, none, some, List, [], ◌∷◌, ◌==◌, if◌then◌else◌, refl,
  true, Bool-cases, inl, inr, arith,
}
use ocaml_pro_ocaml_branch.Base.Int.{ℤ, pos, negsuc}
use ocaml_pro_ocaml_branch.Lexing.{
  Bytes, LexingTable, LexerBuffer, Run, minus_one, eq_ℤ, short, mark, next_char, advance,
  next_state, backtrack, erase_eof, rounds, first_entry, lex_engine,
}
use ocaml_pro_ocaml_branch.Lexing.Automaton.{entry, transition, unread, stuck, stop, longest}
use ocaml_pro_ocaml_branch.Lexing.Longest.{outcome?, expected, lex_engine_lem}
use ocaml_pro_ocaml_branch.Lexing.NewEngine.{
  LexingCode, Result, run_program, run_mem, run_tag, mark_tags, moves_offset, run_moves, new_rounds,
  new_lex_engine,
}
use ocaml_pro_ocaml_branch.Lexing.Forget.{forget, without_mem, new_lex_engine-lex_engine}
use ocaml_pro_ocaml_branch.Lexing.Memory.{fits, fits_moves, IsWithin}
use ocaml_pro_ocaml_branch.Lexing.Match.{accepts}
use ocaml_pro_ocaml_branch.Lexing.Tokens.{IsToken, lex_engine-IsToken}

-- 16-bit numbers as bytes, least significant first.
abbrev shorts : (ℕ → ℕ) → Bytes
shorts f i = if i % 2 == 0 then f (i / 2) % 2 ^ 8 else f (i / 2) / 2 ^ 8

-- State 0 has no action and goes to state 1 on `a`; state 1 has action 0 and stays there on `a`.
abbrev a_plus : LexingTable
a_plus = record {
  lex_base = shorts (λ s. s);
  lex_backtrk = shorts (λ s. if s == 0 then 0xFFFF else 0);
  lex_default = shorts (λ s. 0xFFFF);
  lex_trans = shorts (λ i. 1);
  lex_check = shorts (λ i. if i == 97 then 0 else if i == 98 then 1 else 0xFFFF);
}

-- One program, that notes the position in cell 0, run on the transition from state 0.
abbrev a_code : LexingCode
a_code = record {
  lex_base_code = shorts (λ s. s);
  lex_backtrk_code = shorts (λ s. 0);
  lex_default_code = shorts (λ s. 0);
  lex_trans_code = shorts (λ i. if i == 97 then 1 else 0);
  lex_check_code = shorts (λ i. if i == 97 then 0 else 0xFFFF);
  lex_code = 0xFF ∷ 0 ∷ 0xFF ∷ 0xFF ∷ [];
}

-- "aab", and "aa" where more may follow.
abbrev buffer : ℕ → LexerBuffer
buffer len = record {
  lex_buffer = b'a' ∷ b'a' ∷ b'b' ∷ [];
  lex_buffer_len = len;
  lex_start_pos = 0;
  lex_curr_pos = 0;
  lex_last_pos = 0;
  lex_last_action = minus_one;
  lex_eof_reached = false;
  lex_mem = minus_one ∷ [];
}

value_of : Option Run → Option (Option ℤ × ℕ)
value_of none = none
value_of (some r) = some (r.value, r.lexbuf.lex_curr_pos)

mem_of : Result → Option (List ℤ)
mem_of none = none
mem_of (some none) = none
mem_of (some (some r)) = some r.lexbuf.lex_mem

longest_run : value_of (lex_engine a_plus (pos 0) (buffer 3)) ≡ some (some (pos 0), 2)
unfolding value_of lex_engine rounds first_entry short mark next_char advance next_state backtrack
    erase_eof
longest_run = refl

refill_run : value_of (lex_engine a_plus (pos 0) (buffer 2)) ≡ some (some (negsuc 1), 2)
unfolding value_of lex_engine rounds first_entry short mark next_char advance next_state backtrack
    erase_eof
refill_run = refl

memory_run : mem_of (new_lex_engine a_plus a_code (pos 0) (buffer 3)) ≡ some (pos 1 ∷ [])
unfolding mem_of new_lex_engine new_rounds first_entry short mark next_char advance next_state
    backtrack erase_eof run_program run_mem run_tag mark_tags moves_offset run_moves
memory_run = refl

-- With no cell to write, the program of the transition leaves the memory.
outside_run : new_lex_engine a_plus a_code (pos 0) (record (buffer 3) { lex_mem = [] }) ≡ none
unfolding new_lex_engine new_rounds first_entry short mark next_char advance next_state backtrack
    erase_eof run_program run_mem run_tag mark_tags moves_offset run_moves
outside_run = refl

lex_engine_lem_example :
    (outcome? (lex_engine a_plus (pos 0) (buffer 3))
      ≡ some (
          expected
            (stop a_plus 0 (unread (buffer 3)))
            (longest a_plus 0 (unread (buffer 3)))
            0
            0
            0
            minus_one))
    × (outcome? (lex_engine a_plus (negsuc 0) (buffer 3))
        ≡ some (
            expected
              (stop a_plus 0 (unread (buffer 3)))
              (longest a_plus 0 (unread (buffer 3)))
              0
              0
              0
              minus_one))
lex_engine_lem_example = lex_engine_lem a_plus 0 (buffer 3)

-- The program at 0 notes -1, and the one at 3, of every transition that the check allows, the position.
abbrev noting : LexingCode
noting = record {
  lex_base_code = λ i. 0;
  lex_backtrk_code = λ i. 0;
  lex_default_code = λ i. 0;
  lex_trans_code = λ i. if i % 2 == 0 then 3 else 0;
  lex_check_code = λ i. 0;
  lex_code = 0 ∷ 0xFF ∷ 0xFF ∷ 0 ∷ 0xFF ∷ 0xFF ∷ [];
}

transition_program : (i : ℕ) → short noting.lex_trans_code i ≡ pos 3
unfolding short
transition_program i = ground arith

noting-IsWithin : IsWithin a_plus noting 1
unfolding fits short moves_offset
noting-IsWithin = record {
  actions = λ s k e. refl;
  tags = λ s a e. refl;
  moves = λ s c. allowed (pos 0) s (0 + c);
}
  where
    allowed :
        (owner : ℤ) (s c : ℕ)
        → fits_moves 1 noting.lex_code
            (some (if eq_ℤ owner (pos s) then short noting.lex_trans_code c else pos 0))
          ≡ true
    allowed (pos owner) s c = elim (Bool-cases (owner == s)) [
      | inl e ↦ rw (e, transition_program c) refl
      | inr e ↦ rw e refl
    ]
    allowed (negsuc owner) s c = refl

noting_run : mem_of (new_lex_engine a_plus noting (pos 0) (buffer 3)) ≡ some (minus_one ∷ [])
unfolding mem_of new_lex_engine new_rounds first_entry short mark next_char advance next_state
    backtrack erase_eof run_program run_mem run_tag mark_tags moves_offset run_moves
noting_run = refl

new_lex_engine-lex_engine_example :
    forget (new_lex_engine a_plus noting (pos 0) (buffer 3))
    ≡ some (lex_engine a_plus (pos 0) (without_mem (buffer 3)))
new_lex_engine-lex_engine_example =
    new_lex_engine-lex_engine a_plus noting 1 noting-IsWithin (pos 0) (buffer 3) refl

runs_stuck : stop a_plus 0 (unread (buffer 3)) ≡ stuck
unfolding entry transition
runs_stuck = refl

accepts_one : accepts a_plus 0 (unread (buffer 3)) 1 ≡ some 0
unfolding entry transition
accepts_one = refl

lex_engine-IsToken_example : IsToken a_plus 0 (buffer 3) 1
lex_engine-IsToken_example = lex_engine-IsToken a_plus 0 (buffer 3) 1 0 runs_stuck accepts_one
