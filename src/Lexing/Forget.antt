-- ===== src/Lexing/Forget.antt =====
-- But for the memory of positions, the two engines do the same.
use ocaml_pro_ocaml_branch.Base.{
  ℕ, zero, suc, ◌≡◌, inl, inr, Option, none, some, List, [], length, Option-cases, ap, sym, refl,
  ◌∙◌, true, arith,
}
use ocaml_pro_ocaml_branch.Base.Int.{ℤ, pos, negsuc, ℤ-cases}
use ocaml_pro_ocaml_branch.Lexing.{
  LexingTable, LexerBuffer, short, minus_one, mark, next_char, advance, next_state, backtrack,
  erase_eof, returns, refill, rounds, first_entry, enough, lex_engine,
}
use ocaml_pro_ocaml_branch.Lexing.NewEngine.{
  LexingCode, Result, program, run_mem, run_tag, mark_tags, run_moves, moves_offset, new_rounds,
  new_lex_engine,
}
use ocaml_pro_ocaml_branch.Lexing.Memory.{fits, fits_moves, IsWithin, run_program-IsComplete}

abbrev pub without_mem : LexerBuffer → LexerBuffer
without_mem b = record b { lex_mem = [] }

abbrev pub forget : Result → Result
forget none = none
forget (some none) = some none
forget (some (some r)) = some (some (record r { lexbuf = without_mem r.lexbuf }))

-- A step that stays inside, and the buffer then, but for the memory of positions.
record IsKept (x : Option LexerBuffer) (b : LexerBuffer) (size : ℕ) : Type 0 where
  to : LexerBuffer
  gives : x ≡ some to
  same : without_mem to ≡ without_mem b
  sized : length to.lex_mem ≡ size

next_char-mem : (b : LexerBuffer) → next_char b ≡ next_char (without_mem b)
unfolding next_char
next_char-mem b = refl

backtrack-mem :
    (b : LexerBuffer)
    → forget (some (some (backtrack (advance b))))
      ≡ some (some (backtrack (advance (without_mem b))))
unfolding backtrack advance
backtrack-mem b = ground arith

erase_eof-mem :
    (c : ℕ) (b : LexerBuffer) → without_mem (erase_eof c b) ≡ erase_eof c (without_mem b)
unfolding erase_eof
erase_eof-mem c b = ground arith

advance-mem : (b : LexerBuffer) → without_mem (advance b) ≡ advance (without_mem b)
unfolding advance
advance-mem b = ground arith

mem-erase_eof : (c : ℕ) (b : LexerBuffer) → (erase_eof c b).lex_mem ≡ b.lex_mem
unfolding erase_eof
mem-erase_eof c b = ground arith

mem-advance : (b : LexerBuffer) → (advance b).lex_mem ≡ b.lex_mem
unfolding advance
mem-advance b = ground arith

mark-mem : (k : ℤ) (b : LexerBuffer) → without_mem (mark k b) ≡ mark k (without_mem b)
unfolding mark
mark-mem (pos a) b = refl
mark-mem (negsuc a) b = refl

mem-mark : (k : ℤ) (b : LexerBuffer) → (mark k b).lex_mem ≡ b.lex_mem
unfolding mark
mem-mark (pos a) b = refl
mem-mark (negsuc a) b = refl

run_tag-IsKept :
    (pc : List ℕ) (b : LexerBuffer) (size : ℕ)
    → length b.lex_mem ≡ size
    → fits size pc ≡ true
    → IsKept (run_tag pc b) b size
unfolding run_tag
run_tag-IsKept pc b size l h =
    let r = run_program-IsComplete pc b.lex_mem minus_one size l h in
    record {
      to = record b { lex_mem = r.after };
      gives = rw r.runs refl;
      same = refl;
      sized = r.sized;
    }

run_mem-IsKept :
    (pc : List ℕ) (b : LexerBuffer) (size : ℕ)
    → length b.lex_mem ≡ size
    → fits size pc ≡ true
    → IsKept (run_mem pc b) b size
unfolding run_mem
run_mem-IsKept pc b size l h =
    let r = run_program-IsComplete pc b.lex_mem (pos b.lex_curr_pos) size l h in
    record {
      to = record b { lex_mem = r.after };
      gives = rw r.runs refl;
      same = refl;
      sized = r.sized;
    }

run_moves-IsKept :
    (code : List ℕ) (z : Option ℤ) (b : LexerBuffer) (size : ℕ)
    → length b.lex_mem ≡ size
    → fits_moves size code z ≡ true
    → IsKept (run_moves code z b) b size
unfolding run_moves
run_moves-IsKept code none b size l h = absurd (ground arith)
run_moves-IsKept code (some (pos zero)) b size l h = record {
  to = b;
  gives = refl;
  same = refl;
  sized = l;
}
run_moves-IsKept code (some (pos (suc n))) b size l h =
    run_mem-IsKept (program code (pos (suc n))) b size l h
run_moves-IsKept code (some (negsuc n)) b size l h = record {
  to = b;
  gives = refl;
  same = refl;
  sized = l;
}

module _ (tbl : LexingTable) (code : LexingCode) (size : ℕ) (within : IsWithin tbl code size) where
  mark_tags-IsKept :
      (s : ℕ) (b : LexerBuffer)
      → length b.lex_mem ≡ size
      → IsKept
          (mark_tags code s (short tbl.lex_backtrk s) b)
          (mark (short tbl.lex_backtrk s) b)
          size
  unfolding mark_tags mark
  mark_tags-IsKept s b l = elim (ℤ-cases (short tbl.lex_backtrk s)) [
    | inl (k, e) ↦ rw e (record { to = b; gives = refl; same = refl; sized = l })
    | inr (a, e) ↦
        let pc = program code.lex_code (short code.lex_backtrk_code s) in
        let r = run_tag-IsKept pc b size l (within.tags s a e) in
        rw e (record {
          to = mark (pos a) r.to;
          gives = rw (mark_tags, r.gives) refl;
          same = mark-mem (pos a) r.to ∙ ap (mark (pos a)) r.same;
          sized = r.sized;
        })
  ]

  forget-rounds :
      (fuel s : ℕ) (b : LexerBuffer)
      → length b.lex_mem ≡ size
      → forget (new_rounds fuel tbl code s b) ≡ some (rounds fuel tbl s (without_mem b))
  unfolding new_rounds rounds
  forget-rounds zero s b l = refl
  forget-rounds (suc fuel) s b l = elim (ℤ-cases (short tbl.lex_base s)) [
    | inl (k, e) ↦
        let pc = program code.lex_code (short code.lex_base_code s) in
        let r = run_tag-IsKept pc b size l (within.actions s k e) in
        rw (new_rounds, rounds, e, r.gives)
          (ap (λ (b' : LexerBuffer). some (some (returns (pos k) b'))) r.same)
    | inr (base, e) ↦
        let k = short tbl.lex_backtrk s in
        let r = mark_tags-IsKept s b l in
        let same = r.same ∙ mark-mem k b in
        let same_char = ap next_char (sym same) ∙ sym (next_char-mem r.to) in
        elim (Option-cases (next_char r.to)) [
          | inl stops ↦
              rw (new_rounds, rounds, e, r.gives, same_char, stops)
                (ap (λ (b' : LexerBuffer). some (some (refill s b'))) same)
          | inr (c, reads) ↦ elim (ℤ-cases (next_state tbl s base c)) [
            | inl (n, f) ↦
                rw (new_rounds, rounds, e, r.gives, same_char, reads, f)
                  (backtrack-mem r.to
                    ∙ ap (λ (b' : LexerBuffer). some (some (backtrack (advance b')))) same)
            | inr (s', f) ↦
                let m =
                  run_moves-IsKept code.lex_code (moves_offset code s c) (advance r.to) size
                    (ap length (mem-advance r.to) ∙ r.sized) (within.moves s c) in
                rw (new_rounds, rounds, e, r.gives, same_char, reads, f, m.gives)
                  (forget-rounds fuel s' (erase_eof c m.to)
                      (ap length (mem-erase_eof c m.to) ∙ m.sized)
                    ∙ ap (λ (b' : LexerBuffer). some (rounds fuel tbl s' b'))
                        (erase_eof-mem c m.to
                          ∙ ap (erase_eof c) (m.same ∙ advance-mem r.to)
                          ∙ ap (λ (b' : LexerBuffer). erase_eof c (advance b')) same))
          ]
        ]
  ]

  -- Where the programs of the tables end and move cells of the memory of positions only,
  -- caml_new_lex_engine never leaves that memory, and on a first entry and on a reentry it returns the
  -- value that caml_lex_engine returns, or fails as it does, and leaves the same buffer but for the
  -- memory of positions.
  pub new_lex_engine-lex_engine :
      (state : ℤ) (b : LexerBuffer)
      → length b.lex_mem ≡ size
      → forget (new_lex_engine tbl code state b) ≡ some (lex_engine tbl state (without_mem b))
  unfolding new_lex_engine lex_engine first_entry
  new_lex_engine-lex_engine (pos s) b l = forget-rounds (enough b) s (first_entry b) l
  new_lex_engine-lex_engine (negsuc s) b l = forget-rounds (enough b) s b l
