-- ===== src/Lexing/Longest.antt =====
-- The engine stops where the automaton does, and takes the longest match.
use mathlib.Core.Path.{subst₂}
use ocaml_pro_ocaml_branch.Base.{
  ℕ, zero, suc, ◌+◌, ◌-◌, ◌%◌, ◌^◌, ◌≤◌, ◌≡◌, inl, inr, Bool, true, false, Option, none, some, List,
  [], ◌∷◌, ◌++◌, length, length-append, ap₂, get_or, drop, le→leb, lt→leb-false, ◌==◌,
  if◌then◌else◌, arith, ap, refl, sym, ◌∙◌,
}
use ocaml_pro_ocaml_branch.Base.Int.{ℤ, pos, negsuc, ℤ-cases}
use ocaml_pro_ocaml_branch.Lexing.{
  LexingTable, LexerBuffer, Run, minus_one, eq_ℤ, mark, next_char, advance, backtrack, erase_eof,
  returns, refill, rounds, first_entry, enough, lex_engine,
}
use ocaml_pro_ocaml_branch.Lexing.Automaton.{
  entry, transition, short-entry, next_state-transition, unread, bytes_from, end_mark, width, Stop,
  final, stuck, hungry, after, stop, Mark, mark_here, farther, longest,
}

-- What a run shows: its result, the positions, and the last mark.
pub record Outcome : Type 0 where
  pub value : Option ℤ
  pub start_pos : ℕ
  pub curr_pos : ℕ
  pub last_pos : ℕ
  pub last_action : ℤ

abbrev pub outcome : Run → Outcome
outcome r = record {
  value = r.value;
  start_pos = r.lexbuf.lex_start_pos;
  curr_pos = r.lexbuf.lex_curr_pos;
  last_pos = r.lexbuf.lex_last_pos;
  last_action = r.lexbuf.lex_last_action;
}

abbrev pub outcome? : Option Run → Option Outcome
outcome? none = none
outcome? (some r) = some (outcome r)

-- The last mark of a run from position `curr`, where the last one before it is given.
abbrev marked_pos : ℕ → ℕ → Option Mark → ℕ
marked_pos curr last none = last
marked_pos curr last (some (n, a)) = curr + n

abbrev marked_action : ℤ → Option Mark → ℤ
marked_action last none = last
marked_action last (some (n, a)) = pos a

abbrev result : Stop → ℤ → Option ℤ
result (final n k) last = some (pos k)
result stuck last = if eq_ℤ last minus_one then none else some last
result (hungry n s) last = some (negsuc s)

abbrev stopped_pos : Stop → ℕ → ℕ → ℕ
stopped_pos (final n k) curr last = curr + n
stopped_pos stuck curr last = last
stopped_pos (hungry n s) curr last = curr + n

abbrev pub expected : Stop → Option Mark → ℕ → ℕ → ℕ → ℤ → Outcome
expected s m start curr last_pos last_action = record {
  value = result s (marked_action last_action m);
  start_pos = start;
  curr_pos = stopped_pos s curr (marked_pos curr last_pos m);
  last_pos = marked_pos curr last_pos m;
  last_action = marked_action last_action m;
}

abbrev expected_from : LexingTable → ℕ → List ℕ → LexerBuffer → Outcome
expected_from tbl s w b =
    expected (stop tbl s w) (longest tbl s w) b.lex_start_pos b.lex_curr_pos b.lex_last_pos
      b.lex_last_action

-- One character more.
expected-after :
    (s : Stop) (m : Option Mark) (n : ℕ) (k : ℤ) (start curr lp : ℕ) (la : ℤ)
    → expected (after n s) (farther n m (mark_here k)) start curr lp la
      ≡ expected s m start
          (curr + n)
          (marked_pos curr lp (mark_here k))
          (marked_action la (mark_here k))
expected-after s m n k start curr lp la = ground arith

-- The first unread character, by the number of bytes left and the flag.
left_nil :
    (b : LexerBuffer)
    → unread b ≡ []
    → (b.lex_buffer_len ≤ b.lex_curr_pos) × (b.lex_eof_reached ≡ false)
left_nil b h = go (b.lex_buffer_len - b.lex_curr_pos) b.lex_eof_reached refl h
  where
    go :
        (n : ℕ) (eof : Bool)
        → b.lex_buffer_len - b.lex_curr_pos ≡ n
        → bytes_from b.lex_buffer b.lex_curr_pos n ++ end_mark eof ≡ []
        → (b.lex_buffer_len ≤ b.lex_curr_pos) × (eof ≡ false)
    go zero false e h = (omega arith, refl)
    go zero true e h = ground arith
    go (suc n) eof e h = ground arith

abbrev first : List ℕ → ℕ
first w = get_or w 0 0

abbrev others : List ℕ → List ℕ
others w = drop 1 w

next_char_nil : (b : LexerBuffer) → unread b ≡ [] → next_char b ≡ none
unfolding next_char
next_char_nil b h = ground (arith, left_nil b h)

-- The buffer after a character.
record IsRead (b : LexerBuffer) (c : ℕ) (cs : List ℕ) : Type 0 where
  reads : next_char b ≡ some c
  leaves : unread (erase_eof c (advance b)) ≡ cs
  moves : (erase_eof c (advance b)).lex_curr_pos ≡ b.lex_curr_pos + width c

IsRead-eof :
    (b : LexerBuffer)
    → b.lex_buffer_len ≤ b.lex_curr_pos
    → b.lex_eof_reached ≡ true
    → IsRead b 256 []
unfolding next_char advance erase_eof
IsRead-eof b at_end eof =
    let test = le→leb b.lex_buffer_len b.lex_curr_pos at_end in
    record {
      reads = rw (test, eof) refl;
      leaves = rw (test, none_left) refl;
      moves = rw test (omega arith);
    }
  where
    none_left : b.lex_buffer_len - b.lex_curr_pos ≡ 0
    none_left = omega arith

IsRead-byte :
    (b : LexerBuffer) (n : ℕ)
    → b.lex_buffer_len - b.lex_curr_pos ≡ suc n
    → IsRead b
        (get_or b.lex_buffer b.lex_curr_pos 0 % 2 ^ 8)
        (bytes_from b.lex_buffer (b.lex_curr_pos + 1) n ++ end_mark b.lex_eof_reached)
unfolding next_char advance erase_eof
IsRead-byte b n e =
    let test = lt→leb-false b.lex_buffer_len b.lex_curr_pos (omega arith) in
    record {
      reads = rw test refl;
      leaves = rw (test, not_eof, left) refl;
      moves = rw (test, not_eof) refl;
    }
  where
    not_eof : (get_or b.lex_buffer b.lex_curr_pos 0 % 2 ^ 8 == 256) ≡ false
    not_eof = ground arith

    left : b.lex_buffer_len - (b.lex_curr_pos + 1) ≡ n
    left = omega arith

next_char_cons : (b : LexerBuffer) {c : ℕ} {cs : List ℕ} → unread b ≡ c ∷ cs → IsRead b c cs
next_char_cons b {c} {cs} h = go (b.lex_buffer_len - b.lex_curr_pos) b.lex_eof_reached refl refl h
  where
    go :
        (n : ℕ) (eof : Bool)
        → b.lex_buffer_len - b.lex_curr_pos ≡ n
        → b.lex_eof_reached ≡ eof
        → bytes_from b.lex_buffer b.lex_curr_pos n ++ end_mark eof ≡ c ∷ cs
        → IsRead b c cs
    go zero false e f h = ground arith
    go zero true e f h =
        subst₂ (λ (c : ℕ) (cs : List ℕ). IsRead b c cs) (ap first h) (ap others h)
          (IsRead-eof b (omega arith) f)
    go (suc n) eof e f h =
        subst₂ (λ (c : ℕ) (cs : List ℕ). IsRead b c cs) (ap first h)
          (ap (λ (eof : Bool). bytes_from b.lex_buffer (b.lex_curr_pos + 1) n ++ end_mark eof) f
            ∙ ap others h)
          (IsRead-byte b n e)

unread-mark : (k : ℤ) (b : LexerBuffer) → unread (mark k b) ≡ unread b
unfolding mark
unread-mark (pos a) b = refl
unread-mark (negsuc a) b = refl

-- What the marks of a round leave for the next.
record IsMarked (k : ℤ) (b b' : LexerBuffer) : Type 0 where
  start : b'.lex_start_pos ≡ b.lex_start_pos
  at : b'.lex_curr_pos ≡ b.lex_curr_pos
  last : b'.lex_last_pos ≡ marked_pos b.lex_curr_pos b.lex_last_pos (mark_here k)
  action : b'.lex_last_action ≡ marked_action b.lex_last_action (mark_here k)

mark-IsMarked : (k : ℤ) (b : LexerBuffer) → IsMarked k b (mark k b)
unfolding mark
mark-IsMarked (pos a) b = record { start = refl; at = refl; last = omega arith; action = refl }
mark-IsMarked (negsuc a) b = record { start = refl; at = refl; last = refl; action = refl }

erase_eof-advance :
    (c : ℕ) (b : LexerBuffer)
    → ((erase_eof c (advance b)).lex_start_pos ≡ b.lex_start_pos)
      × ((erase_eof c (advance b)).lex_last_pos ≡ b.lex_last_pos)
      × ((erase_eof c (advance b)).lex_last_action ≡ b.lex_last_action)
unfolding erase_eof advance
erase_eof-advance c b = (ground arith, ground arith, ground arith)

expected_final :
    (k : ℕ) (b : LexerBuffer)
    → outcome (returns (pos k) b)
      ≡ expected (final 0 k) none b.lex_start_pos b.lex_curr_pos b.lex_last_pos b.lex_last_action
expected_final k b = ground arith

expected_hungry :
    (k : ℤ) (s : ℕ) (b : LexerBuffer)
    → outcome (refill s (mark k b))
      ≡ expected
          (hungry 0 s)
          (mark_here k)
          b.lex_start_pos
          b.lex_curr_pos
          b.lex_last_pos
          b.lex_last_action
unfolding mark
expected_hungry (pos a) s b = ground arith
expected_hungry (negsuc a) s b = ground arith

expected_stuck :
    (k : ℤ) (b : LexerBuffer)
    → outcome (backtrack (advance (mark k b)))
      ≡ expected stuck (mark_here k) b.lex_start_pos b.lex_curr_pos b.lex_last_pos b.lex_last_action
unfolding mark backtrack advance
expected_stuck (pos a) b = ground arith
expected_stuck (negsuc a) b = ground arith

length-bytes_from : (buf : List ℕ) (i n : ℕ) → length (bytes_from buf i n) ≡ n
length-bytes_from buf i zero = refl
length-bytes_from buf i (suc n) = ap suc (length-bytes_from buf (i + 1) n)

length-end_mark : (eof : Bool) → length (end_mark eof) ≤ 1
length-end_mark eof = ground arith

length-unread : (b : LexerBuffer) → length (unread b) ≤ suc (b.lex_buffer_len - b.lex_curr_pos)
length-unread b =
    let n = b.lex_buffer_len - b.lex_curr_pos in
    omega (
      arith,
      length-append (bytes_from b.lex_buffer b.lex_curr_pos n) (end_mark b.lex_eof_reached),
      length-bytes_from b.lex_buffer b.lex_curr_pos n,
      length-end_mark b.lex_eof_reached,
    )

-- What the next round starts from is what the automaton expects.
expected_next :
    (b : LexerBuffer) {c : ℕ} {cs : List ℕ} (k : ℤ) (s : Stop) (m : Option Mark)
    → IsRead (mark k b) c cs
    → (let b' = erase_eof c (advance (mark k b)) in
        expected s m b'.lex_start_pos b'.lex_curr_pos b'.lex_last_pos b'.lex_last_action)
      ≡ expected
          (after (width c) s)
          (farther (width c) m (mark_here k))
          b.lex_start_pos
          b.lex_curr_pos
          b.lex_last_pos
          b.lex_last_action
expected_next b {c} k s m read =
    let (kept_start, kept_pos, kept_action) = erase_eof-advance c (mark k b) in
    let marked = mark-IsMarked k b in
    let b' = erase_eof c (advance (mark k b)) in
    ap (λ (p : ℕ). expected s m p b'.lex_curr_pos b'.lex_last_pos b'.lex_last_action)
      (kept_start ∙ marked.start)
    ∙ ap (λ (p : ℕ). expected s m b.lex_start_pos p b'.lex_last_pos b'.lex_last_action)
        (read.moves ∙ ap (λ (p : ℕ). p + width c) marked.at)
    ∙ ap₂ (expected s m b.lex_start_pos (b.lex_curr_pos + width c)) (kept_pos ∙ marked.last)
        (kept_action ∙ marked.action)
    ∙ sym (
        expected-after s m (width c) k b.lex_start_pos b.lex_curr_pos b.lex_last_pos
          b.lex_last_action)

module _ (tbl : LexingTable) where
  next_round : ℕ → ℕ → ℕ → LexerBuffer → ℤ → Option Outcome
  next_round c fuel s b k = outcome? (rounds (suc fuel) tbl s (erase_eof c (advance (mark k b))))

  rounds_lem :
      (w : List ℕ) (fuel s : ℕ) (b : LexerBuffer)
      → unread b ≡ w
      → length w ≤ fuel
      → outcome? (rounds (suc fuel) tbl s b) ≡ some (expected_from tbl s w b)
  unfolding rounds next_round
  rounds_lem [] fuel s b h enough = elim (ℤ-cases (entry tbl.lex_base s)) [
    | inl (k, e) ↦
        rw (rounds, expected_from, stop, longest, short-entry tbl.lex_base s, e)
          (ap some (expected_final k b))
    | inr (base, e) ↦
        rw
          (
            rounds,
            expected_from,
            stop,
            longest,
            short-entry tbl.lex_base s,
            e,
            short-entry tbl.lex_backtrk s,
            next_char_nil (mark (entry tbl.lex_backtrk s) b) (unread-mark _ b ∙ h),
            short-entry tbl.lex_backtrk s,
          )
          (ap some (expected_hungry (entry tbl.lex_backtrk s) s b))
  ]
  rounds_lem (c ∷ cs) zero s b h enough = absurd (omega arith)
  rounds_lem (c ∷ cs) (suc fuel) s b h enough = elim (ℤ-cases (entry tbl.lex_base s)) [
    | inl (k, e) ↦
        rw (rounds, expected_from, stop, longest, short-entry tbl.lex_base s, e)
          (ap some (expected_final k b))
    | inr (base, e) ↦
        let k = entry tbl.lex_backtrk s in
        let read = next_char_cons (mark k b) (unread-mark k b ∙ h) in
        let same = next_state-transition tbl s base c in
        elim (ℤ-cases (transition tbl s base c)) [
          | inl (n, f) ↦
              rw
                (
                  rounds,
                  expected_from,
                  stop,
                  longest,
                  short-entry tbl.lex_base s,
                  e,
                  short-entry tbl.lex_backtrk s,
                  read.reads,
                  same,
                  f,
                  short-entry tbl.lex_backtrk s,
                )
                (ap some (expected_stuck k b))
          | inr (s', f) ↦
              rw
                (
                  rounds,
                  expected_from,
                  stop,
                  longest,
                  short-entry tbl.lex_base s,
                  e,
                  short-entry tbl.lex_backtrk s,
                  read.reads,
                  same,
                  f,
                )
                (ap (next_round c fuel s' b) (short-entry tbl.lex_backtrk s)
                  ∙ rounds_lem cs fuel s' (erase_eof c (advance (mark k b))) read.leaves
                      (omega arith)
                  ∙ ap some (expected_next b k (stop tbl s' cs) (longest tbl s' cs) read))
        ]
  ]

  -- caml_lex_engine returns after at most one round for each character left and two more, on a first
  -- entry and on a reentry: where the automaton of the tables, run over what is left of the buffer and
  -- over 256 at the end of the input, reaches an action it gives that action; where it has no
  -- transition it goes back to the last mark on the way and gives its action, or that of an earlier
  -- call on a reentry, and fails if there is none; where the buffer ends first it asks for a refill
  -- from the state reached, with the last mark kept. The start of
  -- the token is the position of a first entry, and stays on a reentry.
  pub lex_engine_lem :
      (s : ℕ) (b : LexerBuffer)
      → (outcome? (lex_engine tbl (pos s) b)
          ≡ some (
              expected
                (stop tbl s (unread b))
                (longest tbl s (unread b))
                b.lex_curr_pos
                b.lex_curr_pos
                b.lex_curr_pos
                minus_one))
        × (outcome? (lex_engine tbl (negsuc s) b)
            ≡ some (
                expected
                  (stop tbl s (unread b))
                  (longest tbl s (unread b))
                  b.lex_start_pos
                  b.lex_curr_pos
                  b.lex_last_pos
                  b.lex_last_action))
  unfolding lex_engine first_entry
  lex_engine_lem s b = (
    rounds_lem (unread b) (suc (b.lex_buffer_len - b.lex_curr_pos)) s (first_entry b) refl
        (length-unread b),
    rounds_lem (unread b) (suc (b.lex_buffer_len - b.lex_curr_pos)) s b refl (length-unread b),
  )
