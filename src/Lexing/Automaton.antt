-- ===== src/Lexing/Automaton.antt =====
-- What the tables mean: where the automaton stops on an input, and its last mark on the way.
use ocaml_pro_ocaml_branch.Base.{
  ℕ, zero, suc, ◌+◌, ◌-◌, ◌*◌, ◌%◌, ◌^◌, Bool, true, false, Option, none, some, List, [], ◌∷◌, ◌++◌,
  get_or, leb, ◌==◌, ◌≡◌, arith, refl, if◌then◌else◌,
}
use ocaml_pro_ocaml_branch.Base.Int.{ℤ, pos, negsuc, sub_ℕ}
use ocaml_pro_ocaml_branch.Lexing.{Bytes, LexingTable, LexerBuffer, eq_ℤ, short, next_state}

-- The number at an index of a table: two bytes, the second with the sign.
unfoldable pub entry : Bytes → ℕ → ℤ
entry tbl n =
    let low = tbl (n * 2) % 256 in
    let high = tbl (n * 2 + 1) % 256 in sub_ℕ (low + 256 * high) (if leb 128 high then 65536 else 0)

-- The states that share the entries of a row are told apart by the check: the transition is that of
-- lex_trans where the entry of the character belongs to the state, and that of lex_default otherwise; a
-- negative number is none.
abbrev owned : ℤ → ℕ → ℤ → ℤ → ℤ
owned (pos owner) state taken default = if owner == state then taken else default
owned (negsuc k) state taken default = default

unfoldable pub transition : LexingTable → ℕ → ℕ → ℕ → ℤ
transition tbl state base c =
    owned (entry tbl.lex_check (base + c)) state (entry tbl.lex_trans (base + c))
      (entry tbl.lex_default state)

pub short-entry : (tbl : Bytes) (n : ℕ) → short tbl n ≡ entry tbl n
unfolding short entry
short-entry tbl n = ground arith

by_owner :
    (o : ℤ) (state : ℕ) (taken default : ℤ)
    → (if eq_ℤ o (pos state) then taken else default) ≡ owned o state taken default
by_owner (pos owner) state taken default = refl
by_owner (negsuc k) state taken default = refl

pub next_state-transition :
    (tbl : LexingTable) (state base c : ℕ)
    → next_state tbl state base c ≡ transition tbl state base c
unfolding next_state transition
next_state-transition tbl state base c =
    rw
      (
        short-entry tbl.lex_check (base + c),
        short-entry tbl.lex_trans (base + c),
        short-entry tbl.lex_default state,
      )
      (by_owner (entry tbl.lex_check (base + c)) state (entry tbl.lex_trans (base + c))
        (entry tbl.lex_default state))

-- `n` bytes of a string from index `i`.
abbrev pub bytes_from : List ℕ → ℕ → ℕ → List ℕ
bytes_from buf i zero = []
bytes_from buf i (suc n) = get_or buf i 0 % 2 ^ 8 ∷ bytes_from buf (i + 1) n

abbrev pub end_mark : Bool → List ℕ
end_mark true = 256 ∷ []
end_mark false = []

-- What the engine can still read without a refill: the rest of the buffer, then 256 at the end of
-- the input.
abbrev pub unread : LexerBuffer → List ℕ
unread b =
    bytes_from b.lex_buffer b.lex_curr_pos (b.lex_buffer_len - b.lex_curr_pos)
    ++ end_mark b.lex_eof_reached

-- Characters in the buffer: the end of the input is none.
abbrev pub width : ℕ → ℕ
width c = if c == 256 then 0 else 1

-- The end of a run, with the number of characters read: an action, no transition, or no more input.
pub data Stop : Type 0 where
  final : ℕ → ℕ → Stop
  stuck : Stop
  hungry : ℕ → ℕ → Stop

abbrev pub after : ℕ → Stop → Stop
after n (final m k) = final (n + m) k
after n stuck = stuck
after n (hungry m s) = hungry (n + m) s

abbrev pub stop : LexingTable → ℕ → List ℕ → Stop
stop tbl state [] = elim (entry tbl.lex_base state) [
  | negsuc k ↦ final 0 k
  | pos base ↦ hungry 0 state
]
stop tbl state (c ∷ cs) = elim (entry tbl.lex_base state) [
  | negsuc k ↦ final 0 k
  | pos base ↦ elim (transition tbl state base c) [
    | negsuc k ↦ stuck
    | pos state' ↦ after (width c) (stop tbl state' cs)
  ]
]

-- A mark: the number of characters read, and the action.
abbrev pub Mark : Type 0
Mark = ℕ × ℕ

abbrev pub mark_here : ℤ → Option Mark
mark_here (pos a) = some (0, a)
mark_here (negsuc k) = none

-- The mark found further on, after `n` more characters, or else the one before.
abbrev pub farther : ℕ → Option Mark → Option Mark → Option Mark
farther n (some (m, a)) before = some (n + m, a)
farther n none before = before

abbrev pub longest : LexingTable → ℕ → List ℕ → Option Mark
longest tbl state [] = elim (entry tbl.lex_base state) [
  | negsuc k ↦ none
  | pos base ↦ mark_here (entry tbl.lex_backtrk state)
]
longest tbl state (c ∷ cs) = elim (entry tbl.lex_base state) [
  | negsuc k ↦ none
  | pos base ↦
      let here = mark_here (entry tbl.lex_backtrk state) in
      elim (transition tbl state base c) [
        | negsuc k ↦ here
        | pos state' ↦ farther (width c) (longest tbl state' cs) here
      ]
]
