-- ===== src/Lexing/Tokens.antt =====
-- The token that caml_lex_engine returns is the longest that the tables accept.
use ocaml_pro_ocaml_branch.Base.{
  ℕ, ◌+◌, ◌≤◌, ◌≡◌, ◌≢◌, inl, inr, Option, none, some, length, take, Option-cases, arith, ap, sym,
  ◌∙◌,
}
use ocaml_pro_ocaml_branch.Base.Int.{pos}
use ocaml_pro_ocaml_branch.Lexing.{LexingTable, LexerBuffer, Run, minus_one, lex_engine}
use ocaml_pro_ocaml_branch.Lexing.Automaton.{unread, Stop, stuck, stop, Mark, longest}
use ocaml_pro_ocaml_branch.Lexing.Longest.{Outcome, outcome, outcome?, expected, lex_engine_lem}
use ocaml_pro_ocaml_branch.Lexing.Match.{accepts, characters, mark_at}
use ocaml_pro_ocaml_branch.Lexing.Maximal.{IsBeyond, longest-IsBeyond}

-- The engine returns the action of an accepted prefix of the input, no shorter than the one of length
-- `m`, and the token is that prefix.
pub record IsToken (tbl : LexingTable) (s : ℕ) (b : LexerBuffer) (m : ℕ) : Type 0 where
  pub result : Run
  pub action : ℕ
  pub at : ℕ
  pub runs : lex_engine tbl (pos s) b ≡ some result
  pub no_shorter : m ≤ at
  pub within : at ≤ length (unread b)
  pub is_accepted : accepts tbl s (unread b) at ≡ some action
  pub gives : result.value ≡ some (pos action)
  pub starts : result.lexbuf.lex_start_pos ≡ b.lex_curr_pos
  pub ends : result.lexbuf.lex_curr_pos ≡ b.lex_curr_pos + characters (take at (unread b))

none≢outcome : {o : Outcome} → none ≢ some o
none≢outcome h = ground arith

some_outcome : {o p : Outcome} → some o ≡ some p → o ≡ p
some_outcome {o} h = ap (λ (x : Option Outcome). get x) h
  where
    get : Option Outcome → Outcome
    get none = o
    get (some p) = p

module _ (tbl : LexingTable) (s : ℕ) (b : LexerBuffer) where
  entered : Stop → Option Mark → Outcome
  entered t m = expected t m b.lex_curr_pos b.lex_curr_pos b.lex_curr_pos minus_one

  returned-IsToken :
      {m : ℕ} (r : Run)
      → lex_engine tbl (pos s) b ≡ some r
      → (found : IsBeyond tbl s (unread b) m)
      → outcome r ≡ entered stuck (mark_at found.chars found.action)
      → IsToken tbl s b m
  unfolding entered
  returned-IsToken r e found h = record {
    result = r;
    action = found.action;
    at = found.at;
    runs = e;
    no_shorter = found.no_shorter;
    within = found.within;
    is_accepted = found.is_accepted;
    gives = ap (λ (o : Outcome). o.value) h;
    starts = ap (λ (o : Outcome). o.start_pos) h;
    ends = ap (λ (o : Outcome). o.curr_pos) h ∙ ap (λ (n : ℕ). b.lex_curr_pos + n) found.count;
  }

  -- On a first entry whose run ends for want of a transition, where some prefix of what is left of the
  -- buffer leads to a backtrack point, caml_lex_engine returns the action of a prefix that does and that
  -- is no shorter: the token starts at the position of the call, and the new position is the end of that
  -- prefix.
  pub lex_engine-IsToken :
      (m a : ℕ)
      → stop tbl s (unread b) ≡ stuck
      → accepts tbl s (unread b) m ≡ some a
      → IsToken tbl s b m
  unfolding entered
  lex_engine-IsToken m a ends h =
      let found = longest-IsBeyond tbl s (unread b) m a h in
      let (here, again) = lex_engine_lem tbl s b in
      let shown =
        here
        ∙ ap (λ (t : Stop). some (entered t (longest tbl s (unread b)))) ends
        ∙ ap (λ (k : Option Mark). some (entered stuck k)) found.found in
      elim (Option-cases (lex_engine tbl (pos s) b)) [
        | inl e ↦ absurd (none≢outcome (sym (ap outcome? e) ∙ shown))
        | inr (r, e) ↦ returned-IsToken r e found (some_outcome (sym (ap outcome? e) ∙ shown))
      ]
