-- ===== src/Lexing/Match.antt =====
-- The last mark is the longest match.
use ocaml_pro_ocaml_branch.Base.{
  ℕ, zero, suc, ◌+◌, ◌≤◌, ◌≡◌, ◌≢◌, inl, inr, Option, none, some, List, [], ◌∷◌, length, take,
  Option-cases, arith, ap, refl, sym, ◌∙◌,
}
use ocaml_pro_ocaml_branch.Base.Int.{pos, negsuc, ℤ-cases}
use ocaml_pro_ocaml_branch.Lexing.{LexingTable}
use ocaml_pro_ocaml_branch.Lexing.Automaton.{
  entry, transition, width, Mark, mark_here, farther, longest,
}

-- The action of a state that is a backtrack point.
abbrev pub action_of : LexingTable → ℕ → Option ℕ
action_of tbl state = elim (entry tbl.lex_base state) [
  | negsuc k ↦ none
  | pos base ↦ elim (entry tbl.lex_backtrk state) [ pos a ↦ some a | negsuc k ↦ none ]
]

-- The action of the state that the first `m` characters lead to.
abbrev pub accepts : LexingTable → ℕ → List ℕ → ℕ → Option ℕ
accepts tbl state w zero = action_of tbl state
accepts tbl state [] (suc m) = none
accepts tbl state (c ∷ cs) (suc m) = elim (entry tbl.lex_base state) [
  | negsuc k ↦ none
  | pos base ↦ elim (transition tbl state base c) [
    | negsuc k ↦ none
    | pos state' ↦ accepts tbl state' cs m
  ]
]

abbrev pub characters : List ℕ → ℕ
characters [] = 0
characters (c ∷ cs) = width c + characters cs

-- A prefix with that many characters is accepted with that action.
pub record IsMatch (tbl : LexingTable) (state : ℕ) (w : List ℕ) (n a : ℕ) : Type 0 where
  pub at : ℕ
  pub within : at ≤ length w
  pub count : n ≡ characters (take at w)
  pub is_accepted : accepts tbl state w at ≡ some a

abbrev pub mark_at : ℕ → ℕ → Option Mark
mark_at n a = some (n, a)

some_pair : {m b n a : ℕ} → mark_at m b ≡ mark_at n a → (m ≡ n) × (b ≡ a)
some_pair h = ground arith

none≢some : {x : Mark} → none ≢ some x
none≢some h = ground arith

module _ (tbl : LexingTable) where
  longest_final : (s k : ℕ) (w : List ℕ) → entry tbl.lex_base s ≡ negsuc k → longest tbl s w ≡ none
  longest_final s k [] e = rw (longest, e) refl
  longest_final s k (c ∷ cs) e = rw (longest, e) refl

  module _ (s base : ℕ) (e : entry tbl.lex_base s ≡ pos base) where
    pub longest_end : longest tbl s [] ≡ mark_here (entry tbl.lex_backtrk s)
    longest_end = rw (longest, e) refl

    pub longest_stuck :
        (c : ℕ) (cs : List ℕ) (k : ℕ)
        → transition tbl s base c ≡ negsuc k
        → longest tbl s (c ∷ cs) ≡ mark_here (entry tbl.lex_backtrk s)
    longest_stuck c cs k f = rw (longest, e, f) refl

    pub longest_more :
        (c : ℕ) (cs : List ℕ) (s' : ℕ)
        → transition tbl s base c ≡ pos s'
        → longest tbl s (c ∷ cs)
          ≡ farther (width c) (longest tbl s' cs) (mark_here (entry tbl.lex_backtrk s))
    longest_more c cs s' f = rw (longest, e, f) refl

    pub accepts_more :
        (c : ℕ) (cs : List ℕ) (s' m : ℕ)
        → transition tbl s base c ≡ pos s'
        → accepts tbl s (c ∷ cs) (suc m) ≡ accepts tbl s' cs m
    accepts_more c cs s' m f = rw (accepts, e, f) refl

    here-IsMatch :
        (w : List ℕ) (n a : ℕ)
        → mark_here (entry tbl.lex_backtrk s) ≡ some (n, a)
        → IsMatch tbl s w n a
    here-IsMatch w n a h = elim (ℤ-cases (entry tbl.lex_backtrk s)) [
      | inl (k, f) ↦ absurd (none≢some (ap mark_here (sym f) ∙ h))
      | inr (b, f) ↦
          let (zeros, same) = some_pair (ap mark_here (sym f) ∙ h) in
          record {
            at = 0;
            within = omega arith;
            count = sym zeros;
            is_accepted = rw (accepts, action_of, e, f) (ap some same);
          }
    ]

    more-IsMatch :
        (c : ℕ) (cs : List ℕ) (s' n a m b : ℕ)
        → transition tbl s base c ≡ pos s'
        → longest tbl s' cs ≡ mark_at m b
        → IsMatch tbl s' cs m b
        → longest tbl s (c ∷ cs) ≡ mark_at n a
        → IsMatch tbl s (c ∷ cs) n a
    more-IsMatch c cs s' n a m b f o r h =
        let (count, same) = some_pair (
          ap (λ (x : Option Mark). farther (width c) x (mark_here (entry tbl.lex_backtrk s)))
            (sym o)
          ∙ sym (longest_more c cs s' f)
          ∙ h) in
        record {
          at = suc r.at;
          within = omega (arith, r.within);
          count = sym count ∙ ap (λ (k : ℕ). width c + k) r.count;
          is_accepted = accepts_more c cs s' r.at f ∙ r.is_accepted ∙ ap some same;
        }

    none_more :
        (c : ℕ) (cs : List ℕ) (s' n a : ℕ)
        → transition tbl s base c ≡ pos s'
        → longest tbl s' cs ≡ none
        → longest tbl s (c ∷ cs) ≡ mark_at n a
        → IsMatch tbl s (c ∷ cs) n a
    none_more c cs s' n a f o h = here-IsMatch (c ∷ cs) n a (
        ap (λ (x : Option Mark). farther (width c) x (mark_here (entry tbl.lex_backtrk s))) (sym o)
        ∙ sym (longest_more c cs s' f)
        ∙ h)

  -- The mark that the automaton keeps is a match: a prefix of the input with that number of characters
  -- leads to a backtrack point with that action.
  pub longest-IsMatch :
      (s : ℕ) (w : List ℕ) (n a : ℕ) → longest tbl s w ≡ some (n, a) → IsMatch tbl s w n a
  longest-IsMatch s [] n a h = elim (ℤ-cases (entry tbl.lex_base s)) [
    | inl (k, e) ↦ absurd (none≢some (sym (longest_final s k [] e) ∙ h))
    | inr (base, e) ↦ here-IsMatch s base e [] n a (sym (longest_end s base e) ∙ h)
  ]
  longest-IsMatch s (c ∷ cs) n a h = elim (ℤ-cases (entry tbl.lex_base s)) [
    | inl (k, e) ↦ absurd (none≢some (sym (longest_final s k (c ∷ cs) e) ∙ h))
    | inr (base, e) ↦ elim (ℤ-cases (transition tbl s base c)) [
      | inl (k, f) ↦ here-IsMatch s base e (c ∷ cs) n a (sym (longest_stuck s base e c cs k f) ∙ h)
      | inr (s', f) ↦ elim (Option-cases (longest tbl s' cs)) [
        | inl o ↦ none_more s base e c cs s' n a f o h
        | inr ((m, b), o) ↦
            more-IsMatch s base e c cs s' n a m b f o (longest-IsMatch s' cs m b o) h
      ]
    ]
  ]
