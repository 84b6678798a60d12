-- ===== src/Lexing/Maximal.antt =====
-- No match is longer than the one that the automaton keeps.
use ocaml_pro_ocaml_branch.Base.{
  ℕ, zero, suc, ◌+◌, ◌≤◌, ◌≡◌, ◌≢◌, inl, inr, Option, none, some, List, [], ◌∷◌, length, take,
  Option-cases, arith, ap, refl, sym, ◌∙◌,
}
use ocaml_pro_ocaml_branch.Base.Int.{pos, negsuc, ℤ-cases}
use ocaml_pro_ocaml_branch.Lexing.{LexingTable}
use ocaml_pro_ocaml_branch.Lexing.Automaton.{
  entry, transition, width, Mark, mark_here, farther, longest,
}
use ocaml_pro_ocaml_branch.Lexing.Match.{
  action_of, accepts, characters, mark_at, longest_end, longest_stuck, longest_more, accepts_more,
  longest-IsMatch,
}

-- The automaton keeps a match that is no shorter than the prefix of length `m`.
pub record IsBeyond (tbl : LexingTable) (s : ℕ) (w : List ℕ) (m : ℕ) : Type 0 where
  pub chars : ℕ
  pub action : ℕ
  pub at : ℕ
  pub found : longest tbl s w ≡ some (chars, action)
  pub no_shorter : m ≤ at
  pub within : at ≤ length w
  pub count : chars ≡ characters (take at w)
  pub is_accepted : accepts tbl s w at ≡ some action

none≢action : {a : ℕ} → none ≢ some a
none≢action h = ground arith

module _ (tbl : LexingTable) (s : ℕ) where
  match-IsBeyond : (w : List ℕ) (n a : ℕ) → longest tbl s w ≡ mark_at n a → IsBeyond tbl s w 0
  match-IsBeyond w n a h =
      let r = longest-IsMatch tbl s w n a h in
      record {
        chars = n;
        action = a;
        at = r.at;
        found = h;
        no_shorter = omega arith;
        within = r.within;
        count = r.count;
        is_accepted = r.is_accepted;
      }

  not_final :
      (w : List ℕ) (m k a : ℕ) → entry tbl.lex_base s ≡ negsuc k → accepts tbl s w m ≢ some a
  not_final w zero k a e h = none≢action (sym (accepts_none w) ∙ h)
    where
      accepts_none : (w : List ℕ) → accepts tbl s w 0 ≡ none
      accepts_none w = rw (accepts, action_of, e) refl
  not_final [] (suc m) k a e h = none≢action h
  not_final (c ∷ cs) (suc m) k a e h = none≢action (sym accepts_none ∙ h)
    where
      accepts_none : accepts tbl s (c ∷ cs) (suc m) ≡ none
      accepts_none = rw (accepts, e) refl

  module _ (base : ℕ) (e : entry tbl.lex_base s ≡ pos base) where
    here_mark :
        (a : ℕ) → action_of tbl s ≡ some a → mark_here (entry tbl.lex_backtrk s) ≡ mark_at 0 a
    here_mark a h = elim (ℤ-cases (entry tbl.lex_backtrk s)) [
      | inl (k, f) ↦ absurd (none≢action (sym (no_action k f) ∙ h))
      | inr (b, f) ↦ ap mark_here f ∙ ap (λ (o : Option ℕ). paired o) (sym (action b f) ∙ h)
    ]
      where
        paired : Option ℕ → Option Mark
        paired none = none
        paired (some a) = mark_at 0 a

        no_action : (k : ℕ) → entry tbl.lex_backtrk s ≡ negsuc k → action_of tbl s ≡ none
        no_action k f = rw (action_of, e, f) refl

        action : (b : ℕ) → entry tbl.lex_backtrk s ≡ pos b → action_of tbl s ≡ some b
        action b f = rw (action_of, e, f) refl

    not_stuck :
        (c : ℕ) (cs : List ℕ) (m k a : ℕ)
        → transition tbl s base c ≡ negsuc k
        → accepts tbl s (c ∷ cs) (suc m) ≢ some a
    not_stuck c cs m k a f h = none≢action (sym accepts_none ∙ h)
      where
        accepts_none : accepts tbl s (c ∷ cs) (suc m) ≡ none
        accepts_none = rw (accepts, e, f) refl

    -- A match of no characters: the automaton keeps that one or a later one.
    empty-IsBeyond :
        (w : List ℕ) (a : ℕ)
        → mark_here (entry tbl.lex_backtrk s) ≡ mark_at 0 a
        → IsBeyond tbl s w 0
    empty-IsBeyond [] a h = match-IsBeyond [] 0 a (longest_end tbl s base e ∙ h)
    empty-IsBeyond (c ∷ cs) a h = elim (ℤ-cases (transition tbl s base c)) [
      | inl (k, f) ↦ match-IsBeyond (c ∷ cs) 0 a (longest_stuck tbl s base e c cs k f ∙ h)
      | inr (s', f) ↦ elim (Option-cases (longest tbl s' cs)) [
        | inl o ↦ match-IsBeyond (c ∷ cs) 0 a (longest_more tbl s base e c cs s' f ∙ later o ∙ h)
        | inr ((m, b), o) ↦
            match-IsBeyond (c ∷ cs) (width c + m) b (longest_more tbl s base e c cs s' f ∙ later o)
      ]
    ]
      where
        later :
            {x y : Option Mark}
            → x ≡ y
            → farther (width c) x (mark_here (entry tbl.lex_backtrk s))
              ≡ farther (width c) y (mark_here (entry tbl.lex_backtrk s))
        later o =
            ap (λ (x : Option Mark). farther (width c) x (mark_here (entry tbl.lex_backtrk s))) o

    more-IsBeyond :
        (c : ℕ) (cs : List ℕ) (s' m : ℕ)
        → transition tbl s base c ≡ pos s'
        → IsBeyond tbl s' cs m
        → IsBeyond tbl s (c ∷ cs) (suc m)
    more-IsBeyond c cs s' m f r = record {
      chars = width c + r.chars;
      action = r.action;
      at = suc r.at;
      found =
          longest_more tbl s base e c cs s' f
          ∙ ap (λ (x : Option Mark). farther (width c) x (mark_here (entry tbl.lex_backtrk s)))
              r.found;
      no_shorter = omega (arith, r.no_shorter);
      within = omega (arith, r.within);
      count = ap (λ (k : ℕ). width c + k) r.count;
      is_accepted = accepts_more tbl s base e c cs s' r.at f ∙ r.is_accepted;
    }

-- If some prefix of the input is accepted, then the automaton keeps a match, of a prefix that is
-- accepted and no shorter: it is the longest.
pub longest-IsBeyond :
    (tbl : LexingTable) (s : ℕ) (w : List ℕ) (m a : ℕ)
    → accepts tbl s w m ≡ some a
    → IsBeyond tbl s w m
longest-IsBeyond tbl s w zero a h = elim (ℤ-cases (entry tbl.lex_base s)) [
  | inl (k, e) ↦ absurd (not_final tbl s w zero k a e h)
  | inr (base, e) ↦ empty-IsBeyond tbl s base e w a (here_mark tbl s base e a h)
]
longest-IsBeyond tbl s [] (suc m) a h = absurd (none≢action h)
longest-IsBeyond tbl s (c ∷ cs) (suc m) a h = elim (ℤ-cases (entry tbl.lex_base s)) [
  | inl (k, e) ↦ absurd (not_final tbl s (c ∷ cs) (suc m) k a e h)
  | inr (base, e) ↦ elim (ℤ-cases (transition tbl s base c)) [
    | inl (k, f) ↦ absurd (not_stuck tbl s base e c cs m k a f h)
    | inr (s', f) ↦
        more-IsBeyond tbl s base e c cs s' m f
          (longest-IsBeyond tbl s' cs m a (sym (accepts_more tbl s base e c cs s' m f) ∙ h))
  ]
]
