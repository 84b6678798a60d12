-- ===== src/Io/Output/Chars.antt =====
-- putch and caml_putword.
use ocaml_pro_ocaml_branch.Base.{
  ℕ, ◌+◌, ◌/◌, ◌%◌, ◌^◌, ◌<◌, ◌≡◌, ◌≢◌, min, Bool, true, false, List, [], ◌∷◌, ◌++◌, length, take,
  leb, if◌then◌else◌, refl, sym, ap, ◌∙◌, arith, length-set, ◌⊎◌, inl, inr, subst, inl, inr,
}
use ocaml_pro_ocaml_branch.Io.Channel.{Reply, done, raise, waiting, out_of_fuel, Port, Io, follow}
use ocaml_pro_ocaml_branch.Base.Buffers.{
  take-append_beyond, take-min, take-length, take-set, append_assoc,
}
use ocaml_pro_ocaml_branch.Io.Output.{flush_partial, putch, putword, store}
use ocaml_pro_ocaml_branch.Io.Output.Stream.{IsOutput, Accepts, Accepts-append}
use ocaml_pro_ocaml_branch.Io.Output.Flush.{
  flush_partial-Accepts, flush_partial-Shrinks, flush_partial_in_time, Shrinks,
}

-- A function that puts out bytes: the channel accepts the first of them, all of them if it returns.
pub record Puts (p : Port) (bytes : List ℕ) (out : Reply (Unit {0}) × Port) : Type 0 where
  pub number : ℕ
  pub accepts : Accepts p (take number bytes) out.1
  pub complete : (take number bytes ≡ bytes) ⊎ (out.0 ≢ done tt)
  pub in_time : out.0 ≢ out_of_fuel

pub stopped-Puts :
    (p p' : Port) (bytes : List ℕ) (n : ℕ) (r : Reply (Unit {0}))
    → Accepts p (take n bytes) p'
    → r ≢ done tt
    → r ≢ out_of_fuel
    → Puts p bytes (r, p')
stopped-Puts p p' bytes n r a d t = record {
  number = n;
  accepts = a;
  complete = inr d;
  in_time = t;
}

pub all-Puts : (p p' : Port) (bytes : List ℕ) → Accepts p bytes p' → Puts p bytes (done tt, p')
all-Puts p p' bytes a = record {
  number = length bytes;
  accepts = subst (λ (xs : List ℕ). Accepts p xs p') (sym (take-length bytes)) a;
  complete = inl (take-length bytes);
  in_time = λ h. ground arith;
}

-- Bytes before those of a function.
pub before-Puts :
    (p p' : Port) (bytes bytes' : List ℕ) (out : Reply (Unit {0}) × Port)
    → Accepts p bytes p'
    → Puts p' bytes' out
    → Puts p (bytes ++ bytes') out
before-Puts p p' bytes bytes' out a q = record {
  number = length bytes + q.number;
  accepts =
      subst (λ (xs : List ℕ). Accepts p xs out.1) (sym (take-append_beyond bytes bytes' q.number))
        (Accepts-append a q.accepts);
  complete = elim q.complete [
    | inl e ↦ inl (take-append_beyond bytes bytes' q.number ∙ ap (λ (xs : List ℕ). bytes ++ xs) e)
    | inr n ↦ inr n
  ];
  in_time = q.in_time;
}

-- One after the other.
pub follow-Puts :
    (p : Port) (bytes bytes' : List ℕ) (out : Reply (Unit {0}) × Port) (k : Io (Unit {0}))
    → Puts p bytes out
    → ((p' : Port) → IsOutput p'.channel → Puts p' bytes' (k p'))
    → Puts p (bytes ++ bytes') (follow out (λ _. k))
follow-Puts p bytes bytes' (done u, p') k q rest =
    let whole : take q.number bytes ≡ bytes = elim q.complete [
      | inl e ↦ e
      | inr n ↦ absurd (n refl)
    ] in
    before-Puts p p' bytes bytes' (k p') (subst (λ (xs : List ℕ). Accepts p xs p') whole q.accepts)
      (rest p' q.accepts.valid)
follow-Puts p bytes bytes' (raise e, p') k q rest =
    stopped-Puts p p' (bytes ++ bytes') (min q.number (length bytes)) (raise e)
      (subst (λ (xs : List ℕ). Accepts p xs p') (sym (take-min q.number bytes bytes')) q.accepts)
      (λ h. ground arith) (λ h. ground arith)
follow-Puts p bytes bytes' (waiting, p') k q rest =
    stopped-Puts p p' (bytes ++ bytes') (min q.number (length bytes)) waiting
      (subst (λ (xs : List ℕ). Accepts p xs p') (sym (take-min q.number bytes bytes')) q.accepts)
      (λ h. ground arith) (λ h. ground arith)
follow-Puts p bytes bytes' (out_of_fuel, p') k q rest = absurd (q.in_time refl)

store-Accepts :
    (p : Port) (ch : ℕ)
    → IsOutput p.channel
    → p.channel.curr < length p.channel.buff
    → Accepts p (ch % 2 ^ 8 ∷ []) (store ch p).1
store-Accepts p ch v room =
    let c = p.channel in
    record {
      valid = record {
        within = omega (arith, length-set {0} c.buff c.curr (ch % 2 ^ 8));
        nonempty = omega (arith, length-set {0} c.buff c.curr (ch % 2 ^ 8), v.nonempty);
      };
      stream =
          ap (λ (xs : List ℕ). p.system.sent ++ xs) (take-set c.buff c.curr (ch % 2 ^ 8) room)
          ∙ sym (append_assoc p.system.sent (take c.curr c.buff) (ch % 2 ^ 8 ∷ []));
      same_size = length-set c.buff c.curr (ch % 2 ^ 8);
      same_fd = refl;
      in_step = refl;
    }

-- After a flush that made room.
flushed-Puts :
    (p : Port) (ch : ℕ) (out : Reply Bool × Port)
    → IsOutput p.channel
    → Accepts p [] out.1
    → out.0 ≢ out_of_fuel
    → ((empty : Bool) → out.0 ≡ done empty → Shrinks p empty out.1)
    → Puts p (ch % 2 ^ 8 ∷ []) (follow out (λ _. store ch))
flushed-Puts p ch (done empty, p') v a t k = all-Puts p _ _ (
    Accepts-append a (
      store-Accepts p' ch a.valid
        (omega (arith, (k empty refl).1, a.same_size, v.within, v.nonempty))))
flushed-Puts p ch (raise e, p') v a t k =
    stopped-Puts p p' _ 0 (raise e) a (λ h. ground arith) (λ h. ground arith)
flushed-Puts p ch (waiting, p') v a t k =
    stopped-Puts p p' _ 0 waiting a (λ h. ground arith) (λ h. ground arith)
flushed-Puts p ch (out_of_fuel, p') v a t k = absurd (t refl)

pub if-Puts :
    (t : Bool) (p : Port) (bytes : List ℕ) (x y : Reply (Unit {0}) × Port)
    → (t ≡ true → Puts p bytes x)
    → (t ≡ false → Puts p bytes y)
    → Puts p bytes (if t then x else y)
if-Puts true p bytes x y k k' = k refl
if-Puts false p bytes x y k k' = k' refl

pub putch-Puts : (p : Port) (ch : ℕ) → IsOutput p.channel → Puts p (ch % 2 ^ 8 ∷ []) (putch ch p)
unfolding putch
putch-Puts p ch v =
    if-Puts (leb (length p.channel.buff) p.channel.curr) p _ _ _
      (λ full.
        flushed-Puts p ch (flush_partial p) v (flush_partial-Accepts p v) (flush_partial_in_time p)
          (λ empty h. flush_partial-Shrinks p empty v h))
      (λ room. all-Puts p _ _ (store-Accepts p ch v (ground arith)))

-- The four bytes of a word, the most significant first.
abbrev pub word_bytes : ℕ → List ℕ
word_bytes w = w / 2 ^ 24 % 2 ^ 8 ∷ w / 2 ^ 16 % 2 ^ 8 ∷ w / 2 ^ 8 % 2 ^ 8 ∷ w % 2 ^ 8 ∷ []

pub putword-Puts : (p : Port) (w : ℕ) → IsOutput p.channel → Puts p (word_bytes w) (putword w p)
unfolding putword
putword-Puts p w v = follow-Puts p _ _ _ _ (putch-Puts p (w / 2 ^ 24) v) (λ p1 v1.
    follow-Puts p1 _ _ _ _ (putch-Puts p1 (w / 2 ^ 16) v1) (λ p2 v2.
      follow-Puts p2 _ _ _ _ (putch-Puts p2 (w / 2 ^ 8) v2) (λ p3 v3. putch-Puts p3 w v3)))
