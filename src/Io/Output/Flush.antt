-- ===== src/Io/Output/Flush.antt =====
-- caml_flush_partial and caml_flush.
use ocaml_pro_ocaml_branch.Base.{
  ℕ, zero, suc, ◌+◌, ◌-◌, ◌≤◌, ◌<◌, ◌≡◌, Bool, true, false, List, [], ◌++◌, length, take, drop, ltb,
  ◌==◌, if◌then◌else◌, refl, sym, ap, ◌∙◌, arith, length-take, length-drop, length-append,
  Bool-cases, ltb→lt, ◌≢◌, ◌⊎◌, inl, inr, ap₂,
}
use ocaml_pro_ocaml_branch.Io.Channel.{
  System, Reply, done, raise, waiting, out_of_fuel, Port, follow, do_write,
}
use ocaml_pro_ocaml_branch.Base.Buffers.{
  slice, blit, append_nil, append_assoc, take-take, take-blit, length-blit, take-append-drop_rest,
}
use ocaml_pro_ocaml_branch.Io.Output.{flushed, flush_partial, flush_loop, flush}
use ocaml_pro_ocaml_branch.Io.Output.Stream.{
  Wrote, do_write-Wrote, accepted, count, IsOutput, Accepts, Accepts-nil, Accepts-append,
}

-- A memmove of what was not written to the start of the buffer keeps it behind what was.
module _ (buff : List ℕ) (curr n : ℕ) (h : n ≤ curr) (within : curr ≤ length buff) where
  abbrev pub moved : List ℕ
  moved = if ltb n curr then blit buff 0 (slice buff n (curr - n)) else buff

  length-slice : length (slice buff n (curr - n)) ≡ curr - n
  length-slice = omega (arith, length-take {0} (curr - n) (drop n buff), length-drop {0} n buff)

  pub length-moved : length moved ≡ length buff
  length-moved = elim (Bool-cases (ltb n curr)) [
    | inl e ↦ rw e (length-blit buff 0 (slice buff n (curr - n)) (omega (arith, length-slice)))
    | inr e ↦ rw e
  ]

  pub take-moved : take n (take curr buff) ++ take (curr - n) moved ≡ take curr buff
  take-moved = elim (Bool-cases (ltb n curr)) [
    | inl e ↦ rw e (
        ap₂ (λ (xs ys : List ℕ). xs ++ ys) (take-take n curr buff h)
          (take-blit buff 0 (slice buff n (curr - n)) (curr - n) (omega arith)
            (omega (arith, length-slice)))
        ∙ take-append-drop_rest n curr buff h)
    | inr e ↦
        let all : n ≡ curr = ground arith in
        let none_left : curr - n ≡ 0 = omega (arith, all) in
        ap₂ (λ (xs ys : List ℕ). xs ++ ys) (take-take n curr buff h ∙ ap (λ k. take k buff) all)
          (ap (λ k. take k moved) none_left)
        ∙ append_nil (take curr buff)
  ]

-- A write takes so many bytes.
length-Wrote :
    {bytes sent sent' : List ℕ} {r : Reply ℕ}
    → Wrote bytes sent sent' r
    → length sent' ≡ length sent + count r
length-Wrote {bytes} {sent} {sent'} {r} w = omega (
  arith,
  ap length w.appended,
  length-append {0} sent (take (count r) bytes),
  length-take {0} (count r) bytes,
  w.bounded,
)

-- A write of the bytes up to `curr`: what it took is sent, and the rest still waits.
pub flushed-Accepts :
    (p : Port) (s' : System) (n : ℕ)
    → IsOutput p.channel
    → Wrote (take p.channel.curr p.channel.buff) p.system.sent s'.sent (done n)
    → Accepts p [] (flushed n (record p { system = s' })).1
unfolding flushed
flushed-Accepts p s' n v w =
    let c = p.channel in
    let taken : n ≤ c.curr = omega (arith, w.bounded, length-take {0} c.curr c.buff) in
    let size = length-moved c.buff c.curr n taken v.within in
    record {
      valid = record {
        within = omega (arith, size, v.within);
        nonempty = omega (arith, size, v.nonempty);
      };
      stream =
          ap (λ (xs : List ℕ). xs ++ take (c.curr - n) (moved c.buff c.curr n taken v.within))
            w.appended
          ∙ append_assoc p.system.sent (take n (take c.curr c.buff)) _
          ∙ ap (λ (xs : List ℕ). p.system.sent ++ xs) (take-moved c.buff c.curr n taken v.within)
          ∙ sym (append_nil (accepted p));
      same_size = size;
      same_fd = refl;
      in_step = omega (arith, length-Wrote w);
    }

-- A write that did not return took nothing.
pub unwritten-Accepts :
    (p : Port) (s' : System) (bytes : List ℕ) (r : Reply ℕ)
    → IsOutput p.channel
    → Wrote bytes p.system.sent s'.sent r
    → count r ≡ 0
    → Accepts p [] (record p { system = s' })
unwritten-Accepts p s' bytes r v w z =
    let same : s'.sent ≡ p.system.sent =
      w.appended ∙ ap (λ k. p.system.sent ++ take k bytes) z ∙ append_nil p.system.sent in
    record {
      valid = v;
      stream =
          ap (λ (xs : List ℕ). xs ++ take p.channel.curr p.channel.buff) same
          ∙ sym (append_nil (accepted p));
      same_size = refl;
      same_fd = refl;
      in_step = omega (arith, length-Wrote w);
    }

written-Accepts :
    (p : Port) (r : Reply ℕ) (s' : System)
    → IsOutput p.channel
    → Wrote (take p.channel.curr p.channel.buff) p.system.sent s'.sent r
    → Accepts p [] (follow (r, record p { system = s' }) flushed).1
written-Accepts p (done n) s' v w = flushed-Accepts p s' n v w
written-Accepts p (raise e) s' v w = unwritten-Accepts p s' _ (raise e) v w refl
written-Accepts p waiting s' v w = unwritten-Accepts p s' _ waiting v w refl
written-Accepts p out_of_fuel s' v w = unwritten-Accepts p s' _ out_of_fuel v w refl

if-Accepts :
    {A : Type 0} (t : Bool) (p : Port) (bytes : List ℕ) (x y : Reply A × Port)
    → (t ≡ true → Accepts p bytes x.1)
    → (t ≡ false → Accepts p bytes y.1)
    → Accepts p bytes (if t then x else y).1
if-Accepts true p bytes x y k k' = k refl
if-Accepts false p bytes x y k k' = k' refl

-- In every outcome.
pub flush_partial-Accepts : (p : Port) → IsOutput p.channel → Accepts p [] (flush_partial p).1
unfolding flush_partial
flush_partial-Accepts p v =
    if-Accepts (ltb 0 p.channel.curr) p [] _ _
      (λ _.
        written-Accepts p _ _ v
          (do_write-Wrote p.channel.fd (take p.channel.curr p.channel.buff) p.system))
      (λ _. Accepts-nil p v)

-- What caml_flush_partial returns, and the room that it makes.
abbrev pub Shrinks : Port → Bool → Port → Type 0
Shrinks p empty p' = (empty ≡ (p'.channel.curr == 0)) × (p'.channel.curr ≤ p.channel.curr - 1)

written-Shrinks :
    (p : Port) (r : Reply ℕ) (s' : System) (empty : Bool)
    → 0 < p.channel.curr
    → ((n : ℕ) → r ≡ done n → 0 < n)
    → (follow (r, record p { system = s' }) flushed).0 ≡ done empty
    → Shrinks p empty (follow (r, record p { system = s' }) flushed).1
unfolding flushed
written-Shrinks p (done n) s' empty l k h = ground (arith, k n refl)
written-Shrinks p (raise e) s' empty l k h = ground arith
written-Shrinks p waiting s' empty l k h = ground arith
written-Shrinks p out_of_fuel s' empty l k h = ground arith

if-Shrinks :
    (t : Bool) (p : Port) (empty : Bool) (x y : Reply Bool × Port)
    → (t ≡ true → x.0 ≡ done empty → Shrinks p empty x.1)
    → (t ≡ false → y.0 ≡ done empty → Shrinks p empty y.1)
    → (if t then x else y).0 ≡ done empty
    → Shrinks p empty (if t then x else y).1
if-Shrinks true p empty x y k k' h = k refl h
if-Shrinks false p empty x y k k' h = k' refl h

-- What it returns, and the room that it makes.
pub flush_partial-Shrinks :
    (p : Port) (empty : Bool)
    → IsOutput p.channel
    → (flush_partial p).0 ≡ done empty
    → Shrinks p empty (flush_partial p).1
unfolding flush_partial
flush_partial-Shrinks p empty v h =
    let c = p.channel in
    if-Shrinks (ltb 0 c.curr) p empty _ _
      (λ some_wait. written-Shrinks p _ _ empty (ground arith) (λ n e.
        (do_write-Wrote c.fd (take c.curr c.buff) p.system).progress n e
          (omega (arith, v.within, length-take {0} c.curr c.buff, ltb→lt 0 c.curr some_wait))))
      (λ none_wait f. ground arith) h

follow_in_time :
    (r : Reply ℕ) (p : Port) → r ≢ out_of_fuel → (follow (r, p) flushed).0 ≢ out_of_fuel
unfolding flushed
follow_in_time (done n) p t = λ h. ground arith
follow_in_time (raise e) p t = λ h. ground arith
follow_in_time waiting p t = λ h. ground arith
follow_in_time out_of_fuel p t = absurd (t refl)

pub flush_partial_in_time : (p : Port) → (flush_partial p).0 ≢ out_of_fuel
unfolding flush_partial
flush_partial_in_time p =
    let c = p.channel in
    let t =
      follow_in_time (do_write c.fd (take c.curr c.buff) p.system).0 _
        (do_write-Wrote c.fd (take c.curr c.buff) p.system).in_time in
    λ h. elim (Bool-cases (ltb 0 c.curr)) [ inl e ↦ t (rw e at h) | inr e ↦ ground arith ]

-- A flush moves bytes to the descriptor and no others; where it returns, none waits.
pub record Flushes (p : Port) (out : Reply (Unit {0}) × Port) : Type 0 where
  pub accepts : Accepts p [] out.1
  pub in_time : out.0 ≢ out_of_fuel
  pub emptied : (out.1.channel.curr ≡ 0) ⊎ (out.0 ≢ done tt)

stopped-Flushes :
    (p p' : Port) (r : Reply (Unit {0}))
    → Accepts p [] p'
    → r ≢ out_of_fuel
    → r ≢ done tt
    → Flushes p (r, p')
stopped-Flushes p p' r a t n = record { accepts = a; in_time = t; emptied = inr n }

flush_round :
    (fuel : ℕ) (p : Port) (out : Reply Bool × Port)
    → ((p' : Port) → IsOutput p'.channel → p'.channel.curr < fuel → Flushes p' (flush_loop fuel p'))
    → p.channel.curr < suc fuel
    → Accepts p [] out.1
    → out.0 ≢ out_of_fuel
    → ((empty : Bool) → out.0 ≡ done empty → Shrinks p empty out.1)
    → Flushes p
        (follow out (λ empty p'. elim empty [ true ↦ (done tt, p') | false ↦ flush_loop fuel p' ]))
flush_round fuel p (done true, p') rest l a t k = record {
  accepts = a;
  in_time = λ h. ground arith;
  emptied = inl (ground (arith, k true refl));
}
flush_round fuel p (done false, p') rest l a t k =
    let q = rest p' a.valid (ground (arith, k false refl)) in
    record { accepts = Accepts-append a q.accepts; in_time = q.in_time; emptied = q.emptied }
flush_round fuel p (raise e, p') rest l a t k =
    stopped-Flushes p p' (raise e) a (λ h. ground arith) (λ h. ground arith)
flush_round fuel p (waiting, p') rest l a t k =
    stopped-Flushes p p' waiting a (λ h. ground arith) (λ h. ground arith)
flush_round fuel p (out_of_fuel, p') rest l a t k = absurd (t refl)

flush_loop-Flushes :
    (fuel : ℕ) (p : Port)
    → IsOutput p.channel
    → p.channel.curr < fuel
    → Flushes p (flush_loop fuel p)
unfolding flush_loop
flush_loop-Flushes zero p v l = absurd (omega arith)
flush_loop-Flushes (suc fuel) p v l =
    flush_round fuel p (flush_partial p) (λ p' v' l'. flush_loop-Flushes fuel p' v' l') l
      (flush_partial-Accepts p v) (flush_partial_in_time p)
      (λ empty h. flush_partial-Shrinks p empty v h)

pub flush-Flushes : (p : Port) → IsOutput p.channel → Flushes p (flush p)
unfolding flush
flush-Flushes p v = flush_loop-Flushes (suc p.channel.curr) p v (omega arith)
