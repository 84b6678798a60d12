-- ===== src/Io/Output/Progress.antt =====
-- A flush returns, when the kernel takes bytes.
use ocaml_pro_ocaml_branch.Base.{
  ℕ, zero, suc, ◌-◌, ◌≤◌, ◌<◌, ◌≡◌, Bool, true, false, List, [], ◌∷◌, take, ltb, if◌then◌else◌,
  refl, ◌∙◌, arith, inl, inr, subst, Bool-cases, ltb→lt,
}
use ocaml_pro_ocaml_branch.Base.Int.{ℤ, pos, negsuc}
use ocaml_pro_ocaml_branch.Io.Channel.{
  Event, transferred, interrupted, would_block, failed, System, Reply, done, raise, waiting,
  out_of_fuel, Port, follow, write_events, do_write,
}
use ocaml_pro_ocaml_branch.Io.Output.{flushed, flush_partial, flush_loop, flush}
use ocaml_pro_ocaml_branch.Io.Output.Stream.{IsOutput}
use ocaml_pro_ocaml_branch.Io.Output.Flush.{flush_partial-Accepts, flush_partial-Shrinks}

-- `n` transfers come, with interruptions at most before and between them.
abbrev pub ready : ℕ → List Event → Bool
ready zero es = true
ready (suc n) [] = false
ready (suc n) (transferred k ∷ es) = ready n es
ready (suc n) (interrupted ∷ es) = ready (suc n) es
ready (suc n) (would_block ∷ es) = false
ready (suc n) (failed ∷ es) = false

ready_less : (m n : ℕ) (es : List Event) → m ≤ n → ready n es ≡ true → ready m es ≡ true
ready_less zero n es l h = refl
ready_less (suc m) zero es l h = absurd (omega arith)
ready_less (suc m) (suc n) [] l h = h
ready_less (suc m) (suc n) (transferred k ∷ es) l h = ready_less m n es (omega arith) h
ready_less (suc m) (suc n) (interrupted ∷ es) l h = ready_less (suc m) (suc n) es l h
ready_less (suc m) (suc n) (would_block ∷ es) l h = h
ready_less (suc m) (suc n) (failed ∷ es) l h = h

abbrev Written : ℕ → Reply ℕ × System → Type 0
Written n out = (k : ℕ) × (out.0 ≡ done k) × (ready n out.1.events ≡ true)

write_events-Written :
    (bytes : List ℕ) (es : List Event) (s : System) (n : ℕ)
    → ready (suc n) es ≡ true
    → Written n (write_events bytes es s)
unfolding write_events
write_events-Written bytes [] s n h = absurd (ground arith)
write_events-Written bytes (transferred k ∷ es) s n h = (_, refl, h)
write_events-Written bytes (interrupted ∷ es) s n h = write_events-Written bytes es s n h
write_events-Written bytes (would_block ∷ es) s n h = absurd (ground arith)
write_events-Written bytes (failed ∷ es) s n h = absurd (ground arith)

do_write-Written :
    (fd : ℤ) (m : ℕ) (bytes : List ℕ) (s : System) (n : ℕ)
    → fd ≡ pos m
    → ready (suc n) s.events ≡ true
    → Written n (do_write fd bytes s)
unfolding do_write
do_write-Written (pos fd) m bytes s n e h = write_events-Written bytes s.events s n h
do_write-Written (negsuc i) m bytes s n e h = absurd (ground arith)

-- One round, with bytes that wait.
abbrev Round : ℕ → Reply Bool × Port → Type 0
Round n out = (empty : Bool) × (out.0 ≡ done empty) × (ready n out.1.system.events ≡ true)

written-Round :
    (p : Port) (n k : ℕ) (r : Reply ℕ) (s' : System)
    → r ≡ done k
    → ready n s'.events ≡ true
    → Round n (follow (r, record p { system = s' }) flushed)
unfolding flushed
written-Round p n k (done i) s' e h = (_, refl, h)
written-Round p n k (raise x) s' e h = absurd (ground arith)
written-Round p n k waiting s' e h = absurd (ground arith)
written-Round p n k out_of_fuel s' e h = absurd (ground arith)

if-Round :
    (t : Bool) (n : ℕ) (x y : Reply Bool × Port)
    → t ≡ true
    → Round n x
    → Round n (if t then x else y)
if-Round true n x y e r = r
if-Round false n x y e r = absurd (ground arith)

flush_partial-Round :
    (p : Port) (m n : ℕ)
    → p.channel.fd ≡ pos m
    → 0 < p.channel.curr
    → ready (suc n) p.system.events ≡ true
    → Round n (flush_partial p)
unfolding flush_partial
flush_partial-Round p m n e l h =
    let c = p.channel in
    let w = do_write-Written c.fd m (take c.curr c.buff) p.system n e h in
    if-Round (ltb 0 c.curr) n _ _ (ground arith) (written-Round p n w.0 _ _ w.1 w.2)

flush_partial_empty : (p : Port) → p.channel.curr ≡ 0 → flush_partial p ≡ (done true, p)
unfolding flush_partial
flush_partial_empty p z = rw z

flush_round :
    (fuel : ℕ) (empty : Bool) (out : Reply Bool × Port)
    → out.0 ≡ done empty
    → (flush_loop fuel out.1).0 ≡ done tt
    → (follow out
        (λ empty' p'. elim empty' [ true ↦ (done tt, p') | false ↦ flush_loop fuel p' ])).0
      ≡ done tt
flush_round fuel empty (done true, p') e h = refl
flush_round fuel empty (done false, p') e h = h
flush_round fuel empty (raise x, p') e h = absurd (ground arith)
flush_round fuel empty (waiting, p') e h = absurd (ground arith)
flush_round fuel empty (out_of_fuel, p') e h = absurd (ground arith)

flush_loop_returns :
    (fuel m : ℕ) (p : Port)
    → IsOutput p.channel
    → p.channel.fd ≡ pos m
    → p.channel.curr < fuel
    → ready p.channel.curr p.system.events ≡ true
    → (flush_loop fuel p).0 ≡ done tt
unfolding flush_loop
flush_loop_returns zero m p v e l h = absurd (omega arith)
flush_loop_returns (suc fuel) m p v e l h = elim (Bool-cases (ltb 0 p.channel.curr)) [
  | inl some ↦
      let l' = ltb→lt 0 p.channel.curr some in
      let a = flush_partial-Accepts p v in
      let one_more : p.channel.curr ≡ suc (p.channel.curr - 1) = omega (arith, l') in
      let r =
        flush_partial-Round p m (p.channel.curr - 1) e l'
          (subst (λ (k : ℕ). ready k p.system.events ≡ true) one_more h) in
      let room = (flush_partial-Shrinks p r.0 v r.1).1 in
      flush_round fuel r.0 (flush_partial p) r.1 (
        flush_loop_returns fuel m (flush_partial p).1 a.valid (a.same_fd ∙ e)
          (omega (arith, room, l')) (ready_less _ (p.channel.curr - 1) _ room r.2))
  | inr none ↦ rw (flush_partial_empty p (ground arith))
]

-- The descriptor is open, and the kernel takes bytes as often as there are bytes that wait, before it
-- fails or stops.
pub flush_returns :
    (p : Port) (m : ℕ)
    → IsOutput p.channel
    → p.channel.fd ≡ pos m
    → ready p.channel.curr p.system.events ≡ true
    → (flush p).0 ≡ done tt
unfolding flush
flush_returns p m v e h = flush_loop_returns (suc p.channel.curr) m p v e (omega arith) h
