-- ===== src/Io/Output/Seek.antt =====
-- caml_seek_out.
use ocaml_pro_ocaml_branch.Base.{
  ℕ, ◌≡◌, Bool, true, false, [], ◌++◌, take, refl, sym, ap, ◌∙◌, arith, inl, inr, if◌then◌else◌,
}
use ocaml_pro_ocaml_branch.Base.Int.{ℤ, pos, negsuc}
use ocaml_pro_ocaml_branch.Io.Channel.{
  System, sys_error, Reply, done, raise, waiting, out_of_fuel, Port, follow, do_lseek, syscall,
}
use ocaml_pro_ocaml_branch.Base.Buffers.{append_nil}
use ocaml_pro_ocaml_branch.Io.Output.{flush, seek_out, pos_out}
use ocaml_pro_ocaml_branch.Io.Output.Stream.{accepted, IsOutput, Accepts}
use ocaml_pro_ocaml_branch.Io.Output.Flush.{Flushes, flush-Flushes}

-- Where a seek returns, all that the channel accepted is written, and the descriptor and the channel
-- stand at the place.
abbrev pub Seeks : Port → ℕ → Reply (Unit {0}) × Port → Type 0
Seeks p dest out =
    IsOutput out.1.channel
    × (out.1.system.sent ≡ accepted p)
    × (pos_out out.1.channel ≡ dest)
    × (out.1.system.position ≡ dest)

-- What a call on an open descriptor gives.
abbrev lseek_outcome : Bool → ℕ → System → Reply (Unit {0}) × System
lseek_outcome t dest s = if t then (done tt, record s { position = dest }) else (raise sys_error, s)

sent_lseek :
    (fd : ℤ) (dest : ℕ) (s : System)
    → (do_lseek fd dest s).0 ≡ done tt
    → ((do_lseek fd dest s).1.sent ≡ s.sent) × ((do_lseek fd dest s).1.position ≡ dest)
unfolding do_lseek
sent_lseek (pos fd) dest s h = moved s.seekable h
  where
    moved :
        (t : Bool)
        → (lseek_outcome t dest s).0 ≡ done tt
        → ((lseek_outcome t dest s).1.sent ≡ s.sent) × ((lseek_outcome t dest s).1.position ≡ dest)
    moved true h' = (refl, refl)
    moved false h' = absurd (ground arith)
sent_lseek (negsuc n) dest s h = absurd (ground arith)

after_lseek :
    (p p' : Port) (dest : ℕ) (r : Reply (Unit {0})) (s' : System)
    → Accepts p [] p'
    → p'.channel.curr ≡ 0
    → (r ≡ done tt → (s'.sent ≡ p'.system.sent) × (s'.position ≡ dest))
    → (follow
        (r, record p' { system = s' })
        (λ _ p''. (done tt, record p'' { channel = record p''.channel { offset = dest } }))).0
      ≡ done tt
    → Seeks p dest (
        follow
          (r, record p' { system = s' })
          (λ _ p''. (done tt, record p'' { channel = record p''.channel { offset = dest } })))
unfolding pos_out
after_lseek p p' dest (done u) s' a z k h = (
  record { within = a.valid.within; nonempty = a.valid.nonempty },
  (k refl).0
      ∙ sym (append_nil p'.system.sent)
      ∙ ap (λ (n : ℕ). p'.system.sent ++ take n p'.channel.buff) (sym z)
      ∙ a.stream
      ∙ append_nil (accepted p),
  omega (arith, z),
  (k refl).1,
)
after_lseek p p' dest (raise e) s' a z k h = absurd (ground arith)
after_lseek p p' dest waiting s' a z k h = absurd (ground arith)
after_lseek p p' dest out_of_fuel s' a z k h = absurd (ground arith)

after_flush :
    (p : Port) (dest : ℕ) (out : Reply (Unit {0}) × Port)
    → Flushes p out
    → (follow out (λ _ p'.
        follow
          (syscall (do_lseek p'.channel.fd dest p'.system) p')
          (λ _ p''. (done tt, record p'' { channel = record p''.channel { offset = dest } })))).0
      ≡ done tt
    → Seeks p dest (
        follow out (λ _ p'.
          follow
            (syscall (do_lseek p'.channel.fd dest p'.system) p')
            (λ _ p''. (done tt, record p'' { channel = record p''.channel { offset = dest } }))))
after_flush p dest (done u, p') f h =
    after_lseek p p' dest _ _ f.accepts (elim f.emptied [ inl z ↦ z | inr n ↦ absurd (n refl) ])
      (sent_lseek p'.channel.fd dest p'.system) h
after_flush p dest (raise e, p') f h = absurd (ground arith)
after_flush p dest (waiting, p') f h = absurd (ground arith)
after_flush p dest (out_of_fuel, p') f h = absurd (ground arith)

-- Where it returns, all that the channel accepted is written, and the descriptor and the channel
-- stand at the place.
pub seek_out-Seeks :
    (p : Port) (dest : ℕ)
    → IsOutput p.channel
    → (seek_out dest p).0 ≡ done tt
    → Seeks p dest (seek_out dest p)
unfolding seek_out
seek_out-Seeks p dest v h = after_flush p dest (flush p) (flush-Flushes p v) h
