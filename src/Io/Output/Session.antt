-- ===== src/Io/Output/Session.antt =====
-- A run of the OCaml functions of output on one channel, and the stream of bytes that it stands for.
use ocaml_pro_ocaml_branch.Base.{
  ℕ, ◌+◌, ◌%◌, ◌^◌, ◌≡◌, Bool, true, false, List, [], ◌∷◌, ◌++◌, length, take, if◌then◌else◌, refl,
  sym, ap, ◌∙◌, arith, length-append, length-take, inl, inr, subst,
}
use ocaml_pro_ocaml_branch.Base.Int.{pos}
use ocaml_pro_ocaml_branch.Io.Channel.{
  is_closed, Reply, done, raise, waiting, out_of_fuel, Port, Io, follow, ◌>>◌,
}
use ocaml_pro_ocaml_branch.Base.Buffers.{slice, append_nil}
use ocaml_pro_ocaml_branch.Io.Output.{
  flush, ml_flush, ml_output_char, ml_output_int, ml_output, pos_out,
}
use ocaml_pro_ocaml_branch.Io.Output.Stream.{accepted, IsOutput, Accepts, Accepts-nil}
use ocaml_pro_ocaml_branch.Io.Output.Flush.{Flushes, flush-Flushes}
use ocaml_pro_ocaml_branch.Io.Output.Chars.{
  Puts, if-Puts, all-Puts, follow-Puts, putch-Puts, word_bytes, putword-Puts,
}
use ocaml_pro_ocaml_branch.Io.Output.Advance.{really_putblock-Puts}

pub data Request : Type 0 where
  output_char : ℕ → Request
  output_int : ℕ → Request
  output : List ℕ → ℕ → ℕ → Request
  flush_out : Request

abbrev pub serve : Request → Io (Unit {0})
serve (output_char ch) = ml_output_char ch
serve (output_int w) = ml_output_int w
serve (output string start len) = ml_output string start len
serve flush_out = ml_flush

unfoldable pub session : List Request → Io (Unit {0})
session [] p = (done tt, p)
session (r ∷ rs) p = follow (serve r p) (λ _. session rs)

-- The stream: what each request adds to it.
abbrev pub meaning : Request → List ℕ
meaning (output_char ch) = ch % 2 ^ 8 ∷ []
meaning (output_int w) = word_bytes (w % 2 ^ 32)
meaning (output string start len) = slice string start len
meaning flush_out = []

unfoldable pub stream_of : List Request → List ℕ
stream_of [] = []
stream_of (r ∷ rs) = meaning r ++ stream_of rs

flushed_Puts : (p : Port) (out : Reply (Unit {0}) × Port) → Flushes p out → Puts p [] out
flushed_Puts p out f = record {
  number = 0;
  accepts = f.accepts;
  complete = inl refl;
  in_time = f.in_time;
}

pub ml_flush-Puts : (p : Port) → IsOutput p.channel → Puts p [] (ml_flush p)
unfolding ml_flush
ml_flush-Puts p v =
    if-Puts (is_closed p.channel) p [] _ _ (λ _. all-Puts p p [] (Accepts-nil p v))
      (λ _. flushed_Puts p (flush p) (flush-Flushes p v))

serve-Puts : (r : Request) (p : Port) → IsOutput p.channel → Puts p (meaning r) (serve r p)
unfolding ml_output_char ml_output_int ml_output
serve-Puts (output_char ch) p v = putch-Puts p ch v
serve-Puts (output_int w) p v = putword-Puts p (w % 2 ^ 32) v
serve-Puts (output string start len) p v = really_putblock-Puts p (slice string start len) v
serve-Puts flush_out p v = ml_flush-Puts p v

-- The run puts out the stream of its requests: in every outcome what the channel accepted is a first
-- part of it, and all of it where the run returns. The channel stays one of output.
pub session-Puts :
    (rs : List Request) (p : Port) → IsOutput p.channel → Puts p (stream_of rs) (session rs p)
unfolding session stream_of
session-Puts [] p v = all-Puts p p [] (Accepts-nil p v)
session-Puts (r ∷ rs) p v =
    follow-Puts p (meaning r) (stream_of rs) (serve r p) (session rs) (serve-Puts r p v)
      (λ p' v'. session-Puts rs p' v')

-- A flush that returned on an open channel left none waiting.
emptied_stream :
    (p : Port) (bytes : List ℕ) (out : Reply (Unit {0}) × Port)
    → Puts p bytes out
    → out.1.channel.curr ≡ 0
    → out.0 ≡ done tt
    → out.1.system.sent ≡ accepted p ++ bytes
emptied_stream p bytes out q z d =
    let whole : take q.number bytes ≡ bytes = elim q.complete [
      | inl e ↦ e
      | inr n ↦ absurd (n d)
    ] in
    sym (append_nil out.1.system.sent)
    ∙ ap (λ (k : ℕ). out.1.system.sent ++ take k out.1.channel.buff) (sym z)
    ∙ q.accepts.stream
    ∙ ap (λ (xs : List ℕ). accepted p ++ xs) whole

open_empties :
    (p : Port) (n : ℕ) (t : Bool)
    → t ≡ false
    → Flushes p (flush p)
    → (if t then (done tt, p) else flush p).0 ≡ done tt
    → (if t then (done tt, p) else flush p).1.channel.curr ≡ 0
open_empties p n true e f d = absurd (ground arith)
open_empties p n false e f d = elim f.emptied [ inl z ↦ z | inr k ↦ absurd (k d) ]

is_open : (p : Port) (n : ℕ) → p.channel.fd ≡ pos n → is_closed p.channel ≡ false
is_open p n e = rw e

ml_flush_empties :
    (p : Port) (n : ℕ)
    → IsOutput p.channel
    → p.channel.fd ≡ pos n
    → (ml_flush p).0 ≡ done tt
    → (ml_flush p).1.channel.curr ≡ 0
unfolding ml_flush
ml_flush_empties p n v e d =
    open_empties p n (is_closed p.channel) (is_open p n e) (flush-Flushes p v) d

after_empties :
    (p : Port) (bytes : List ℕ) (n : ℕ) (out : Reply (Unit {0}) × Port)
    → p.channel.fd ≡ pos n
    → Puts p bytes out
    → (follow out (λ _. ml_flush)).0 ≡ done tt
    → (follow out (λ _. ml_flush)).1.channel.curr ≡ 0
after_empties p bytes n (done u, p') e q d =
    ml_flush_empties p' n q.accepts.valid (q.accepts.same_fd ∙ e) d
after_empties p bytes n (raise x, p') e q d = absurd (ground arith)
after_empties p bytes n (waiting, p') e q d = absurd (ground arith)
after_empties p bytes n (out_of_fuel, p') e q d = absurd (ground arith)

-- Where a run on an open channel, and the flush after it, return, the stream of the requests was
-- written to the descriptor, whatever each call of write took, after the bytes accepted before.
pub session-ml_flush :
    (rs : List Request) (p : Port) (n : ℕ)
    → IsOutput p.channel
    → p.channel.fd ≡ pos n
    → ((session rs >> ml_flush) p).0 ≡ done tt
    → ((session rs >> ml_flush) p).1.system.sent ≡ accepted p ++ stream_of rs
session-ml_flush rs p n v e d =
    let q = session-Puts rs p v in
    let whole = follow-Puts p (stream_of rs) [] (session rs p) ml_flush q ml_flush-Puts in
    emptied_stream p (stream_of rs) _
      (subst (λ (xs : List ℕ). Puts p xs ((session rs >> ml_flush) p)) (append_nil (stream_of rs))
        whole)
      (after_empties p (stream_of rs) n (session rs p) e q d) d

accepted-pos_out :
    (p p' : Port) (bytes : List ℕ)
    → IsOutput p.channel
    → Accepts p bytes p'
    → pos_out p'.channel ≡ pos_out p.channel + length bytes
unfolding pos_out
accepted-pos_out p p' bytes v a = omega (
  arith,
  a.in_step,
  a.valid.within,
  v.within,
  ap length a.stream,
  length-append {0} (accepted p) bytes,
  length-append {0} p.system.sent (take p.channel.curr p.channel.buff),
  length-take {0} p.channel.curr p.channel.buff,
  length-append {0} p'.system.sent (take p'.channel.curr p'.channel.buff),
  length-take {0} p'.channel.curr p'.channel.buff,
)

-- Where a run returns, the position of the channel grew by the length of the stream.
pub session-pos_out :
    (rs : List Request) (p : Port)
    → IsOutput p.channel
    → (session rs p).0 ≡ done tt
    → pos_out (session rs p).1.channel ≡ pos_out p.channel + length (stream_of rs)
session-pos_out rs p v d =
    let q = session-Puts rs p v in
    let whole : take q.number (stream_of rs) ≡ stream_of rs = elim q.complete [
      | inl e ↦ e
      | inr n ↦ absurd (n d)
    ] in
    accepted-pos_out p _ (stream_of rs) v
      (subst (λ (xs : List ℕ). Accepts p xs (session rs p).1) whole q.accepts)
