-- ===== src/Io/Input/Words.antt =====
-- caml_getword, and what caml_putword wrote read back.
use ocaml_pro_ocaml_branch.Base.{
  ℕ, zero, suc, ◌+◌, ◌*◌, ◌%◌, ◌^◌, ◌≤◌, ◌≡◌, ◌≢◌, List, [], ◌∷◌, ◌++◌, length, drop, get_or, refl,
  sym, ap, ◌∙◌, arith, subst, ap₂,
}
use ocaml_pro_ocaml_branch.Base.Int.{pos}
use ocaml_pro_ocaml_branch.Io.Channel.{
  end_of_file, Reply, done, raise, waiting, out_of_fuel, Port, follow, ◌>>◌,
}
use ocaml_pro_ocaml_branch.Io.Output.{ml_flush}
use ocaml_pro_ocaml_branch.Io.Output.Stream.{accepted, IsOutput}
use ocaml_pro_ocaml_branch.Io.Output.Chars.{word_bytes}
use ocaml_pro_ocaml_branch.Io.Output.Session.{
  Request, output_int, session, stream_of, session-ml_flush,
}
use ocaml_pro_ocaml_branch.Io.Input.{getch, getword_loop, getword}
use ocaml_pro_ocaml_branch.Io.Input.Window.{unread, IsInput, Gets, Gets-nil, Gets-append}
use ocaml_pro_ocaml_branch.Io.Input.Chars.{GetsChar, getch-GetsChar, done-inj}

-- The number that bytes are, the most significant first.
unfoldable pub number_of : List ℕ → ℕ
number_of [] = 0
number_of (b ∷ bytes) = b * 2 ^ (8 * length bytes) + number_of bytes

-- The bytes shifted in one by one.
abbrev shift_in : ℕ → List ℕ → ℕ
shift_in res [] = res
shift_in res (b ∷ bytes) = shift_in ((res * 2 ^ 8 + b) % 2 ^ 32) bytes

-- The program reads `i` bytes where the call returns, with the word that they are, and fewer where it
-- does not; it raises end_of_file at the end of the file only.
pub record GetsWord (p : Port) (i : ℕ) (word : List ℕ → ℕ) (out : Reply ℕ × Port) : Type 0 where
  pub bytes : List ℕ
  pub bounded : length bytes ≤ i
  pub gets : Gets p bytes out.1
  pub in_time : out.0 ≢ out_of_fuel
  pub result : (w : ℕ) → out.0 ≡ done w → (length bytes ≡ i) × (w ≡ word bytes)
  pub at_end : out.0 ≡ raise end_of_file → unread out.1 ≡ []

more-GetsWord :
    (i : ℕ) (p : Port) (res : ℕ) (out : Reply ℕ × Port)
    → GetsChar p out
    → ((p' : Port) (res' : ℕ) → IsInput p' → GetsWord p' i (shift_in res') (getword_loop i res' p'))
    → GetsWord p
        (suc i)
        (shift_in res)
        (follow out (λ ch. getword_loop i ((res * 2 ^ 8 + ch) % 2 ^ 32)))
more-GetsWord i p res (done ch, p') g rest =
    let q = rest p' ((res * 2 ^ 8 + ch) % 2 ^ 32) g.gets.valid in
    let one : Gets p (ch ∷ []) p' =
      subst (λ (xs : List ℕ). Gets p xs p') (g.result ch refl) g.gets in
    record {
      bytes = ch ∷ q.bytes;
      bounded = omega (arith, q.bounded);
      gets = Gets-append one q.gets;
      in_time = q.in_time;
      result = λ w h. (omega (arith, (q.result w h).0), (q.result w h).1);
      at_end = q.at_end;
    }
more-GetsWord i p res (raise e, p') g rest = record {
  bytes = g.bytes;
  bounded = omega (arith, g.bounded);
  gets = g.gets;
  in_time = λ h. ground arith;
  result = λ w h. absurd (ground arith);
  at_end = g.at_end;
}
more-GetsWord i p res (waiting, p') g rest = record {
  bytes = g.bytes;
  bounded = omega (arith, g.bounded);
  gets = g.gets;
  in_time = λ h. ground arith;
  result = λ w h. absurd (ground arith);
  at_end = λ h. absurd (ground arith);
}
more-GetsWord i p res (out_of_fuel, p') g rest = absurd (g.in_time refl)

getword_loop-GetsWord :
    (i : ℕ) (p : Port) (res : ℕ) → IsInput p → GetsWord p i (shift_in res) (getword_loop i res p)
unfolding getword_loop
getword_loop-GetsWord zero p res v = record {
  bytes = [];
  bounded = omega arith;
  gets = Gets-nil p v;
  in_time = λ h. ground arith;
  result = λ w h. (refl, sym (done-inj h));
  at_end = λ h. absurd (ground arith);
}
getword_loop-GetsWord (suc i) p res v =
    more-GetsWord i p res (getch p) (getch-GetsChar p v)
      (λ p' res' v'. getword_loop-GetsWord i p' res' v')

shift_in_four : (bytes : List ℕ) → length bytes ≡ 4 → shift_in 0 bytes ≡ number_of bytes % 2 ^ 32
unfolding number_of
shift_in_four [] e = absurd (ground arith)
shift_in_four (a ∷ []) e = absurd (ground arith)
shift_in_four (a ∷ b ∷ []) e = absurd (ground arith)
shift_in_four (a ∷ b ∷ c ∷ []) e = absurd (ground arith)
shift_in_four (a ∷ b ∷ c ∷ d ∷ []) e = omega arith
shift_in_four (a ∷ b ∷ c ∷ d ∷ f ∷ bytes) e = absurd (omega arith)

pub getword-GetsWord :
    (p : Port) → IsInput p → GetsWord p 4 (λ bytes. number_of bytes % 2 ^ 32) (getword p)
unfolding getword
getword-GetsWord p v =
    let q = getword_loop-GetsWord 4 p 0 v in
    record {
      bytes = q.bytes;
      bounded = q.bounded;
      gets = q.gets;
      in_time = q.in_time;
      at_end = q.at_end;
      result = λ w h. ((q.result w h).0, (q.result w h).1 ∙ shift_in_four q.bytes (q.result w h).0);
    }

number_of-word_bytes : (w : ℕ) → number_of (word_bytes (w % 2 ^ 32)) % 2 ^ 32 ≡ w % 2 ^ 32
unfolding number_of
number_of-word_bytes w = omega arith

same_four :
    (xs ys zs rest : List ℕ)
    → length xs ≡ length ys
    → xs ++ zs ≡ ys ++ rest
    → (xs ≡ ys) × (zs ≡ rest)
same_four [] [] zs rest l e = (refl, e)
same_four [] (y ∷ ys) zs rest l e = absurd (omega arith)
same_four (x ∷ xs) [] zs rest l e = absurd (omega arith)
same_four (x ∷ xs) (y ∷ ys) zs rest l e =
    let heads : x ≡ y = ap (λ ws. get_or ws 0 0) e in
    let tails = same_four xs ys zs rest (omega (arith, l)) (ap (λ ws. drop 1 ws) e) in
    (ap₂ (λ (b : ℕ) (ws : List ℕ). b ∷ ws) heads tails.0, tails.1)

-- A word that was put out first, by a run and a flush that return, from an output channel that had
-- accepted no byte, is read from the file that the bytes are, and what follows it is next.
pub getword-output_int :
    (w : ℕ) (rs : List Request) (q p : Port) (n word : ℕ)
    → IsOutput q.channel
    → q.channel.fd ≡ pos n
    → accepted q ≡ []
    → ((session (output_int w ∷ rs) >> ml_flush) q).0 ≡ done tt
    → IsInput p
    → unread p ≡ ((session (output_int w ∷ rs) >> ml_flush) q).1.system.sent
    → (getword p).0 ≡ done word
    → (word ≡ w % 2 ^ 32) × (unread (getword p).1 ≡ stream_of rs)
unfolding stream_of
getword-output_int w rs q p n word vo fd none d vi same h =
    let g = getword-GetsWord p vi in
    let written : unread p ≡ word_bytes (w % 2 ^ 32) ++ stream_of rs =
      same
      ∙ session-ml_flush (output_int w ∷ rs) q n vo fd d
      ∙ ap (λ (xs : List ℕ). xs ++ stream_of (output_int w ∷ rs)) none in
    let r = g.result word h in
    let parts =
      same_four g.bytes (word_bytes (w % 2 ^ 32)) (unread (getword p).1) (stream_of rs) r.0
        (sym g.gets.stream ∙ written) in
    (r.1 ∙ ap (λ (xs : List ℕ). number_of xs % 2 ^ 32) parts.0 ∙ number_of-word_bytes w, parts.1)
