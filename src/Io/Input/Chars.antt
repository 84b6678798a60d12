-- ===== src/Io/Input/Chars.antt =====
-- getch and caml_refill.
use ocaml_pro_ocaml_branch.Base.{
  ℕ, zero, suc, ◌+◌, ◌-◌, ◌≤◌, ◌<◌, ◌≡◌, ◌≢◌, Bool, true, false, List, [], ◌∷◌, length, drop,
  get_or, leb, ◌==◌, if◌then◌else◌, refl, sym, ap, ◌∙◌, arith, subst,
}
use ocaml_pro_ocaml_branch.Io.Channel.{
  System, end_of_file, Reply, done, raise, waiting, out_of_fuel, Port, follow,
}
use ocaml_pro_ocaml_branch.Base.Buffers.{slice}
use ocaml_pro_ocaml_branch.Io.Input.{byte_at, refilled, refill, getch, pos_in}
use ocaml_pro_ocaml_branch.Io.Input.Window.{
  unread, IsInput, Gets, consumed-Gets, data_of, Read, do_read-Read, unread-Gets, loaded-Gets,
}

-- The program reads one byte of the file where the call returns, and none where it does not; it
-- raises end_of_file at the end of the file only.
pub record GetsChar (p : Port) (out : Reply ℕ × Port) : Type 0 where
  pub bytes : List ℕ
  pub bounded : length bytes ≤ 1
  pub gets : Gets p bytes out.1
  pub in_time : out.0 ≢ out_of_fuel
  pub result : (ch : ℕ) → out.0 ≡ done ch → bytes ≡ ch ∷ []
  pub at_end : out.0 ≡ raise end_of_file → unread out.1 ≡ []

pub done-inj : {A : Type 0} {a b : A} → done a ≡ done b → a ≡ b
done-inj {A} {a} {b} e = cc

slice_one : (xs : List ℕ) (i d : ℕ) → i < length xs → slice xs i 1 ≡ get_or xs i d ∷ []
slice_one [] i d l = absurd (omega arith)
slice_one (x ∷ xs) zero d l = refl
slice_one (x ∷ xs) (suc i) d l = slice_one xs i d (omega arith)

one-GetsChar : (p p' : Port) (ch : ℕ) → Gets p (ch ∷ []) p' → GetsChar p (done ch, p')
one-GetsChar p p' ch g = record {
  bytes = ch ∷ [];
  bounded = omega arith;
  gets = g;
  in_time = λ h. ground arith;
  result = λ ch' h. ap (λ (x : ℕ). x ∷ []) (done-inj h);
  at_end = λ h. ground arith;
}

stopped-GetsChar :
    (p : Port) (n : ℕ) (r : Reply (List ℕ)) (x : Reply ℕ) (s' : System)
    → IsInput p
    → data_of r ≡ []
    → Read n p.system s' r
    → x ≢ out_of_fuel
    → ((ch : ℕ) → x ≢ done ch)
    → (x ≡ raise end_of_file → unread p ≡ [])
    → GetsChar p (x, record p { system = s' })
stopped-GetsChar p n r x s' v e d t k a =
    let g = unread-Gets p s' n r v d e in
    record {
      bytes = [];
      bounded = omega arith;
      gets = g;
      in_time = t;
      result = λ ch h. absurd (k ch h);
      at_end = λ h. sym g.stream ∙ a h;
    }

if-GetsChar :
    (t : Bool) (p : Port) (x y : Reply ℕ × Port)
    → (t ≡ true → GetsChar p x)
    → (t ≡ false → GetsChar p y)
    → GetsChar p (if t then x else y)
if-GetsChar true p x y k k' = k refl
if-GetsChar false p x y k k' = k' refl

-- The same exception, of a function of another type.
abbrev raise_of : Reply ℕ → Reply (List ℕ)
raise_of (done n) = waiting
raise_of (raise e) = raise e
raise_of waiting = waiting
raise_of out_of_fuel = waiting

refilled-GetsChar :
    (p : Port) (r : Reply (List ℕ)) (s' : System)
    → IsInput p
    → p.channel.curr ≡ p.channel.max
    → Read (length p.channel.buff) p.system s' r
    → GetsChar p (follow (r, record p { system = s' }) refilled)
unfolding refilled pos_in
refilled-GetsChar p (done []) s' v e d =
    let place : p.channel.offset - (p.channel.max - p.channel.curr) ≡ p.system.position =
      omega (arith, e, v.in_step) in
    stopped-GetsChar p _ (done []) (raise end_of_file) s' v refl d (λ h. ground arith)
      (λ ch h. ground arith)
      (λ h. ap (λ k'. drop k' p.system.file) place ∙ d.at_end refl v.nonempty)
refilled-GetsChar p (done (b ∷ bytes)) s' v e d =
    if-GetsChar (suc (length bytes) == 0) p _ _ (λ h. absurd (ground arith))
      (λ h. one-GetsChar p _ b (loaded-Gets p s' 1 (b ∷ bytes) v e (omega arith) d))
refilled-GetsChar p (raise x) s' v e d =
    stopped-GetsChar p _ (raise x) (raise x) s' v refl d (λ h. ground arith) (λ ch h. ground arith)
      (λ h. absurd (d.not_raised (ap raise_of h)))
refilled-GetsChar p waiting s' v e d =
    stopped-GetsChar p _ waiting waiting s' v refl d (λ h. ground arith) (λ ch h. ground arith)
      (λ h. ground arith)
refilled-GetsChar p out_of_fuel s' v e d = absurd (d.in_time refl)

pub refill-GetsChar :
    (p : Port) → IsInput p → p.channel.curr ≡ p.channel.max → GetsChar p (refill p)
unfolding refill
refill-GetsChar p v e =
    refilled-GetsChar p _ _ v e (do_read-Read p.channel.fd (length p.channel.buff) p.system)

pub getch-GetsChar : (p : Port) → IsInput p → GetsChar p (getch p)
unfolding getch
getch-GetsChar p v =
    let c = p.channel in
    if-GetsChar (leb c.max c.curr) p _ _ (λ none. refill-GetsChar p v (ground (arith, v.within)))
      (λ some.
        let inside : c.curr < c.max = ground arith in
        one-GetsChar p _ (byte_at c.buff c.curr) (
          subst (λ (xs : List ℕ). Gets p xs (record p { channel = record c { curr = c.curr + 1 } }))
            (slice_one c.buff c.curr 0 (omega (arith, inside, v.bounded)))
            (consumed-Gets p 1 v (omega (arith, inside)))))
