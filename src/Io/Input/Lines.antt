-- ===== src/Io/Input/Lines.antt =====
-- caml_input_scan_line.
use ocaml_pro_ocaml_branch.Base.{
  ℕ, zero, suc, ◌+◌, ◌-◌, ◌≤◌, ◌<◌, ◌≡◌, ◌≢◌, ◌⊎◌, Bool, true, false, List, [], ◌∷◌, length, take,
  get_elem?, some, leb, ◌==◌, refl, sym, ap, ◌∙◌, arith, inl, inr, subst,
}
use ocaml_pro_ocaml_branch.Base.Int.{ℤ, pos}
use ocaml_pro_ocaml_branch.Io.Channel.{
  System, Reply, done, raise, waiting, out_of_fuel, Port, Io, follow,
}
use ocaml_pro_ocaml_branch.Io.Input.{
  byte_at, minus, scan_shift, scan_byte, scan_filled, scan_fill, scan_loop, input_scan_line,
}
use ocaml_pro_ocaml_branch.Io.Input.Window.{unread, IsInput, Read, do_read-Read, unread-Gets}
use ocaml_pro_ocaml_branch.Io.Input.Chars.{done-inj}
use ocaml_pro_ocaml_branch.Io.Input.Scan.{
  plain, plain_more, byte_unread, Same, Same-refl, Same-trans, Gets-Same, unread_kept,
  scan_shift-Shifted, filled-Same, waiting_last,
}

-- A line of the unread bytes, whole in the buffer, or the bytes that wait, where they fill the buffer
-- or end the file.
abbrev pub Line : Port → Port → ℤ → Type 0
Line p p' r =
    ((k : ℕ) × (r ≡ pos (k + 1))
      × (plain (take k (unread p)) ≡ true)
      × (get_elem? (unread p) k ≡ some 10)
      × (k < p'.channel.max - p'.channel.curr))
    ⊎ ((n : ℕ) × (r ≡ minus n)
        × (plain (take n (unread p)) ≡ true)
        × (n ≡ p'.channel.max - p'.channel.curr)
        × ((n ≡ length p'.channel.buff) ⊎ (n ≡ length (unread p))))

-- Nothing is consumed, and what is returned is a line.
pub record Scans (p : Port) (out : Reply ℤ × Port) : Type 0 where
  pub same : Same p out.1
  pub in_time : out.0 ≢ out_of_fuel
  pub result : (r : ℤ) → out.0 ≡ done r → Line p out.1 r

returned-Scans : (p p' : Port) (r : ℤ) → Same p p' → Line p p' r → Scans p (done r, p')
returned-Scans p p' r s l = record {
  same = s;
  in_time = λ h. ground arith;
  result = λ r' h. subst (Line p p') (done-inj h) l;
}

stopped-Scans :
    (p p' : Port) (x : Reply ℤ)
    → Same p p'
    → x ≢ out_of_fuel
    → ((r : ℤ) → x ≢ done r)
    → Scans p (x, p')
stopped-Scans p p' x s t k = record { same = s; in_time = t; result = λ r h. absurd (k r h) }

-- The bytes before the place are looked at, and none is a newline.
abbrev Looked : Port → Port → ℕ → ℕ → Type 0
Looked p p' i d =
    (p'.channel.curr ≤ i) × (i - p'.channel.curr ≡ d) × (plain (take d (unread p)) ≡ true)

-- The rounds that come after look at one byte more.
abbrev Rest : Port → ℕ → (ℕ → Io ℤ) → Type 0
Rest p d again =
    (i : ℕ) (p' : Port)
    → Same p p'
    → i ≤ p'.channel.max
    → Looked p p' i (d + 1)
    → Scans p (again i p')

pick :
    {A : Type 0} (t : Bool) (P : A → Type 0) (x y : A)
    → (t ≡ true → P x)
    → (t ≡ false → P y)
    → P (elim t [ true ↦ x | false ↦ y ])
pick true P x y k k' = k refl
pick false P x y k k' = k' refl

byte_round :
    (p p' : Port) (i d : ℕ) (again : ℕ → Io ℤ)
    → Same p p'
    → i < p'.channel.max
    → Looked p p' i d
    → Rest p d again
    → Scans p (scan_byte again i p')
unfolding scan_byte
byte_round p p' i d again s l k rest =
    let c = p'.channel in
    let here : get_elem? (unread p) d ≡ some (byte_at c.buff i) =
      ap (λ (xs : List ℕ). get_elem? xs d) (sym (unread_kept s))
      ∙ ap (get_elem? (unread p')) (sym k.1)
      ∙ byte_unread p' i s.valid k.0 l in
    pick (byte_at c.buff i == 10) (Scans p) _ _
      (λ e. returned-Scans p p' _ s (
        inl (
          d,
          ap pos (omega (arith, k.0, k.1)),
          k.2,
          here ∙ ap some (ground arith),
          omega (arith, k.0, k.1, l),
        )))
      (λ e.
        rest (i + 1) p' s (omega (arith, l))
          (omega (arith, k.0), omega (arith, k.0, k.1), plain_more (unread p) d _ k.2 here e))

no_bytes : (bytes : List ℕ) → length bytes ≡ 0 → bytes ≡ []
no_bytes [] e = refl
no_bytes (b ∷ bytes) e = absurd (omega arith)

filled_round :
    (p p' : Port) (i d : ℕ) (again : ℕ → Io ℤ) (r : Reply (List ℕ)) (s' : System)
    → Same p p'
    → i ≡ p'.channel.max
    → p'.channel.max < length p'.channel.buff
    → Looked p p' i d
    → Rest p d again
    → Read (length p'.channel.buff - p'.channel.max) p'.system s' r
    → Scans p (follow (r, record p' { system = s' }) (scan_filled again i))
unfolding scan_filled
filled_round p p' i d again (done bytes) s' s at_max room k rest read =
    let c = p'.channel in
    pick (length bytes == 0) (Scans p) _ _
      (λ e.
        let no = no_bytes bytes (ground arith) in
        let ended = waiting_last p' s.valid (read.at_end (ap done no) (omega (arith, room))) in
        let all : c.max - c.curr ≡ d = omega (arith, k.1, at_max) in
        returned-Scans p _ _
          (Same-trans s (Gets-Same p' _ (unread-Gets p' s' _ (done bytes) s.valid read no)))
          (inr (
            c.max - c.curr,
            refl,
            subst (λ n. plain (take n (unread p)) ≡ true) (sym all) k.2,
            refl,
            inr (ended ∙ ap length (unread_kept s)),
          )))
      (λ e.
        byte_round p _ i d again (Same-trans s (filled-Same p' s' bytes s.valid read))
          (ground arith) k rest)
filled_round p p' i d again (raise e) s' s at_max room k rest read =
    stopped-Scans p _ (raise e)
      (Same-trans s (Gets-Same p' _ (unread-Gets p' s' _ (raise e) s.valid read refl)))
      (λ h. ground arith) (λ r h. ground arith)
filled_round p p' i d again waiting s' s at_max room k rest read =
    stopped-Scans p _ waiting
      (Same-trans s (Gets-Same p' _ (unread-Gets p' s' _ waiting s.valid read refl)))
      (λ h. ground arith) (λ r h. ground arith)
filled_round p p' i d again out_of_fuel s' s at_max room k rest read = absurd (read.in_time refl)

fill_round :
    (p p' : Port) (i d : ℕ) (again : ℕ → Io ℤ)
    → Same p p'
    → i ≡ p'.channel.max
    → Looked p p' i d
    → Rest p d again
    → Scans p (scan_fill again i p')
unfolding scan_fill
fill_round p p' i d again s at_max k rest =
    let sh = scan_shift-Shifted p' s.valid in
    let c = scan_shift p'.channel in
    let s1 = Same-trans s sh.same in
    let all : c.max - c.curr ≡ d = omega (arith, sh.waiting_bytes, sh.at_start, at_max, k.1) in
    pick (leb (length c.buff) c.max) (Scans p) _ _
      (λ e. returned-Scans p _ _ s1 (
        inr (
          c.max - c.curr,
          refl,
          subst (λ n. plain (take n (unread p)) ≡ true) (sym all) k.2,
          refl,
          inl (ground (arith, sh.at_start, sh.same.valid.bounded)),
        )))
      (λ e.
        filled_round p _ (i - p'.channel.curr) d again _ _ s1
          (omega (arith, sh.waiting_bytes, at_max)) (ground arith)
          (omega (arith, sh.at_start), omega (arith, sh.at_start, k.1), k.2) rest
          (do_read-Read c.fd (length c.buff - c.max) p'.system))

scan_loop-Scans :
    (fuel i d : ℕ) (p p' : Port)
    → Same p p'
    → i ≤ p'.channel.max
    → Looked p p' i d
    → length p.channel.buff < d + fuel
    → Scans p (scan_loop fuel i p')
unfolding scan_loop
scan_loop-Scans zero i d p p' s l k enough =
    absurd (omega (arith, s.same_size, s.valid.bounded, l, k.0, k.1, enough))
scan_loop-Scans (suc fuel) i d p p' s l k enough =
    let rest : Rest p d (scan_loop fuel) =
      λ i' p'' s' l' k'. scan_loop-Scans fuel i' (d + 1) p p'' s' l' k' (omega (arith, enough)) in
    pick (leb p'.channel.max i) (Scans p) _ _
      (λ none. fill_round p p' i d (scan_loop fuel) s (ground arith) k rest)
      (λ some_left. byte_round p p' i d (scan_loop fuel) s (ground arith) k rest)

-- The line up to the first newline, where the buffer can hold it; otherwise, with a negative sign, as
-- many bytes without a newline as fill the buffer or as are left of the file. The bytes wait in the
-- buffer, and none was consumed.
pub input_scan_line-Scans : (p : Port) → IsInput p → Scans p (input_scan_line p)
unfolding input_scan_line plain
input_scan_line-Scans p v =
    scan_loop-Scans (suc (length p.channel.buff)) p.channel.curr 0 p p (Same-refl p v) v.within
      (omega arith, omega arith, refl) (omega arith)
