-- ===== src/Io/Output/Advance.antt =====
-- The loop of caml_really_putblock: each round moves a byte or makes room.
use ocaml_pro_ocaml_branch.Base.{
  ℕ, zero, suc, ◌+◌, ◌-◌, ◌≤◌, ◌<◌, ◌≡◌, Bool, true, false, List, [], ◌∷◌, length, take, drop, ltb,
  leb, if◌then◌else◌, refl, arith, length-take, length-drop, subst, take-append-drop, ltb→lt,
  ltb-false→le, ◌*◌,
}
use ocaml_pro_ocaml_branch.Io.Channel.{
  Channel, System, Reply, done, raise, waiting, out_of_fuel, Port, follow,
}
use ocaml_pro_ocaml_branch.Base.Buffers.{slice, blit, length-blit}
use ocaml_pro_ocaml_branch.Io.Output.{overflowed, putblock, putblock_loop, really_putblock, int_max}
use ocaml_pro_ocaml_branch.Io.Output.Stream.{Wrote, do_write-Wrote, IsOutput, Accepts-nil}
use ocaml_pro_ocaml_branch.Io.Output.Flush.{length-moved}
use ocaml_pro_ocaml_branch.Io.Output.Chars.{Puts, all-Puts, stopped-Puts, before-Puts}
use ocaml_pro_ocaml_branch.Io.Output.Blocks.{PutsSome, putblock-PutsSome}

-- A full buffer counts as half a byte that is left.
abbrev pub full : Channel → ℕ
full c = if leb (length c.buff) c.curr then 1 else 0

abbrev pub Advances : Port → List ℕ → ℕ → Port → Type 0
Advances p bytes n p' = 2 * (length bytes - n) + full p'.channel < 2 * length bytes + full p.channel

overflowed-Advances :
    (p : Port) (bytes filled : List ℕ) (n : ℕ) (r : Reply ℕ) (s' : System)
    → 0 < length bytes
    → 0 < length filled
    → length filled ≡ length p.channel.buff
    → p.channel.curr ≤ length p.channel.buff
    → length p.channel.buff - p.channel.curr ≤ length bytes
    → Wrote filled p.system.sent s'.sent r
    → (follow
        (r, record p { channel = record p.channel { buff = filled }; system = s' })
        (overflowed (length p.channel.buff - p.channel.curr))).0
      ≡ done n
    → Advances p bytes n
        (follow
          (r, record p { channel = record p.channel { buff = filled }; system = s' })
          (overflowed (length p.channel.buff - p.channel.curr))).1
unfolding overflowed
overflowed-Advances p bytes filled n (done k) s' l l' size v room w h =
    let some : 0 < k = w.progress k refl l' in
    let size' : length (
          if ltb k (length filled)
          then blit filled 0 (slice filled k (length filled - k))
          else filled)
        ≡ length filled =
      length-moved filled (length filled) k w.bounded (omega arith) in
    ground (arith, some, size', w.bounded)
overflowed-Advances p bytes filled n (raise e) s' l l' size v room w h = ground arith
overflowed-Advances p bytes filled n waiting s' l l' size v room w h = ground arith
overflowed-Advances p bytes filled n out_of_fuel s' l l' size v room w h = ground arith

if-Advances :
    (t : Bool) (p : Port) (bytes : List ℕ) (n : ℕ) (x y : Reply ℕ × Port)
    → (t ≡ true → x.0 ≡ done n → Advances p bytes n x.1)
    → (t ≡ false → y.0 ≡ done n → Advances p bytes n y.1)
    → (if t then x else y).0 ≡ done n
    → Advances p bytes n (if t then x else y).1
if-Advances true p bytes n x y k k' h = k refl h
if-Advances false p bytes n x y k k' h = k' refl h

small-Advances :
    (p : Port) (bytes filled : List ℕ) (n m : ℕ)
    → m ≤ length bytes
    → 0 < m
    → length filled ≡ length p.channel.buff
    → p.channel.curr + m < length p.channel.buff
    → done m ≡ done n
    → Advances p bytes n
        (record p { channel = record p.channel { buff = filled; curr = p.channel.curr + m } })
small-Advances p bytes filled n m l l' size room h = ground arith

pub putblock-Advances :
    (p : Port) (bytes : List ℕ) (n : ℕ)
    → IsOutput p.channel
    → 0 < length bytes
    → (putblock bytes p).0 ≡ done n
    → Advances p bytes n (putblock bytes p).1
unfolding putblock
putblock-Advances p bytes n v l h =
    let c = p.channel in
    let m = if leb int_max (length bytes) then int_max else length bytes in
    let m_le : m ≤ length bytes = ground arith in
    let m_pos : 0 < m = ground arith in
    let free = length c.buff - c.curr in
    if-Advances (ltb m free) p bytes n _ _
      (λ fits.
        small-Advances p bytes (blit c.buff c.curr (take m bytes)) n m m_le m_pos
          (length-blit c.buff c.curr (take m bytes)
            (omega (arith, ltb→lt m free fits, length-take {0} m bytes, m_le)))
          (ground arith))
      (λ overflows.
        let free_le : free ≤ length bytes = omega (arith, ltb-false→le m free overflows, m_le) in
        let size =
          length-blit c.buff c.curr (take free bytes)
            (omega (arith, length-take {0} free bytes, v.within)) in
        overflowed-Advances p bytes (blit c.buff c.curr (take free bytes)) n _ _ l
          (omega (arith, size, v.nonempty)) size v.within free_le
          (do_write-Wrote c.fd (blit c.buff c.curr (take free bytes)) p.system))
      h

putblock_round :
    (fuel : ℕ) (p : Port) (bytes : List ℕ) (out : Reply ℕ × Port)
    → ((p' : Port) (bytes' : List ℕ)
        → IsOutput p'.channel
        → 2 * length bytes' + full p'.channel < fuel
        → Puts p' bytes' (putblock_loop fuel bytes' p'))
    → 2 * length bytes + full p.channel < suc fuel
    → PutsSome p bytes out
    → ((n : ℕ) → out.0 ≡ done n → Advances p bytes n out.1)
    → Puts p bytes (follow out (λ written. putblock_loop fuel (drop written bytes)))
putblock_round fuel p bytes (done n, p') rest l q k =
    subst (λ (xs : List ℕ). Puts p xs (putblock_loop fuel (drop n bytes) p'))
      (take-append-drop n bytes)
      (before-Puts p p' (take n bytes) (drop n bytes) _ q.accepts
        (rest p' (drop n bytes) q.accepts.valid (omega (arith, k n refl, length-drop {0} n bytes))))
putblock_round fuel p bytes (raise e, p') rest l q k =
    stopped-Puts p p' bytes 0 (raise e) q.accepts (λ h. ground arith) (λ h. ground arith)
putblock_round fuel p bytes (waiting, p') rest l q k =
    stopped-Puts p p' bytes 0 waiting q.accepts (λ h. ground arith) (λ h. ground arith)
putblock_round fuel p bytes (out_of_fuel, p') rest l q k = absurd (q.in_time refl)

putblock_loop-Puts :
    (fuel : ℕ) (p : Port) (bytes : List ℕ)
    → IsOutput p.channel
    → 2 * length bytes + full p.channel < fuel
    → Puts p bytes (putblock_loop fuel bytes p)
unfolding putblock_loop
putblock_loop-Puts zero p bytes v l = absurd (omega arith)
putblock_loop-Puts (suc fuel) p [] v l = all-Puts p p [] (Accepts-nil p v)
putblock_loop-Puts (suc fuel) p (b ∷ bytes) v l =
    putblock_round fuel p (b ∷ bytes) (putblock (b ∷ bytes) p)
      (λ p' bytes' v' l'. putblock_loop-Puts fuel p' bytes' v' l') l
      (putblock-PutsSome p (b ∷ bytes) v)
      (λ n h. putblock-Advances p (b ∷ bytes) n v (omega arith) h)

pub really_putblock-Puts :
    (p : Port) (bytes : List ℕ) → IsOutput p.channel → Puts p bytes (really_putblock bytes p)
unfolding really_putblock
really_putblock-Puts p bytes v =
    putblock_loop-Puts (suc (suc (2 * length bytes))) p bytes v (ground arith)
