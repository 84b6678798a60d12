-- ===== src/Io/Input/Blocks.antt =====
-- caml_getblock and caml_really_getblock.
use ocaml_pro_ocaml_branch.Base.{
  ℕ, zero, suc, ◌+◌, ◌-◌, ◌≤◌, ◌<◌, ◌≡◌, ◌≢◌, ◌⊎◌, Bool, true, false, List, [], ◌∷◌, ◌++◌, length,
  drop, ltb, leb, ◌==◌, if◌then◌else◌, refl, sym, ap, ◌∙◌, arith, length-take, length-drop,
  length-append, inl, inr, subst,
}
use ocaml_pro_ocaml_branch.Io.Channel.{
  System, Reply, done, raise, waiting, out_of_fuel, Port, follow,
}
use ocaml_pro_ocaml_branch.Base.Buffers.{slice, blit, length-blit}
use ocaml_pro_ocaml_branch.Io.Output.{int_max}
use ocaml_pro_ocaml_branch.Io.Input.{block_read, getblock, getblock_loop, really_getblock, pos_in}
use ocaml_pro_ocaml_branch.Io.Input.Window.{
  unread, IsInput, Gets, Gets-nil, Gets-append, consumed-Gets, data_of, Read, do_read-Read,
  unread-Gets, loaded-Gets,
}

-- The program reads the block that is returned, none if the call does not return; an empty one is
-- only returned to it for an empty request, or at the end of the file.
pub record GetsBlock (p : Port) (len : ℕ) (out : Reply (List ℕ) × Port) : Type 0 where
  pub bounded : length (data_of out.0) ≤ len
  pub gets : Gets p (data_of out.0) out.1
  pub in_time : out.0 ≢ out_of_fuel
  pub at_end : out.0 ≡ done [] → 0 < len → unread out.1 ≡ []

full_block :
    (p p' : Port) (len : ℕ) (bytes : List ℕ) (n : ℕ)
    → length bytes ≡ n
    → n ≤ len
    → (n ≡ 0 → 0 < len → unread p' ≡ [])
    → Gets p bytes p'
    → GetsBlock p len (done bytes, p')
full_block p p' len bytes n e l z g = record {
  bounded = omega (arith, e, l);
  gets = g;
  in_time = λ h. ground arith;
  at_end = λ h l'. z (sym e ∙ ap (λ (r : Reply (List ℕ)). length (data_of r)) h) l';
}

stopped_block :
    (p : Port) (len n : ℕ) (r : Reply (List ℕ)) (s' : System)
    → IsInput p
    → data_of r ≡ []
    → r ≢ done []
    → Read n p.system s' r
    → GetsBlock p len (r, record p { system = s' })
stopped_block p len n r s' v e k d = record {
  bounded = rw e (omega arith);
  gets =
      subst (λ (xs : List ℕ). Gets p xs (record p { system = s' })) (sym e)
        (unread-Gets p s' n r v d e);
  in_time = d.in_time;
  at_end = λ h l. absurd (k h);
}

-- At the end of the file nothing is left of it.
end_unread : (p p' : Port) (bytes : List ℕ) → Gets p bytes p' → unread p ≡ [] → unread p' ≡ []
end_unread p p' [] g e = sym g.stream ∙ e
end_unread p p' (b ∷ bytes) g e = absurd (ground (arith, sym g.stream ∙ e))

no_bytes : (bytes : List ℕ) → length bytes ≡ 0 → bytes ≡ []
no_bytes [] e = refl
no_bytes (b ∷ bytes) e = absurd (omega arith)

block_read-GetsBlock :
    (p : Port) (len n : ℕ) (r : Reply (List ℕ)) (s' : System)
    → IsInput p
    → p.channel.curr ≡ p.channel.max
    → n ≤ len
    → 0 < n
    → Read (length p.channel.buff) p.system s' r
    → GetsBlock p len (follow (r, record p { system = s' }) (block_read n))
unfolding block_read pos_in
block_read-GetsBlock p len n (done bytes) s' v e l l' d =
    let m = if ltb (length bytes) n then length bytes else n in
    let m_le : m ≤ length bytes = ground arith in
    let m_len : m ≤ len = ground arith in
    let buff' = blit p.channel.buff 0 bytes in
    let size : length buff' ≡ length p.channel.buff =
      length-blit p.channel.buff 0 bytes (omega (arith, d.bounded)) in
    let place : p.channel.offset - (p.channel.max - p.channel.curr) ≡ p.system.position =
      omega (arith, e, v.in_step) in
    let g = loaded-Gets p s' m bytes v e m_le d in
    full_block p _ len (slice buff' 0 m) m
      (omega (arith, length-take {0} m buff', size, m_le, d.bounded)) m_len
      (λ z l''. end_unread p _ _ g (
        ap (λ k. drop k p.system.file) place
        ∙ d.at_end (ap done (no_bytes bytes (ground arith))) v.nonempty))
      g
block_read-GetsBlock p len n (raise x) s' v e l l' d =
    stopped_block p len _ (raise x) s' v refl (λ h. ground arith) d
block_read-GetsBlock p len n waiting s' v e l l' d =
    stopped_block p len _ waiting s' v refl (λ h. ground arith) d
block_read-GetsBlock p len n out_of_fuel s' v e l l' d = absurd (d.in_time refl)

if-GetsBlock :
    (t : Bool) (p : Port) (len : ℕ) (x y : Reply (List ℕ) × Port)
    → (t ≡ true → GetsBlock p len x)
    → (t ≡ false → GetsBlock p len y)
    → GetsBlock p len (if t then x else y)
if-GetsBlock true p len x y k k' = k refl
if-GetsBlock false p len x y k k' = k' refl

consumed-GetsBlock :
    (p : Port) (len n : ℕ)
    → IsInput p
    → n ≤ p.channel.max - p.channel.curr
    → n ≤ len
    → (n ≡ 0 → len ≡ 0)
    → GetsBlock p len (
      done (slice p.channel.buff p.channel.curr n),
      record p { channel = record p.channel { curr = p.channel.curr + n } },
    )
consumed-GetsBlock p len n v l l' z =
    full_block p _ len _ n
      (omega (
        arith,
        length-take {0} n (drop p.channel.curr p.channel.buff),
        length-drop {0} p.channel.curr p.channel.buff,
        v.bounded,
        v.within,
        l,
      ))
      l' (λ z' l''. absurd (omega (arith, z z', l''))) (consumed-Gets p n v l)

pub getblock-GetsBlock : (p : Port) (len : ℕ) → IsInput p → GetsBlock p len (getblock len p)
unfolding getblock
getblock-GetsBlock p len v =
    let c = p.channel in
    let n = if leb int_max len then int_max else len in
    let avail = c.max - c.curr in
    let n_le : n ≤ len = ground arith in
    let n_zero : n ≡ 0 → len ≡ 0 = λ z. ground arith in
    if-GetsBlock (leb n avail) p len _ _
      (λ enough. consumed-GetsBlock p len n v (ground arith) n_le n_zero)
      (λ few.
        if-GetsBlock (ltb 0 avail) p len _ _
          (λ some.
            consumed-GetsBlock p len avail v (omega arith) (ground arith) (λ z. ground arith))
          (λ none.
            block_read-GetsBlock p len n _ _ v (ground (arith, v.within)) n_le (ground arith)
              (do_read-Read c.fd (length c.buff) p.system)))

done-inj : {A : Type 0} {a b : A} → done a ≡ done b → a ≡ b
done-inj {A} {a} {b} e = cc

-- The result of caml_really_getblock: the whole block, or the rest of the file.
abbrev pub Complete : ℕ → List ℕ × Bool → Port → Type 0
Complete n result p' =
    ((result.1 ≡ true) × (length result.0 ≡ n))
    ⊎ ((result.1 ≡ false) × (length result.0 < n) × (unread p' ≡ []))

-- The program reads so many bytes of what it asked for; they are the result where the call returns.
pub record GetsAll (p : Port) (n : ℕ) (out : Reply (List ℕ × Bool) × Port) : Type 0 where
  pub bytes : List ℕ
  pub bounded : length bytes ≤ n
  pub gets : Gets p bytes out.1
  pub in_time : out.0 ≢ out_of_fuel
  pub result : (r : List ℕ × Bool) → out.0 ≡ done r → (r.0 ≡ bytes) × Complete n r out.1

returned-GetsAll :
    (p p' : Port) (n : ℕ) (r : List ℕ × Bool)
    → Gets p r.0 p'
    → length r.0 ≤ n
    → Complete n r p'
    → GetsAll p n (done r, p')
returned-GetsAll p p' n r g l k = record {
  bytes = r.0;
  bounded = l;
  gets = g;
  in_time = λ h. ground arith;
  result =
      λ r' h. subst (λ (q : List ℕ × Bool). (q.0 ≡ r.0) × Complete n q p') (done-inj h) (refl, k);
}

stopped-GetsAll :
    (p p' : Port) (n : ℕ) (x : Reply (List ℕ × Bool)) (bytes : List ℕ)
    → Gets p bytes p'
    → length bytes ≤ n
    → x ≢ out_of_fuel
    → ((r : List ℕ × Bool) → x ≢ done r)
    → GetsAll p n (x, p')
stopped-GetsAll p p' n x bytes g l t k = record {
  bytes = bytes;
  bounded = l;
  gets = g;
  in_time = t;
  result = λ r h. absurd (k r h);
}

add_rest :
    (p p' : Port) (n : ℕ) (block : List ℕ) (out : Reply (List ℕ × Bool) × Port)
    → Gets p block p'
    → length block ≤ n
    → GetsAll p' (n - length block) out
    → GetsAll p n
        (follow out (λ (rest : List ℕ × Bool) (p'' : Port). (done (block ++ rest.0, rest.1), p'')))
add_rest p p' n block (done rest, p'') g l q =
    let r = q.result rest refl in
    let g' : Gets p' rest.0 p'' = subst (λ (xs : List ℕ). Gets p' xs p'') (sym r.0) q.gets in
    let bounded : length rest.0 ≤ n - length block =
      subst (λ (xs : List ℕ). length xs ≤ n - length block) (sym r.0) q.bounded in
    returned-GetsAll p p'' n (block ++ rest.0, rest.1) (Gets-append g g')
      (omega (arith, length-append {0} block rest.0, bounded, l))
      (elim r.1 [
        | inl t ↦ inl (t.0, omega (arith, length-append {0} block rest.0, t.1, l))
        | inr f ↦ inr (f.0, omega (arith, length-append {0} block rest.0, f.1, l), f.2)
      ])
add_rest p p' n block (raise e, p'') g l q =
    stopped-GetsAll p p'' n (raise e) (block ++ q.bytes) (Gets-append g q.gets)
      (omega (arith, length-append {0} block q.bytes, q.bounded, l)) (λ h. ground arith)
      (λ r h. ground arith)
add_rest p p' n block (waiting, p'') g l q =
    stopped-GetsAll p p'' n waiting (block ++ q.bytes) (Gets-append g q.gets)
      (omega (arith, length-append {0} block q.bytes, q.bounded, l)) (λ h. ground arith)
      (λ r h. ground arith)
add_rest p p' n block (out_of_fuel, p'') g l q = absurd (q.in_time refl)

if-GetsAll :
    (t : Bool) (p : Port) (n : ℕ) (x y : Reply (List ℕ × Bool) × Port)
    → (t ≡ true → GetsAll p n x)
    → (t ≡ false → GetsAll p n y)
    → GetsAll p n (if t then x else y)
if-GetsAll true p n x y k k' = k refl
if-GetsAll false p n x y k k' = k' refl

block_round :
    (fuel n : ℕ) (p : Port) (out : Reply (List ℕ) × Port)
    → ((m : ℕ) (p' : Port) → IsInput p' → m < fuel → GetsAll p' m (getblock_loop fuel m p'))
    → n < fuel
    → GetsBlock p (suc n) out
    → GetsAll p (suc n) (
        follow out (λ block p'.
          if length block == 0
          then (done ([], false), p')
          else follow
              (getblock_loop fuel (suc n - length block) p')
              (λ (rest : List ℕ × Bool) (p'' : Port). (done (block ++ rest.0, rest.1), p''))))
block_round fuel n p (done block, p') rest l q =
    if-GetsAll (length block == 0) p (suc n) _ _
      (λ none.
        let no : block ≡ [] = no_bytes block (ground arith) in
        returned-GetsAll p p' (suc n) ([], false) (subst (λ (xs : List ℕ). Gets p xs p') no q.gets)
          (omega arith) (inr (refl, omega arith, q.at_end (ap done no) (omega arith))))
      (λ some.
        add_rest p p' (suc n) block _ q.gets q.bounded
          (rest (suc n - length block) p' q.gets.valid (ground arith)))
block_round fuel n p (raise e, p') rest l q =
    stopped-GetsAll p p' (suc n) (raise e) [] q.gets (omega arith) (λ h. ground arith)
      (λ r h. ground arith)
block_round fuel n p (waiting, p') rest l q =
    stopped-GetsAll p p' (suc n) waiting [] q.gets (omega arith) (λ h. ground arith)
      (λ r h. ground arith)
block_round fuel n p (out_of_fuel, p') rest l q = absurd (q.in_time refl)

getblock_loop-GetsAll :
    (fuel n : ℕ) (p : Port) → IsInput p → n < fuel → GetsAll p n (getblock_loop fuel n p)
unfolding getblock_loop
getblock_loop-GetsAll zero n p v l = absurd (omega arith)
getblock_loop-GetsAll (suc fuel) zero p v l =
    returned-GetsAll p p 0 ([], true) (Gets-nil p v) (omega arith) (inl (refl, refl))
getblock_loop-GetsAll (suc fuel) (suc n) p v l =
    block_round fuel n p (getblock (suc n) p) (λ m p' v' l'. getblock_loop-GetsAll fuel m p' v' l')
      (omega arith) (getblock-GetsBlock p (suc n) v)

pub really_getblock-GetsAll : (p : Port) (n : ℕ) → IsInput p → GetsAll p n (really_getblock n p)
unfolding really_getblock
really_getblock-GetsAll p n v = getblock_loop-GetsAll (suc n) n p v (omega arith)
