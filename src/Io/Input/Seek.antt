-- ===== src/Io/Input/Seek.antt =====
-- caml_seek_in, and reads after it.
use ocaml_pro_ocaml_branch.Base.{
  ℕ, ◌≤◌, ◌<◌, ◌-◌, ◌≡◌, ◌⊎◌, Bool, true, false, ◌&&◌, leb, List, [], ◌∷◌, ◌++◌, length, take, drop,
  refl, sym, ap, ap₂, ◌∙◌, arith, inl, inr, if◌then◌else◌, length-append, subst, zero, suc,
}
use ocaml_pro_ocaml_branch.Base.Int.{ℤ, pos, negsuc}
use ocaml_pro_ocaml_branch.Io.Channel.{
  sys_error, Reply, done, raise, waiting, out_of_fuel, Port, follow, ◌>>=◌, do_lseek, syscall,
}
use ocaml_pro_ocaml_branch.Base.Buffers.{append_nil, take-append_exact}
use ocaml_pro_ocaml_branch.Io.Input.{seek_in, pos_in, really_getblock}
use ocaml_pro_ocaml_branch.Io.Input.Window.{unread, IsInput}
use ocaml_pro_ocaml_branch.Io.Input.Blocks.{really_getblock-GetsAll}

-- A seek that returns stands at the place, in the same file; one that fails changes nothing.
pub record SeeksIn (p : Port) (dest : ℕ) (out : Reply (Unit {0}) × Port) : Type 0 where
  pub valid : IsInput out.1
  pub same_file : out.1.system.file ≡ p.system.file
  pub result :
      ((out.0 ≡ done tt) × (pos_in out.1.channel ≡ dest))
      ⊎ ((out.0 ≡ raise sys_error) × (out.1 ≡ p))

if-SeeksIn :
    (t : Bool) (p : Port) (dest : ℕ) (x y : Reply (Unit {0}) × Port)
    → (t ≡ true → SeeksIn p dest x)
    → (t ≡ false → SeeksIn p dest y)
    → SeeksIn p dest (if t then x else y)
if-SeeksIn true p dest x y k k' = k refl
if-SeeksIn false p dest x y k k' = k' refl

-- The place is in the buffer.
near-SeeksIn :
    (p : Port) (dest : ℕ)
    → IsInput p
    → p.channel.offset - p.channel.max ≤ dest
    → dest ≤ p.channel.offset
    → SeeksIn p dest (
      done tt,
      record p { channel = record p.channel { curr = p.channel.max - (p.channel.offset - dest) } },
    )
unfolding pos_in
near-SeeksIn p dest v l l' = record {
  valid = record {
    within = omega arith;
    bounded = v.bounded;
    nonempty = v.nonempty;
    in_step = v.in_step;
    reach = v.reach;
    window = v.window;
  };
  same_file = refl;
  result = inl (refl, omega (arith, l, l', v.reach));
}

far-SeeksIn :
    (p : Port) (dest : ℕ) (fd : ℤ)
    → IsInput p
    → SeeksIn p dest (
        follow (syscall (do_lseek fd dest p.system) p) (λ _ p'. (
          done tt,
          record p' { channel = record p'.channel { offset = dest; curr = 0; max = 0 } },
        )))
unfolding pos_in do_lseek
far-SeeksIn p dest (negsuc n) v = record { valid = v; same_file = refl; result = inr (refl, refl) }
far-SeeksIn p dest (pos fd) v = moved p.system.seekable
  where
    moved :
        (t : Bool)
        → SeeksIn p dest (
            follow
              (syscall
                (if t
                  then (done tt, record p.system { position = dest })
                  else (raise sys_error, p.system))
                p)
              (λ _ p'. (
                done tt,
                record p' { channel = record p'.channel { offset = dest; curr = 0; max = 0 } },
              )))
    moved true = record {
      valid = record {
        within = omega arith;
        bounded = omega arith;
        nonempty = v.nonempty;
        in_step = refl;
        reach = omega arith;
        window = refl;
      };
      same_file = refl;
      result = inl (refl, omega arith);
    }
    moved false = record { valid = v; same_file = refl; result = inr (refl, refl) }

-- In the buffer or out of it.
pub seek_in-SeeksIn : (p : Port) (dest : ℕ) → IsInput p → SeeksIn p dest (seek_in dest p)
unfolding seek_in
seek_in-SeeksIn p dest v =
    let c = p.channel in
    if-SeeksIn (leb (c.offset - c.max) dest && leb dest c.offset) p dest _ _
      (λ near. near-SeeksIn p dest v (ground arith) (ground arith))
      (λ far. far-SeeksIn p dest c.fd v)

take_all : (n : ℕ) (xs : List ℕ) → length xs ≤ n → take n xs ≡ xs
take_all zero [] l = refl
take_all (suc n) [] l = refl
take_all zero (x ∷ xs) l = absurd (omega arith)
take_all (suc n) (x ∷ xs) l = ap (λ (ws : List ℕ). x ∷ ws) (take_all n xs (omega arith))

leb-true : (m n : ℕ) → m ≤ n → leb m n ≡ true
leb-true m n l = ground arith

leb-false : (m n : ℕ) → n < m → leb m n ≡ false
leb-false m n l = ground arith

-- Where caml_really_getblock returns, its result is the next bytes of the file, as many as were asked
-- for or as are left, and whether there were so many.
pub really_getblock_lem :
    (p : Port) (n : ℕ) (r : List ℕ × Bool)
    → IsInput p
    → (really_getblock n p).0 ≡ done r
    → (r.0 ≡ take n (unread p)) × (r.1 ≡ leb n (length (unread p)))
really_getblock_lem p n r v h =
    let q = really_getblock-GetsAll p n v in
    let k = q.result r h in
    let rest = unread (really_getblock n p).1 in
    let stream : unread p ≡ r.0 ++ rest =
      q.gets.stream ∙ ap (λ (xs : List ℕ). xs ++ rest) (sym k.0) in
    elim k.1 [
      | inl all ↦ (
        sym (take-append_exact r.0 rest n (sym all.1)) ∙ ap (take n) (sym stream),
        all.0
            ∙ sym (
                leb-true n (length (unread p))
                  (omega (arith, ap length stream, length-append {0} r.0 rest, all.1))),
      )
      | inr some_left ↦
          let last : unread p ≡ r.0 =
            stream ∙ ap (λ (xs : List ℕ). r.0 ++ xs) some_left.2 ∙ append_nil r.0 in
          (
            sym (ap (take n) last ∙ take_all n r.0 (omega (arith, some_left.1))),
            some_left.0
                ∙ sym
                    (leb-false n (length (unread p)) (omega (arith, ap length last, some_left.1))),
          )
    ]

-- Random access: a block that is read after a seek is the part of the file from the place, whatever
-- the buffer held.
pub really_getblock-seek_in :
    (p : Port) (dest n : ℕ) (r : List ℕ × Bool)
    → IsInput p
    → ((seek_in dest >>= (λ _. really_getblock n)) p).0 ≡ done r
    → (r.0 ≡ take n (drop dest p.system.file)) × (r.1 ≡ leb n (length (drop dest p.system.file)))
really_getblock-seek_in p dest n r v h = after (seek_in dest p) (seek_in-SeeksIn p dest v) h
  where
    after :
        (out : Reply (Unit {0}) × Port)
        → SeeksIn p dest out
        → (follow out (λ _. really_getblock n)).0 ≡ done r
        → (r.0 ≡ take n (drop dest p.system.file))
          × (r.1 ≡ leb n (length (drop dest p.system.file)))
    after (done u, p') s h' =
        let place : pos_in p'.channel ≡ dest = elim s.result [
          | inl e ↦ e.1
          | inr e ↦ absurd (ground arith)
        ] in
        subst (λ (xs : List ℕ). (r.0 ≡ take n xs) × (r.1 ≡ leb n (length xs)))
          (ap₂ (λ (k : ℕ) (xs : List ℕ). drop k xs) place s.same_file)
          (really_getblock_lem p' n r s.valid h')
    after (raise e, p') s h' = absurd (ground arith)
    after (waiting, p') s h' = absurd (ground arith)
    after (out_of_fuel, p') s h' = absurd (ground arith)
