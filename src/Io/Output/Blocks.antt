-- ===== src/Io/Output/Blocks.antt =====
-- caml_putblock and caml_really_putblock.
use ocaml_pro_ocaml_branch.Base.{
  ℕ, ◌+◌, ◌-◌, ◌≤◌, ◌≡◌, ◌≢◌, Bool, true, false, List, [], ◌++◌, length, take, ltb, leb,
  if◌then◌else◌, refl, sym, ap, ◌∙◌, arith, length-take, subst,
}
use ocaml_pro_ocaml_branch.Io.Channel.{
  System, Reply, done, raise, waiting, out_of_fuel, Port, follow, do_write, syscall,
}
use ocaml_pro_ocaml_branch.Base.Buffers.{
  blit, take-blit_before, take-length, append_nil, append_assoc, take-blit, length-blit,
}
use ocaml_pro_ocaml_branch.Io.Output.{flushed, overflowed, putblock, int_max}
use ocaml_pro_ocaml_branch.Io.Output.Stream.{
  Wrote, do_write-Wrote, accepted, count, IsOutput, Accepts, Accepts-append,
}
use ocaml_pro_ocaml_branch.Io.Output.Flush.{flushed-Accepts, unwritten-Accepts}

-- The channel accepts as many bytes as the call reports, none if it does not return.
pub record PutsSome (p : Port) (bytes : List ℕ) (out : Reply ℕ × Port) : Type 0 where
  pub bounded : count out.0 ≤ length bytes
  pub accepts : Accepts p (take (count out.0) bytes) out.1
  pub in_time : out.0 ≢ out_of_fuel

-- Bytes moved into the buffer.
moved-Accepts :
    (p : Port) (bytes : List ℕ)
    → IsOutput p.channel
    → p.channel.curr + length bytes ≤ length p.channel.buff
    → Accepts p bytes (record p {
      channel = record p.channel {
        buff = blit p.channel.buff p.channel.curr bytes;
        curr = p.channel.curr + length bytes;
      };
    })
moved-Accepts p bytes v room =
    let c = p.channel in
    let size = length-blit c.buff c.curr bytes room in
    record {
      valid = record { within = omega (arith, size); nonempty = omega (arith, size, v.nonempty) };
      stream =
          ap (λ (xs : List ℕ). p.system.sent ++ xs)
            (take-blit c.buff c.curr bytes (c.curr + length bytes) v.within refl)
          ∙ sym (append_assoc p.system.sent (take c.curr c.buff) bytes);
      same_size = size;
      same_fd = refl;
      in_step = refl;
    }

-- Bytes written behind `curr`.
behind-Accepts :
    (p : Port) (bytes : List ℕ)
    → IsOutput p.channel
    → p.channel.curr + length bytes ≤ length p.channel.buff
    → Accepts p [] (record p {
      channel = record p.channel { buff = blit p.channel.buff p.channel.curr bytes };
    })
behind-Accepts p bytes v room =
    let c = p.channel in
    let size = length-blit c.buff c.curr bytes room in
    record {
      valid = record {
        within = omega (arith, size, v.within);
        nonempty = omega (arith, size, v.nonempty);
      };
      stream =
          ap (λ (xs : List ℕ). p.system.sent ++ xs)
            (take-blit_before c.buff c.curr bytes c.curr (omega arith) v.within)
          ∙ sym (append_nil (accepted p));
      same_size = size;
      same_fd = refl;
      in_step = refl;
    }

-- The buffer is filled, and written.
overflowed-Accepts :
    (p : Port) (block : List ℕ) (n free : ℕ) (s' : System)
    → IsOutput p.channel
    → p.channel.curr + length block ≡ length p.channel.buff
    → Wrote (blit p.channel.buff p.channel.curr block) p.system.sent s'.sent (done n)
    → Accepts p block
        (overflowed free n (record p {
          channel = record p.channel { buff = blit p.channel.buff p.channel.curr block };
          system = s';
        })).1
unfolding overflowed flushed
overflowed-Accepts p block n free s' v full w =
    let filled = blit p.channel.buff p.channel.curr block in
    let size = length-blit p.channel.buff p.channel.curr block (omega arith) in
    let q = record p { channel = record p.channel { buff = filled; curr = length filled } } in
    let to_end : p.channel.curr + length block ≡ length filled = omega (arith, size) in
    let a : Accepts p block q =
      subst
        (λ (k : ℕ).
          Accepts p block (record p { channel = record p.channel { buff = filled; curr = k } }))
        to_end (moved-Accepts p block v (omega arith)) in
    let a' : Accepts q [] (flushed n (record q { system = s' })).1 =
      flushed-Accepts q s' n a.valid (
        subst (λ (xs : List ℕ). Wrote xs p.system.sent s'.sent (done n)) (sym (take-length filled))
          w) in
    subst (λ (xs : List ℕ). Accepts p xs (flushed n (record q { system = s' })).1)
      (append_nil block) (Accepts-append a a')

stopped-PutsSome :
    (p : Port) (bytes : List ℕ) (free : ℕ) (r : Reply ℕ) (s' : System)
    → IsOutput p.channel
    → p.channel.curr + free ≡ length p.channel.buff
    → Wrote (blit p.channel.buff p.channel.curr (take free bytes)) p.system.sent s'.sent r
    → count r ≡ 0
    → r ≢ out_of_fuel
    → PutsSome p bytes (
      r,
      record p {
        channel = record p.channel { buff = blit p.channel.buff p.channel.curr (take free bytes) };
        system = s';
      },
    )
stopped-PutsSome p bytes free r s' v full w z t =
    let a =
      behind-Accepts p (take free bytes) v (omega (arith, full, length-take {0} free bytes)) in
    record {
      bounded = omega (arith, z);
      accepts =
          subst
            (λ (k : ℕ). Accepts p (take k bytes) (record p {
              channel = record p.channel {
                buff = blit p.channel.buff p.channel.curr (take free bytes);
              };
              system = s';
            }))
            (sym z) (Accepts-append a (unwritten-Accepts _ s' _ r a.valid w z));
      in_time = t;
    }

overflowed-PutsSome :
    (p : Port) (bytes : List ℕ) (free : ℕ) (r : Reply ℕ) (s' : System)
    → IsOutput p.channel
    → free ≤ length bytes
    → p.channel.curr + free ≡ length p.channel.buff
    → Wrote (blit p.channel.buff p.channel.curr (take free bytes)) p.system.sent s'.sent r
    → PutsSome p bytes (
        follow
          (
            r,
            record p {
              channel = record p.channel {
                buff = blit p.channel.buff p.channel.curr (take free bytes);
              };
              system = s';
            },
          )
          (overflowed free))
unfolding overflowed
overflowed-PutsSome p bytes free (done n) s' v l full w = record {
  bounded = l;
  accepts =
      overflowed-Accepts p (take free bytes) n free s' v
        (omega (arith, full, length-take {0} free bytes)) w;
  in_time = λ h. ground arith;
}
overflowed-PutsSome p bytes free (raise e) s' v l full w =
    stopped-PutsSome p bytes free (raise e) s' v full w refl (λ h. ground arith)
overflowed-PutsSome p bytes free waiting s' v l full w =
    stopped-PutsSome p bytes free waiting s' v full w refl (λ h. ground arith)
overflowed-PutsSome p bytes free out_of_fuel s' v l full w = absurd (w.in_time refl)

if-PutsSome :
    (t : Bool) (p : Port) (bytes : List ℕ) (x y : Reply ℕ × Port)
    → (t ≡ true → PutsSome p bytes x)
    → (t ≡ false → PutsSome p bytes y)
    → PutsSome p bytes (if t then x else y)
if-PutsSome true p bytes x y k k' = k refl
if-PutsSome false p bytes x y k k' = k' refl

-- The block fits in the buffer.
small-PutsSome :
    (p : Port) (bytes : List ℕ) (n : ℕ)
    → IsOutput p.channel
    → n ≤ length bytes
    → p.channel.curr + n ≤ length p.channel.buff
    → PutsSome p bytes (
      done n,
      record p {
        channel = record p.channel {
          buff = blit p.channel.buff p.channel.curr (take n bytes);
          curr = p.channel.curr + n;
        };
      },
    )
small-PutsSome p bytes n v l room =
    let size : length (take n bytes) ≡ n = omega (arith, length-take {0} n bytes) in
    record {
      bounded = l;
      accepts =
          subst
            (λ (k : ℕ). Accepts p (take n bytes) (record p {
              channel = record p.channel {
                buff = blit p.channel.buff p.channel.curr (take n bytes);
                curr = p.channel.curr + k;
              };
            }))
            size (moved-Accepts p (take n bytes) v (omega (arith, size)));
      in_time = λ h. ground arith;
    }

large-PutsSome :
    (p : Port) (bytes : List ℕ) (free : ℕ)
    → IsOutput p.channel
    → free ≤ length bytes
    → p.channel.curr + free ≡ length p.channel.buff
    → PutsSome p bytes (
        let filled = blit p.channel.buff p.channel.curr (take free bytes) in
        follow
          (syscall
            (do_write p.channel.fd filled p.system)
            (record p { channel = record p.channel { buff = filled } }))
          (overflowed free))
large-PutsSome p bytes free v l full =
    overflowed-PutsSome p bytes free _ _ v l full
      (do_write-Wrote p.channel.fd (blit p.channel.buff p.channel.curr (take free bytes)) p.system)

pub putblock-PutsSome :
    (p : Port) (bytes : List ℕ) → IsOutput p.channel → PutsSome p bytes (putblock bytes p)
unfolding putblock
putblock-PutsSome p bytes v =
    let c = p.channel in
    let n = if leb int_max (length bytes) then int_max else length bytes in
    let l : n ≤ length bytes = ground arith in
    if-PutsSome (ltb n (length c.buff - c.curr)) p bytes _ _
      (λ fits. small-PutsSome p bytes n v l (ground arith))
      (λ full.
        large-PutsSome p bytes (length c.buff - c.curr) v (ground arith) (omega (arith, v.within)))
