-- ===== src/Io/Input/Window.antt =====
-- The buffer of an input channel as a window on the file, and what a read adds to it.
use ocaml_pro_ocaml_branch.Base.{
  ℕ, zero, suc, ◌+◌, ◌-◌, ◌≤◌, ◌<◌, ◌≡◌, ◌≢◌, min, List, [], ◌∷◌, ◌++◌, length, take, drop, refl,
  sym, ap, ◌∙◌, arith, length-take, length-drop, take-append-drop, subst, ap₂, length-append,
}
use ocaml_pro_ocaml_branch.Base.Int.{ℤ, pos, negsuc}
use ocaml_pro_ocaml_branch.Io.Channel.{
  Event, transferred, interrupted, would_block, failed, System, sys_blocked_io, sys_error,
  end_of_file, Reply, done, raise, waiting, out_of_fuel, Port, read_events, do_read,
}
use ocaml_pro_ocaml_branch.Base.Buffers.{
  slice, blit, append_assoc, drop-drop, drop-take, take-take, take-blit, length-blit,
  take-length-take,
}
use ocaml_pro_ocaml_branch.Io.Input.{pos_in}

-- The bytes of the file that the program has not read yet.
abbrev pub unread : Port → List ℕ
unread p = drop (pos_in p.channel) p.system.file

-- The descriptor stands at `offset`, and the buffer holds the `max` bytes before it.
pub record IsInput (p : Port) : Type 0 where
  pub within : p.channel.curr ≤ p.channel.max
  pub bounded : p.channel.max ≤ length p.channel.buff
  pub nonempty : 0 < length p.channel.buff
  pub in_step : p.channel.offset ≡ p.system.position
  pub reach : p.channel.max ≤ p.channel.offset
  pub window :
      take p.channel.max p.channel.buff
      ≡ take p.channel.max (drop (p.channel.offset - p.channel.max) p.system.file)

-- From the first port to the second the program reads the bytes.
pub record Gets (p : Port) (bytes : List ℕ) (p' : Port) : Type 0 where
  pub valid : IsInput p'
  pub stream : unread p ≡ bytes ++ unread p'
  pub advanced : pos_in p'.channel ≡ pos_in p.channel + length bytes
  pub same_file : p'.system.file ≡ p.system.file
  pub same_size : length p'.channel.buff ≡ length p.channel.buff

pub Gets-nil : (p : Port) → IsInput p → Gets p [] p
Gets-nil p v = record {
  valid = v;
  stream = refl;
  advanced = omega arith;
  same_file = refl;
  same_size = refl;
}

pub Gets-append :
    {p p' p'' : Port} {bytes bytes' : List ℕ}
    → Gets p bytes p'
    → Gets p' bytes' p''
    → Gets p (bytes ++ bytes') p''
Gets-append {p} {p'} {p''} {bytes} {bytes'} g g' = record {
  valid = g'.valid;
  stream =
      g.stream
      ∙ ap (λ (xs : List ℕ). bytes ++ xs) g'.stream
      ∙ sym (append_assoc bytes bytes' (unread p''));
  advanced = omega (arith, g.advanced, g'.advanced, length-append {0} bytes bytes');
  same_file = g'.same_file ∙ g.same_file;
  same_size = g'.same_size ∙ g.same_size;
}

add_zero : (n : ℕ) → n + 0 ≡ n
add_zero n = omega arith

-- What waits in the buffer comes next in the file.
pub buffered :
    (p : Port) (n : ℕ)
    → IsInput p
    → n ≤ p.channel.max - p.channel.curr
    → slice p.channel.buff p.channel.curr n ≡ take n (unread p)
unfolding pos_in
buffered p n v l =
    let c = p.channel in
    let start : c.offset - c.max + c.curr ≡ c.offset - (c.max - c.curr) =
      omega (arith, v.within, v.reach) in
    sym (take-take n (c.max - c.curr) (drop c.curr c.buff) l)
    ∙ ap (take n) (
        sym (drop-take c.curr c.max c.buff)
        ∙ ap (drop c.curr) v.window
        ∙ drop-take c.curr c.max (drop (c.offset - c.max) p.system.file)
        ∙ ap (take (c.max - c.curr)) (
            drop-drop (c.offset - c.max) c.curr p.system.file
            ∙ ap (λ k. drop k p.system.file) start))
    ∙ take-take n (c.max - c.curr) (unread p) l

-- The first bytes that wait, consumed.
pub consumed-Gets :
    (p : Port) (n : ℕ)
    → IsInput p
    → n ≤ p.channel.max - p.channel.curr
    → Gets p
        (slice p.channel.buff p.channel.curr n)
        (record p { channel = record p.channel { curr = p.channel.curr + n } })
unfolding pos_in
consumed-Gets p n v l =
    let c = p.channel in
    let p' = record p { channel = record c { curr = c.curr + n } } in
    let moved : pos_in c + n ≡ pos_in p'.channel = omega (arith, v.within, v.reach, l) in
    record {
      valid = record {
        within = omega (arith, l, v.within);
        bounded = v.bounded;
        nonempty = v.nonempty;
        in_step = v.in_step;
        reach = v.reach;
        window = v.window;
      };
      stream =
          sym (take-append-drop n (unread p))
          ∙ ap₂ (λ (xs ys : List ℕ). xs ++ ys) (sym (buffered p n v l))
              (drop-drop (pos_in c) n p.system.file ∙ ap (λ k. drop k p.system.file) moved);
      advanced = omega (
        arith,
        moved,
        length-take {0} n (drop c.curr c.buff),
        length-drop {0} c.curr c.buff,
        v.bounded,
        l,
        v.within,
      );
      same_file = refl;
      same_size = refl;
    }

-- The bytes of a call of read; none where it does not return.
abbrev pub data_of : Reply (List ℕ) → List ℕ
data_of (done bytes) = bytes
data_of (raise e) = []
data_of waiting = []
data_of out_of_fuel = []

-- What read(2) gave of the file: no more than asked for, and none at the end of the file only.
pub record Read (n : ℕ) (s s' : System) (r : Reply (List ℕ)) : Type 0 where
  pub bounded : length (data_of r) ≤ n
  pub next : data_of r ≡ take (length (data_of r)) (drop s.position s.file)
  pub moved : s'.position ≡ s.position + length (data_of r)
  pub same_file : s'.file ≡ s.file
  pub in_time : r ≢ out_of_fuel
  pub not_raised : r ≢ raise end_of_file
  pub at_end : r ≡ done [] → 0 < n → drop s.position s.file ≡ []

nothing_came :
    (n : ℕ) (s s' : System) (r : Reply (List ℕ))
    → data_of r ≡ []
    → r ≢ done []
    → r ≢ out_of_fuel
    → r ≢ raise end_of_file
    → s'.position ≡ s.position
    → s'.file ≡ s.file
    → Read n s s' r
nothing_came n s s' r e d t k p f = record {
  bounded = rw e (omega arith);
  next = rw e;
  moved = rw (e, p) (omega arith);
  same_file = f;
  in_time = t;
  not_raised = k;
  at_end = λ h l. absurd (d h);
}

take_none : (n : ℕ) (xs : List ℕ) → 0 < n → take n xs ≡ [] → xs ≡ []
take_none n [] l h = refl
take_none zero (x ∷ xs) l h = absurd (omega arith)
take_none (suc n) (x ∷ xs) l h = absurd (ground arith)

read_events-Read :
    (n : ℕ) (es : List Event) (s : System) → Read n s (read_events n es s).1 (read_events n es s).0
unfolding read_events
read_events-Read n [] s =
    nothing_came n s _ waiting refl (λ h. ground arith) (λ h. ground arith) (λ h. ground arith) refl
      refl
read_events-Read n (transferred k ∷ es) s =
    let rest = drop s.position s.file in
    let m = min (suc k) n in
    record {
      bounded = omega (arith, length-take {0} m rest);
      next = sym (take-length-take m rest);
      moved = refl;
      same_file = refl;
      in_time = λ h. ground arith;
      not_raised = λ h. ground arith;
      at_end = λ h l. take_none m rest (omega arith) (ap data_of h);
    }
read_events-Read n (interrupted ∷ es) s = read_events-Read n es s
read_events-Read n (would_block ∷ es) s =
    nothing_came n s _ (raise sys_blocked_io) refl (λ h. ground arith) (λ h. ground arith)
      (λ h. ground arith) refl refl
read_events-Read n (failed ∷ es) s =
    nothing_came n s _ (raise sys_error) refl (λ h. ground arith) (λ h. ground arith)
      (λ h. ground arith) refl refl

pub do_read-Read : (fd : ℤ) (n : ℕ) (s : System) → Read n s (do_read fd n s).1 (do_read fd n s).0
unfolding do_read
do_read-Read (pos fd) n s = read_events-Read n s.events s
do_read-Read (negsuc m) n s =
    nothing_came n s s (raise sys_error) refl (λ h. ground arith) (λ h. ground arith)
      (λ h. ground arith) refl refl

-- A read that did not return.
pub unread-Gets :
    (p : Port) (s' : System) (n : ℕ) (r : Reply (List ℕ))
    → IsInput p
    → Read n p.system s' r
    → data_of r ≡ []
    → Gets p [] (record p { system = s' })
unfolding pos_in
unread-Gets p s' n r v d e =
    let same_place : s'.position ≡ p.system.position =
      d.moved
      ∙ ap (λ (xs : List ℕ). p.system.position + length xs) e
      ∙ add_zero p.system.position in
    record {
      valid = record {
        within = v.within;
        bounded = v.bounded;
        nonempty = v.nonempty;
        in_step = v.in_step ∙ sym same_place;
        reach = v.reach;
        window =
            v.window
            ∙ ap (λ (xs : List ℕ). take p.channel.max (drop (p.channel.offset - p.channel.max) xs))
                (sym d.same_file);
      };
      stream = ap (drop (pos_in p.channel)) (sym d.same_file);
      advanced = omega arith;
      same_file = d.same_file;
      same_size = refl;
    }

-- A read into an empty buffer, of which `m` bytes are consumed.
pub loaded-Gets :
    (p : Port) (s' : System) (m : ℕ) (bytes : List ℕ)
    → IsInput p
    → p.channel.curr ≡ p.channel.max
    → m ≤ length bytes
    → Read (length p.channel.buff) p.system s' (done bytes)
    → let buff' = blit p.channel.buff 0 bytes in
      Gets p (slice buff' 0 m) (record p {
        channel = record p.channel {
          offset = p.channel.offset + length bytes;
          max = length bytes;
          curr = m;
          buff = buff';
        };
        system = s';
      })
unfolding pos_in
loaded-Gets p s' m bytes v e l d =
    let c = p.channel in
    let buff' = blit c.buff 0 bytes in
    let size : length buff' ≡ length c.buff =
      length-blit c.buff 0 bytes (omega (arith, d.bounded)) in
    let place : c.offset + length bytes - length bytes ≡ p.system.position =
      omega (arith, v.in_step) in
    let whole : take (length bytes) buff' ≡ bytes =
      take-blit c.buff 0 bytes (length bytes) (omega arith) (omega arith) in
    let p1 = record p {
      channel = record c {
        offset = c.offset + length bytes;
        max = length bytes;
        curr = 0;
        buff = buff';
      };
      system = s';
    } in
    let valid1 : IsInput p1 = record {
      within = omega arith;
      bounded = omega (arith, d.bounded, size);
      nonempty = omega (arith, size, v.nonempty);
      in_step = omega (arith, d.moved, v.in_step);
      reach = omega arith;
      window =
          whole
          ∙ d.next
          ∙ ap₂ (λ (k : ℕ) (xs : List ℕ). take (length bytes) (drop k xs)) (sym place)
              (sym d.same_file);
    } in
    let empty : Gets p [] p1 = record {
      valid = valid1;
      stream = ap₂ (λ (k : ℕ) (xs : List ℕ). drop k xs) (omega (arith, e)) (sym d.same_file);
      advanced = omega (arith, e);
      same_file = d.same_file;
      same_size = size;
    } in
    let at_m : 0 + m ≡ m = omega arith in
    subst
      (λ (k : ℕ). Gets p (slice buff' 0 m) (record p {
        channel = record c {
          offset = c.offset + length bytes;
          max = length bytes;
          curr = k;
          buff = buff';
        };
        system = s';
      }))
      at_m (Gets-append empty (consumed-Gets p1 m valid1 (omega (arith, l))))
