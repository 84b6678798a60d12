-- ===== src/Io/Output/Stream.antt =====
-- What was accepted by a channel: the bytes written to the descriptor and those that wait.
use ocaml_pro_ocaml_branch.Base.{
  ℕ, ◌+◌, ◌≤◌, ◌<◌, ◌≡◌, ◌≢◌, Bool, true, false, List, [], ◌∷◌, ◌++◌, length, take, ltb,
  if◌then◌else◌, refl, sym, ap, ◌∙◌, arith, length-take,
}
use ocaml_pro_ocaml_branch.Base.Int.{ℤ, pos, negsuc}
use ocaml_pro_ocaml_branch.Io.Channel.{
  Channel, Event, transferred, interrupted, would_block, failed, System, Exception, sys_error,
  sys_blocked_io, Reply, done, raise, waiting, out_of_fuel, Port, write_events, do_write,
}
use ocaml_pro_ocaml_branch.Base.Buffers.{append_nil, append_assoc, take-take}

abbrev pub accepted : Port → List ℕ
accepted p = p.system.sent ++ take p.channel.curr p.channel.buff

-- The number of bytes that a call reports; none where it does not return.
abbrev pub count : Reply ℕ → ℕ
count (done n) = n
count (raise e) = 0
count waiting = 0
count out_of_fuel = 0

-- What write(2) did with the bytes, that start with those it took.
pub record Wrote (bytes : List ℕ) (sent sent' : List ℕ) (r : Reply ℕ) : Type 0 where
  pub bounded : count r ≤ length bytes
  pub appended : sent' ≡ sent ++ take (count r) bytes
  pub in_time : r ≢ out_of_fuel
  pub progress : (n : ℕ) → r ≡ done n → 0 < length bytes → 0 < n

-- A write of the first byte alone is one of the whole.
take-Wrote :
    (bytes : List ℕ) {sent sent' : List ℕ} {r : Reply ℕ}
    → Wrote (take 1 bytes) sent sent' r
    → Wrote bytes sent sent' r
take-Wrote bytes {sent} {sent'} {r} w = record {
  bounded = omega (arith, w.bounded, length-take {0} 1 bytes);
  appended =
      w.appended
      ∙ ap (λ ys. sent ++ ys)
          (take-take (count r) 1 bytes (omega (arith, w.bounded, length-take {0} 1 bytes)));
  in_time = w.in_time;
  progress = λ n e l. w.progress n e (omega (arith, length-take {0} 1 bytes));
}

if-Wrote :
    (t : Bool) (bytes sent : List ℕ) (x y : Reply ℕ × System)
    → Wrote bytes sent x.1.sent x.0
    → Wrote bytes sent y.1.sent y.0
    → Wrote bytes sent (if t then x else y).1.sent (if t then x else y).0
if-Wrote true bytes sent x y p q = p
if-Wrote false bytes sent x y p q = q

not_written : (bytes sent : List ℕ) (e : Exception) → Wrote bytes sent sent (raise e)
not_written bytes sent e = record {
  bounded = omega arith;
  appended = sym (append_nil _);
  in_time = λ h. ground arith;
  progress = λ n f l. ground arith;
}

pub write_events-Wrote :
    (bytes : List ℕ) (es : List Event) (s : System)
    → Wrote bytes s.sent (write_events bytes es s).1.sent (write_events bytes es s).0
unfolding write_events
write_events-Wrote bytes [] s = record {
  bounded = omega arith;
  appended = sym (append_nil _);
  in_time = λ h. ground arith;
  progress = λ n e l. ground arith;
}
write_events-Wrote bytes (transferred k ∷ es) s = record {
  bounded = omega arith;
  appended = refl;
  in_time = λ h. ground arith;
  progress = λ n e l. ground arith;
}
write_events-Wrote bytes (interrupted ∷ es) s = write_events-Wrote bytes es s
write_events-Wrote bytes (would_block ∷ es) s =
    if-Wrote (ltb 1 (length bytes)) bytes s.sent (write_events (take 1 bytes) es s)
      (raise sys_blocked_io, record s { events = es })
      (take-Wrote bytes (write_events-Wrote (take 1 bytes) es s))
      (not_written bytes s.sent sys_blocked_io)
write_events-Wrote bytes (failed ∷ es) s = not_written bytes s.sent sys_error

pub do_write-Wrote :
    (fd : ℤ) (bytes : List ℕ) (s : System)
    → Wrote bytes s.sent (do_write fd bytes s).1.sent (do_write fd bytes s).0
unfolding do_write
do_write-Wrote (pos fd) bytes s = write_events-Wrote bytes s.events s
do_write-Wrote (negsuc n) bytes s = not_written bytes s.sent sys_error

-- The bytes that wait are inside a buffer that is not empty.
pub record IsOutput (c : Channel) : Type 0 where
  pub within : c.curr ≤ length c.buff
  pub nonempty : 0 < length c.buff

-- From the first port to the second the channel accepts the bytes. `offset` follows the descriptor.
pub record Accepts (p : Port) (bytes : List ℕ) (p' : Port) : Type 0 where
  pub valid : IsOutput p'.channel
  pub stream : accepted p' ≡ accepted p ++ bytes
  pub same_size : length p'.channel.buff ≡ length p.channel.buff
  pub same_fd : p'.channel.fd ≡ p.channel.fd
  pub in_step : p'.channel.offset + length p.system.sent ≡ p.channel.offset + length p'.system.sent

pub Accepts-nil : (p : Port) → IsOutput p.channel → Accepts p [] p
Accepts-nil p v = record {
  valid = v;
  stream = sym (append_nil _);
  same_size = refl;
  same_fd = refl;
  in_step = refl;
}

pub Accepts-append :
    {p p' p'' : Port} {bytes bytes' : List ℕ}
    → Accepts p bytes p'
    → Accepts p' bytes' p''
    → Accepts p (bytes ++ bytes') p''
Accepts-append {p} {p'} {p''} {bytes} {bytes'} a a' = record {
  valid = a'.valid;
  stream = a'.stream ∙ ap (λ ys. ys ++ bytes') a.stream ∙ append_assoc (accepted p) bytes bytes';
  same_size = a'.same_size ∙ a.same_size;
  same_fd = a'.same_fd ∙ a.same_fd;
  in_step = omega (arith, a.in_step, a'.in_step);
}
