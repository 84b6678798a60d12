-- ===== src/Io/Output.antt =====
-- Output on a channel: the buffer is written when it is full, and by the flushes.
pub mod Stream
pub mod Flush
pub mod Chars
pub mod Blocks
pub mod Advance
pub mod Session
pub mod Progress
pub mod Seek
use ocaml_pro_ocaml_branch.Base.{
  ℕ, zero, suc, ◌+◌, ◌-◌, ◌*◌, ◌/◌, ◌%◌, ◌^◌, min, Bool, true, false, List, [], ◌∷◌, length, take,
  drop, set, ltb, leb, ◌==◌, if◌then◌else◌,
}
use ocaml_pro_ocaml_branch.Io.Channel.{
  Channel, is_closed, Exception, Reply, done, raise, waiting, out_of_fuel, Port, Io, follow, ◌>>=◌,
  ◌>>◌, do_write, do_lseek, syscall,
}
use ocaml_pro_ocaml_branch.Base.Buffers.{slice, blit}

-- After `written` of the bytes up to `curr` went out: the others move to the start of the buffer.
unfoldable pub flushed : ℕ → Io Bool
flushed written p =
    let c = p.channel in
    let c' = record c {
      offset = c.offset + written;
      buff =
          if ltb written c.curr
          then blit c.buff 0 (slice c.buff written (c.curr - written))
          else c.buff;
      curr = c.curr - written;
    } in
    (done (c'.curr == 0), record p { channel = c' })

unfoldable pub flush_partial : Io Bool
unfolding flushed
flush_partial p =
    let c = p.channel in
    if ltb 0 c.curr
    then follow (syscall (do_write c.fd (take c.curr c.buff) p.system) p) flushed
    else (done true, p)

-- `while (! caml_flush_partial(channel))`
unfoldable pub flush_loop : ℕ → Io (Unit {0})
flush_loop zero p = (out_of_fuel, p)
flush_loop (suc fuel) p =
    follow (flush_partial p)
      (λ empty p'. elim empty [ true ↦ (done tt, p') | false ↦ flush_loop fuel p' ])

-- Each round writes a byte or more.
unfoldable pub flush : Io (Unit {0})
unfolding flush_loop
flush p = flush_loop (suc p.channel.curr) p

-- `*(channel->curr)++ = ch`
abbrev pub store : ℕ → Io (Unit {0})
store ch p =
    let c = p.channel in
    (
      done tt,
      record p { channel = record c { buff = set c.buff c.curr (ch % 2 ^ 8); curr = c.curr + 1 } },
    )

unfoldable pub putch : ℕ → Io (Unit {0})
putch ch p =
    let c = p.channel in
    if leb (length c.buff) c.curr then follow (flush_partial p) (λ _. store ch) else store ch p

-- Every channel is binary under Unix.
unfoldable pub putword : ℕ → Io (Unit {0})
putword w = putch (w / 2 ^ 24) >> (putch (w / 2 ^ 16) >> (putch (w / 2 ^ 8) >> putch w))

abbrev pub int_max : ℕ
int_max = 2 ^ 31 - 1

-- After `written` bytes of a full buffer went out.
unfoldable pub overflowed : ℕ → ℕ → Io ℕ
overflowed free written p =
    let c = p.channel in
    let towrite = length c.buff in
    (
      done free,
      record p {
        channel = record c {
          offset = c.offset + written;
          buff =
              if ltb written towrite
              then blit c.buff 0 (slice c.buff written (towrite - written))
              else c.buff;
          curr = towrite - written;
        };
      },
    )

unfoldable pub putblock : List ℕ → Io ℕ
unfolding overflowed
putblock bytes p =
    let c = p.channel in
    let n = if leb int_max (length bytes) then int_max else length bytes in
    let free = length c.buff - c.curr in
    let filled = blit c.buff c.curr (take free bytes) in
    if ltb n free
    then (
      done n,
      record p {
        channel = record c { buff = blit c.buff c.curr (take n bytes); curr = c.curr + n };
      },
    )
    else follow
        (syscall (do_write c.fd filled p.system)
          (record p { channel = record c { buff = filled } }))
        (overflowed free)

-- `while (len > 0)`
unfoldable pub putblock_loop : ℕ → List ℕ → Io (Unit {0})
putblock_loop zero bytes p = (out_of_fuel, p)
putblock_loop (suc fuel) [] p = (done tt, p)
putblock_loop (suc fuel) (b ∷ bytes) p =
    follow (putblock (b ∷ bytes) p) (λ written. putblock_loop fuel (drop written (b ∷ bytes)))

-- A round moves a byte or more, or writes a full buffer.
unfoldable pub really_putblock : List ℕ → Io (Unit {0})
unfolding putblock_loop
really_putblock bytes p = putblock_loop (suc (suc (2 * length bytes))) bytes p

unfoldable pub seek_out : ℕ → Io (Unit {0})
seek_out dest p = follow (flush p) (λ _ p'.
    follow (syscall (do_lseek p'.channel.fd dest p'.system) p')
      (λ _ p''. (done tt, record p'' { channel = record p''.channel { offset = dest } })))

-- `if (channel->fd == -1) CAMLreturn(Val_unit)`: a flush of a closed channel does nothing.
unfoldable pub ml_flush : Io (Unit {0})
ml_flush p = if is_closed p.channel then (done tt, p) else flush p

unfoldable pub ml_flush_partial : Io Bool
ml_flush_partial p = if is_closed p.channel then (done true, p) else flush_partial p

unfoldable pub ml_output_char : ℕ → Io (Unit {0})
ml_output_char ch p = putch ch p

-- The word is a uint32.
unfoldable pub ml_output_int : ℕ → Io (Unit {0})
ml_output_int w p = putword (w % 2 ^ 32) p

unfoldable pub ml_output_partial : List ℕ → ℕ → ℕ → Io ℕ
ml_output_partial string start len p = putblock (slice string start len) p

-- Its loop is that of caml_really_putblock.
unfoldable pub ml_output : List ℕ → ℕ → ℕ → Io (Unit {0})
ml_output string start len p = really_putblock (slice string start len) p

unfoldable pub pos_out : Channel → ℕ
pos_out c = c.offset + c.curr
