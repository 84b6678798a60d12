-- ===== src/Io/Input/Closed.antt =====
-- What caml_ml_close_channel leaves of a channel.
use ocaml_pro_ocaml_branch.Base.{
  ℕ, ◌≤◌, ◌<◌, ◌-◌, ◌≡◌, true, false, ◌&&◌, leb, ltb, length, refl, arith, if◌then◌else◌,
}
use ocaml_pro_ocaml_branch.Io.Channel.{
  sys_error, done, raise, Port, ◌>>=◌, do_read, do_write, close_channel,
}
use ocaml_pro_ocaml_branch.Io.Output.{flush_partial, putch, int_max}
use ocaml_pro_ocaml_branch.Io.Input.{byte_at, refill, getch, getblock, seek_in}

-- Every read or write of a closed channel raises sys_error: a byte put or got, and a block of one byte
-- or more.
pub close_channel-raises :
    (p : Port) (ch len : ℕ)
    → 0 < length p.channel.buff
    → 0 < len
    → let p' = (close_channel p).1 in
      ((getch p').0 ≡ raise sys_error)
      × ((getblock len p').0 ≡ raise sys_error)
      × ((putch ch p').0 ≡ raise sys_error)
unfolding close_channel getch getblock refill putch flush_partial do_read do_write
close_channel-raises p ch len l l' =
    let size = length p.channel.buff in
    let n = if leb int_max len then int_max else len in
    let at_end : leb size size ≡ true = ground arith in
    let some : ltb 0 size ≡ true = ground arith in
    let more : leb n (size - size) ≡ false = ground arith in
    let none_left : ltb 0 (size - size) ≡ false = ground arith in
    (rw at_end refl, rw (more, none_left) refl, rw (at_end, some) refl)

-- But a seek of a closed channel to a place less than a buffer before `offset` succeeds, and the next
-- byte is one that the buffer held, with no system call.
pub close_channel-seek_in :
    (p : Port) (dest : ℕ)
    → p.channel.offset - length p.channel.buff ≤ dest
    → dest < p.channel.offset
    → let out = (seek_in dest >>= (λ _. getch)) (close_channel p).1 in
      (out.0 ≡ done (byte_at p.channel.buff (length p.channel.buff - (p.channel.offset - dest))))
      × (out.1.system ≡ p.system)
unfolding close_channel seek_in getch
close_channel-seek_in p dest l l' =
    let c = p.channel in
    let near : leb (c.offset - length c.buff) dest && leb dest c.offset ≡ true = ground arith in
    let inside : leb (length c.buff) (length c.buff - (c.offset - dest)) ≡ false = ground arith in
    rw (near, inside) (refl, refl)
