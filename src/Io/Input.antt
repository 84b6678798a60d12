-- ===== src/Io/Input.antt =====
-- Input from a channel: the buffer holds what the last calls of read gave, from `curr` to `max` not yet
-- consumed.
pub mod Window
pub mod Blocks
pub mod Chars
pub mod Words
pub mod Scan
pub mod Lines
pub mod Seek
pub mod Closed
use ocaml_pro_ocaml_branch.Base.{
  ℕ, zero, suc, ◌+◌, ◌-◌, ◌*◌, ◌%◌, ◌^◌, Bool, true, false, List, [], ◌∷◌, ◌++◌, length, take, drop,
  get_or, ltb, leb, ◌==◌, ◌&&◌, if◌then◌else◌,
}
use ocaml_pro_ocaml_branch.Base.Int.{ℤ, pos, negsuc}
use ocaml_pro_ocaml_branch.Io.Channel.{
  Channel, System, end_of_file, Reply, done, raise, waiting, out_of_fuel, Port, Io, follow, do_read,
  do_lseek, do_lseek_end, syscall,
}
use ocaml_pro_ocaml_branch.Base.Buffers.{slice, blit}
use ocaml_pro_ocaml_branch.Io.Output.{int_max}

-- The byte at a place of the buffer; the places that are read are inside it.
abbrev pub byte_at : List ℕ → ℕ → ℕ
byte_at buff i = get_or buff i 0

-- After a read of `bytes` into an empty buffer.
unfoldable pub refilled : List ℕ → Io ℕ
refilled bytes p =
    let c = p.channel in
    let buff' = blit c.buff 0 bytes in
    if length bytes == 0 then (raise end_of_file, p) else (
      done (byte_at buff' 0),
      record p {
        channel = record c {
          offset = c.offset + length bytes;
          max = length bytes;
          curr = 1;
          buff = buff';
        };
      },
    )

unfoldable pub refill : Io ℕ
unfolding refilled
refill p = follow (syscall (do_read p.channel.fd (length p.channel.buff) p.system) p) refilled

unfoldable pub getch : Io ℕ
unfolding refill
getch p =
    let c = p.channel in
    if leb c.max c.curr
    then refill p
    else (done (byte_at c.buff c.curr), record p { channel = record c { curr = c.curr + 1 } })

-- `for(i = 0; i < 4; i++) res = (res << 8) + getch(channel)`, with the rounds that are left.
unfoldable pub getword_loop : ℕ → ℕ → Io ℕ
unfolding getch
getword_loop zero res p = (done res, p)
getword_loop (suc i) res p = follow (getch p) (λ ch. getword_loop i ((res * 2 ^ 8 + ch) % 2 ^ 32))

unfoldable pub getword : Io ℕ
unfolding getword_loop
getword p = getword_loop 4 0 p

-- After a read of `bytes` into an empty buffer, for a block of `n`.
unfoldable pub block_read : ℕ → List ℕ → Io (List ℕ)
block_read n bytes p =
    let c = p.channel in
    let nread = length bytes in
    let buff' = blit c.buff 0 bytes in
    let m = if ltb nread n then nread else n in
    (
      done (slice buff' 0 m),
      record p {
        channel = record c { offset = c.offset + nread; max = nread; curr = m; buff = buff' };
      },
    )

-- The block that is returned is what goes to `p`; its length is the result.
unfoldable pub getblock : ℕ → Io (List ℕ)
unfolding block_read
getblock len p =
    let c = p.channel in
    let n = if leb int_max len then int_max else len in
    let avail = c.max - c.curr in
    if leb n avail
    then (done (slice c.buff c.curr n), record p { channel = record c { curr = c.curr + n } })
    else if ltb 0 avail
    then (
      done (slice c.buff c.curr avail),
      record p { channel = record c { curr = c.curr + avail } },
    )
    else follow (syscall (do_read c.fd (length c.buff) p.system) p) (block_read n)

-- `while (n > 0)`, with the bytes that it moved; a block of no byte leaves it.
unfoldable pub getblock_loop : ℕ → ℕ → Io (List ℕ × Bool)
unfolding getblock
getblock_loop zero n p = (out_of_fuel, p)
getblock_loop (suc fuel) zero p = (done ([], true), p)
getblock_loop (suc fuel) (suc n) p = follow (getblock (suc n) p) (λ block p'.
    if length block == 0
    then (done ([], false), p')
    else follow (getblock_loop fuel (suc n - length block) p')
        (λ (rest : List ℕ × Bool) (p'' : Port). (done (block ++ rest.0, rest.1), p'')))

-- Each round moves a byte or leaves the loop.
unfoldable pub really_getblock : ℕ → Io (List ℕ × Bool)
unfolding getblock_loop
really_getblock n p = getblock_loop (suc n) n p

-- The number with a negative sign.
abbrev pub minus : ℕ → ℤ
minus zero = pos zero
minus (suc n) = negsuc n

-- The unread portion is moved to the beginning of the buffer.
unfoldable pub scan_shift : Channel → Channel
scan_shift c =
    if ltb 0 c.curr
    then record c {
      buff = blit c.buff 0 (slice c.buff c.curr (c.max - c.curr));
      curr = 0;
      max = c.max - c.curr;
    }
    else c

-- `while (*p++ != '\n')`, with `p` at place `i`.
unfoldable pub scan_byte : (ℕ → Io ℤ) → ℕ → Io ℤ
scan_byte again i p = elim (byte_at p.channel.buff i == 10) [
  | true ↦ (done (pos (i + 1 - p.channel.curr)), p)
  | false ↦ again (i + 1) p
]

-- After a read of `bytes` behind `max`.
unfoldable pub scan_filled : (ℕ → Io ℤ) → ℕ → List ℕ → Io ℤ
unfolding scan_byte
scan_filled again i bytes p =
    let c = p.channel in
    elim (length bytes == 0) [
      | true ↦ (done (minus (c.max - c.curr)), p)
      | false ↦ scan_byte again i (record p {
        channel = record c {
          offset = c.offset + length bytes;
          max = c.max + length bytes;
          buff = blit c.buff c.max bytes;
        };
      })
    ]

-- No more characters are available in the buffer.
unfoldable pub scan_fill : (ℕ → Io ℤ) → ℕ → Io ℤ
unfolding scan_filled
scan_fill again i p =
    let c = scan_shift p.channel in
    let p' = record p { channel = c } in
    elim (leb (length c.buff) c.max) [
      | true ↦ (done (minus (c.max - c.curr)), p')
      | false ↦
          follow (syscall (do_read c.fd (length c.buff - c.max) p.system) p')
            (scan_filled again (i - p.channel.curr))
    ]

unfoldable pub scan_loop : ℕ → ℕ → Io ℤ
unfolding scan_fill
scan_loop zero i p = (out_of_fuel, p)
scan_loop (suc fuel) i p = elim (leb p.channel.max i) [
  | true ↦ scan_fill (scan_loop fuel) i p
  | false ↦ scan_byte (scan_loop fuel) i p
]

-- Each round passes a byte of the buffer.
unfoldable pub input_scan_line : Io ℤ
unfolding scan_loop
input_scan_line p = scan_loop (suc (length p.channel.buff)) p.channel.curr p

unfoldable pub pos_in : Channel → ℕ
pos_in c = c.offset - (c.max - c.curr)

unfoldable pub seek_in : ℕ → Io (Unit {0})
seek_in dest p =
    let c = p.channel in
    if leb (c.offset - c.max) dest && leb dest c.offset
    then (done tt, record p { channel = record c { curr = c.max - (c.offset - dest) } })
    else follow (syscall (do_lseek c.fd dest p.system) p) (λ _ p'.
      (done tt, record p' { channel = record p'.channel { offset = dest; curr = 0; max = 0 } }))

-- It leaves the descriptor where the channel has it.
unfoldable pub channel_size : Io ℕ
channel_size p = follow (syscall (do_lseek_end p.channel.fd p.system) p) (λ end p'.
    follow (syscall (do_lseek p'.channel.fd p'.channel.offset p'.system) p')
      (λ _ p''. (done end, p'')))

-- Its code is that of caml_getblock, into a string.
unfoldable pub ml_input : List ℕ → ℕ → ℕ → Io (ℕ × List ℕ)
ml_input string start len p =
    follow (getblock len p) (λ block p'. (done (length block, blit string start block), p'))

-- Sign extension of the 32 bits.
unfoldable pub ml_input_int : Io ℤ
ml_input_int p =
    follow (getword p)
      (λ w p'. (done (if ltb w (2 ^ 31) then pos w else negsuc (2 ^ 32 - 1 - w)), p'))
