-- ===== src/Tests/Io.antt =====
-- byterun/io.c at fixed inputs, with a buffer of eight bytes.
use ocaml_pro_ocaml_branch.Base.{
  ℕ, ◌%◌, ◌^◌, ◌≡◌, refl, arith, true, false, List, [], ◌∷◌, ◌++◌, length, take, drop, leb,
}
use ocaml_pro_ocaml_branch.Base.Int.{pos, negsuc}
use ocaml_pro_ocaml_branch.Io.Channel.{
  Event, transferred, interrupted, would_block, failed, System, done, raise, Port, sys_blocked_io,
  ◌>>◌, ◌>>=◌, write_events, do_write, read_events, do_read, do_lseek, do_lseek_end,
  open_descriptor_in, close_channel,
}
use ocaml_pro_ocaml_branch.Io.Output.{
  flushed, flush_partial, flush_loop, flush, putch, putword, overflowed, putblock, putblock_loop,
  really_putblock, seek_out, ml_flush, ml_flush_partial, ml_output_char, ml_output_int,
  ml_output_partial, ml_output, pos_out,
}
use ocaml_pro_ocaml_branch.Io.Output.Stream.{accepted, IsOutput}
use ocaml_pro_ocaml_branch.Io.Output.Chars.{Puts}
use ocaml_pro_ocaml_branch.Io.Output.Session.{
  Request, output_char, output_int, output, session, stream_of, session-ml_flush, session-Puts,
}
use ocaml_pro_ocaml_branch.Io.Output.Progress.{flush_returns}
use ocaml_pro_ocaml_branch.Io.Output.Seek.{Seeks, seek_out-Seeks}
use ocaml_pro_ocaml_branch.Io.Input.{
  byte_at, refilled, refill, getch, getword_loop, getword, block_read, getblock, getblock_loop,
  really_getblock, scan_shift, scan_byte, scan_filled, scan_fill, scan_loop, input_scan_line,
  pos_in, seek_in, channel_size, ml_input, ml_input_int,
}
use ocaml_pro_ocaml_branch.Io.Input.Window.{unread, IsInput}
use ocaml_pro_ocaml_branch.Io.Input.Words.{getword-output_int}
use ocaml_pro_ocaml_branch.Io.Input.Lines.{Scans, input_scan_line-Scans}
use ocaml_pro_ocaml_branch.Io.Input.Seek.{really_getblock-seek_in}
use ocaml_pro_ocaml_branch.Io.Input.Closed.{close_channel-seek_in}

abbrev blank : List ℕ
blank = 0 ∷ 0 ∷ 0 ∷ 0 ∷ 0 ∷ 0 ∷ 0 ∷ 0 ∷ []

-- Writes take three bytes, then ten at most, after an interruption.
abbrev some_events : List Event
some_events = transferred 2 ∷ interrupted ∷ transferred 9 ∷ transferred 9 ∷ transferred 9 ∷ []

abbrev letters : List ℕ
letters = 97 ∷ 98 ∷ 99 ∷ 100 ∷ 101 ∷ 102 ∷ []

abbrev out_port : List Event → Port
out_port es = record {
  channel = record { fd = pos 1; offset = 0; curr = 0; max = 0; buff = blank };
  system = record {
    events = es;
    sent = [];
    file = [];
    position = 0;
    seekable = true;
    closable = true;
  };
}

out_port-IsOutput : IsOutput (out_port some_events).channel
out_port-IsOutput = record { within = omega arith; nonempty = omega arith }

-- A word, a character that is reduced to eight bits, and five bytes of a string.
abbrev requests : List Request
requests = output_int 66051 ∷ output_char 266 ∷ output letters 1 4 ∷ []

abbrev written_bytes : List ℕ
written_bytes = 0 ∷ 1 ∷ 2 ∷ 3 ∷ 10 ∷ 98 ∷ 99 ∷ 100 ∷ 101 ∷ []

run_returns : ((session requests >> ml_flush) (out_port some_events)).0 ≡ done tt
unfolding session ml_flush ml_output_char ml_output_int ml_output putch putword putblock
    putblock_loop really_putblock overflowed flush flush_loop flush_partial flushed do_write
    write_events
run_returns = refl

run_sends : ((session requests >> ml_flush) (out_port some_events)).1.system.sent ≡ written_bytes
unfolding session ml_flush ml_output_char ml_output_int ml_output putch putword putblock
    putblock_loop really_putblock overflowed flush flush_loop flush_partial flushed do_write
    write_events
run_sends = refl

-- A write that fails, and the bytes that wait.
run_fails : (session requests (out_port (transferred 2 ∷ failed ∷ []))).0 ≡ done tt
unfolding session ml_output_char ml_output_int ml_output putch putword putblock putblock_loop
    really_putblock overflowed flush_partial flushed do_write write_events
run_fails = refl

-- EAGAIN starts again with one byte, then raises.
blocked :
    (do_write (pos 1) letters (out_port (would_block ∷ would_block ∷ [])).system).0
    ≡ raise sys_blocked_io
unfolding do_write write_events
blocked = refl

partial_round : (ml_flush_partial (session requests (out_port some_events)).1).0 ≡ done true
unfolding ml_flush_partial session ml_output_char ml_output_int ml_output putch putword putblock
    putblock_loop really_putblock overflowed flush_partial flushed do_write write_events
partial_round = refl

partial_block : (ml_output_partial letters 0 6 (out_port some_events)).0 ≡ done 6
unfolding ml_output_partial putblock
partial_block = refl

position_after : pos_out (session requests (out_port some_events)).1.channel ≡ 9
unfolding pos_out session ml_output_char ml_output_int ml_output putch putword putblock
    putblock_loop really_putblock overflowed flush_partial flushed do_write write_events
position_after = refl

session-ml_flush_example :
    ((session requests >> ml_flush) (out_port some_events)).1.system.sent
    ≡ accepted (out_port some_events) ++ stream_of requests
session-ml_flush_example =
    session-ml_flush requests (out_port some_events) 1 out_port-IsOutput refl run_returns

session-Puts_example :
    Puts (out_port some_events) (stream_of requests) (session requests (out_port some_events))
session-Puts_example = session-Puts requests (out_port some_events) out_port-IsOutput

abbrev full_port : Port
full_port = record (out_port (transferred 0 ∷ interrupted ∷ transferred 0 ∷ transferred 9 ∷ [])) {
  channel = record (out_port []).channel { curr = 3 };
}

flush_returns_example : (flush full_port).0 ≡ done tt
flush_returns_example =
    flush_returns full_port 1 (record { within = omega arith; nonempty = omega arith }) refl refl

seek_returns : (seek_out 100 full_port).0 ≡ done tt
unfolding seek_out flush flush_loop flush_partial flushed do_write write_events do_lseek
seek_returns = refl

seek_out-Seeks_example : Seeks full_port 100 (seek_out 100 full_port)
seek_out-Seeks_example =
    seek_out-Seeks full_port 100 (record { within = omega arith; nonempty = omega arith })
      seek_returns

-- Reads from a file.
abbrev in_system : List ℕ → List Event → System
in_system file es = record {
  events = es;
  sent = [];
  file = file;
  position = 0;
  seekable = true;
  closable = true;
}

abbrev in_port : List ℕ → List Event → Port
in_port file es = record {
  channel = record { fd = pos 0; offset = 0; curr = 0; max = 0; buff = blank };
  system = in_system file es;
}

in_port-IsInput : (file : List ℕ) (es : List Event) → IsInput (in_port file es)
in_port-IsInput file es = record {
  within = omega arith;
  bounded = omega arith;
  nonempty = omega arith;
  in_step = refl;
  reach = omega arith;
  window = refl;
}

opens : open_descriptor_in 0 blank (in_system letters some_events) ≡ in_port letters some_events
unfolding open_descriptor_in
opens = refl

read_word : (getword (in_port written_bytes some_events)).0 ≡ done 66051
unfolding getword getword_loop getch refill refilled do_read read_events
read_word = refl

read_signed : (ml_input_int (in_port (255 ∷ 255 ∷ 255 ∷ 254 ∷ []) some_events)).0 ≡ done (negsuc 1)
unfolding ml_input_int getword getword_loop getch refill refilled do_read read_events
read_signed = refl

read_string :
    (ml_input blank 2 9 (in_port letters some_events)).0
    ≡ done (3, 0 ∷ 0 ∷ 97 ∷ 98 ∷ 99 ∷ 0 ∷ 0 ∷ 0 ∷ [])
unfolding ml_input getblock block_read do_read read_events
read_string = refl

file_size : (channel_size (in_port letters [])).0 ≡ done 6
unfolding channel_size do_lseek_end do_lseek
file_size = refl

same_file :
    unread (in_port written_bytes some_events)
    ≡ ((session requests >> ml_flush) (out_port some_events)).1.system.sent
unfolding pos_in session ml_flush ml_output_char ml_output_int ml_output putch putword putblock
    putblock_loop really_putblock overflowed flush flush_loop flush_partial flushed do_write
    write_events
same_file = refl

getword-output_int_example :
    (66051 ≡ 66051 % 2 ^ 32)
    × (unread (getword (in_port written_bytes some_events)).1
        ≡ stream_of (output_char 266 ∷ output letters 1 4 ∷ []))
getword-output_int_example =
    getword-output_int 66051 (output_char 266 ∷ output letters 1 4 ∷ []) (out_port some_events)
      (in_port written_bytes some_events) 1 66051 out_port-IsOutput refl refl run_returns
      (in_port-IsInput written_bytes some_events) same_file read_word

-- A seek that leaves the buffer, and a block that ends at the end of the file.
read_after_seek :
    ((seek_in 2 >>= (λ _. really_getblock 7))
      (in_port letters (transferred 2 ∷ interrupted ∷ transferred 9 ∷ transferred 9 ∷ []))).0
    ≡ done (99 ∷ 100 ∷ 101 ∷ 102 ∷ [], false)
unfolding seek_in do_lseek really_getblock getblock_loop getblock block_read do_read read_events
read_after_seek = refl

really_getblock-seek_in_example :
    (99 ∷ 100 ∷ 101 ∷ 102 ∷ [] ≡ take 7 (drop 2 letters))
    × (false ≡ leb 7 (length (drop 2 letters)))
really_getblock-seek_in_example =
    really_getblock-seek_in
      (in_port letters (transferred 2 ∷ interrupted ∷ transferred 9 ∷ transferred 9 ∷ [])) 2 7
      (99 ∷ 100 ∷ 101 ∷ 102 ∷ [], false)
      (in_port-IsInput letters (transferred 2 ∷ interrupted ∷ transferred 9 ∷ transferred 9 ∷ []))
      read_after_seek

-- The line ends with the fifth byte.
scanned : (input_scan_line (in_port written_bytes some_events)).0 ≡ done (pos 5)
unfolding input_scan_line scan_loop scan_fill scan_filled scan_byte scan_shift do_read read_events
scanned = refl

not_ended : (input_scan_line (in_port letters some_events)).0 ≡ done (negsuc 5)
unfolding input_scan_line scan_loop scan_fill scan_filled scan_byte scan_shift do_read read_events
not_ended = refl

input_scan_line-Scans_example :
    Scans (in_port written_bytes some_events) (input_scan_line (in_port written_bytes some_events))
input_scan_line-Scans_example =
    input_scan_line-Scans (in_port written_bytes some_events)
      (in_port-IsInput written_bytes some_events)

-- A channel that read the letters was closed.
abbrev read_port : Port
read_port = record (in_port letters []) {
  channel = record {
    fd = pos 0;
    offset = 6;
    curr = 6;
    max = 6;
    buff = 97 ∷ 98 ∷ 99 ∷ 100 ∷ 101 ∷ 102 ∷ 103 ∷ 104 ∷ [];
  };
}

stale : ((seek_in 4 >>= (λ _. getch)) (close_channel read_port).1).0 ≡ done 103
unfolding close_channel seek_in getch
stale = refl

close_channel-seek_in_example :
    let out = (seek_in 4 >>= (λ _. getch)) (close_channel read_port).1 in
    (out.0 ≡ done (byte_at read_port.channel.buff 6)) × (out.1.system ≡ read_port.system)
close_channel-seek_in_example = close_channel-seek_in read_port 4 (omega arith) (omega arith)
