-- ===== src/Lib.antt =====
-- The C run-time system and the C libraries of Objective Caml (inline-more/byterun and
-- inline-more/otherlibs), modelled component by component.
--
-- Base: the library's names, Boolean tests, lists and signed integers over the native numbers
--   (Base/Tests, Base/Lists, Base/Int), the bitwise operators of C as arithmetic (Base/Bits),
--   buffers of bytes (Base/Buffers), and shifts of words by a variable number of bits (Base/Shifts).
-- Int64: inline-more/byterun/int64_emul.h, 64-bit integers made of two 32-bit words. One function
--   for each I64_ function or macro, under its name without the prefix (quotient and remainder for
--   I64_div and I64_mod). A word is a number below 2 ^ 32 and every assignment is reduced modulo 2 ^
--   32. The two loops of I64_udivmod are `scale` and `subtract`; each has 65 rounds of fuel, and
--   each needs at most 64 rounds and a last test, so `none` is never the result unless the divisor
--   is zero, where the code would not end. The conversions from and to `double` are not modelled.
-- Bng: inline-more/otherlibs/num/bng.c and bng_digit.c, natural numbers as arrays of digits, least
--   significant first, in the portable version with 64-bit digits. The functions update an array in
--   place: here they return the carry and the new digits. Bng/Digit has the macros, Bng/AddSub,
--   Bng/Shift, Bng/Mult and Bng/Compare the functions, Bng/Value what an array stands for. The code
--   requires `alen >= blen` of most functions; what the models return otherwise has no meaning. The
--   division of arrays and bng_square_add are not modelled, nor the assembly versions.
-- Ints: inline-more/byterun/ints.c. Ints/Parse has parse_sign_and_base, parse_digit and parse_intnat
--   on a machine with 64-bit words; Ints/Parse/Numeral says what a numeral stands for, by tables of
--   the digits and the prefixes of its own. Ints/Boxed64 has caml_int64_div, caml_int64_mod and
--   caml_int64_of_string as clients of the emulation in Int64, where `diverges` is the result of a
--   loop of I64_udivmod that does not end. A string is the list of its bytes, an exception is the
--   `raise` of Result. The other primitives of the file are not modelled.
-- Lexing: inline-more/byterun/lexing.c, the automaton that runs the tables made by ocamllex. Lexing
--   has caml_lex_engine (`lex_engine`, its loop is `rounds`) and Lexing/NewEngine
--   caml_new_lex_engine. A table is a string, a function from indices to bytes that `short` reads,
--   so no table is assumed well formed, and a read outside it is a byte like another; a position is
--   an untagged number. A round reads a character or the end of the input, which is then erased, so
--   the number of bytes left and two is fuel enough. Lexing/Automaton reads the tables (`entry`,
--   `transition`) and has their automaton by itself, with no buffer; Lexing/Match and Lexing/Maximal
--   are about its last mark, and Lexing/Tokens about the token returned. The programs of
--   caml_new_lex_engine check no bound: a run in which one leaves its string or the memory of
--   positions is `none`; Lexing/Memory has the condition on the tables (`IsWithin`) that rules it
--   out, and Lexing/Forget compares the engines.
-- Interp: inline-more/byterun/interp.c, the bytecode interpreter on a 64-bit machine, with what it
--   uses of mlvalues.h, instruct.h, memory.h and fail.c. Interp/Value has values and the heap,
--   Interp/Machine the registers (`Machine`), Interp/Stack, Calls, Blocks, Control, Integers and
--   Methods the instructions, and Interp/Dispatch the table of the instructions by their number
--   (`jumptable`), one round of the loop (`step`), the loop on fuel (`run`) and the entry
--   (`interprete`). A word is a bit pattern, or the address of a block, a code pointer or a trap
--   frame; a block is its index in the heap, and blocks are neither moved nor freed. What has no
--   defined behaviour in C (a field outside a block, a word of the wrong kind) is `stuck`, or `none`
--   in one instruction. C primitives and caml_process_event are parameters (`Runtime`), which may
--   change the heap, the global data and something_to_do, and raise. EVENT and BREAK, the limit of
--   the stack, backtraces and the order of addresses are not modelled. Interp/Raise is what raising
--   an exception does.
-- Io: inline-more/byterun/io.c and io.h, buffered channels. A function takes a `Port`, the channel
--   with the system that its descriptor belongs to, and returns a `Reply` and the new port; the
--   system has the file that is read, the bytes that were sent, and the list of what the next calls
--   of read(2) and write(2) do: transfer some of the bytes, fail, or be interrupted (`Event`).
--   Io/Channel has these and do_write and caml_do_read, Io/Output the functions of output and
--   Io/Input those of input, with the OCaml entry points that do more than lock and call. `curr`,
--   `max` and the pointers of caml_input_scan_line are distances from the start of the buffer; the
--   buffer has any length, not IO_BUFFER_SIZE only. Reads give no byte at the end of the file only,
--   and a file does not change while it is read. Every loop moves at least a byte in a round, or
--   makes room for one, and has one or two rounds of fuel more than there are bytes for it; no
--   result is `out_of_fuel`. `offset` is a number, so what a descriptor that cannot seek leaves
--   there (-1) is not modelled; nor are locks and the list of open channels.
-- Str: inline-more/byterun/str.c, with caml_alloc_string and caml_copy_string of
--   inline-more/byterun/alloc.c, on a 64-bit machine. A string is the list of the bytes of its
--   block, a word is its eight bytes, and a call of caml_array_bound_error is `none`. What an
--   allocated block holds is an argument, and so is the test that two strings have one address.
--   Str/Encoding says what the block of a string is. caml_create_string, isprint and bit vectors are
--   not modelled.
-- Tests: runs at fixed inputs, and the theorems at concrete inputs.
--
-- Not modelled: the garbage collectors, marshalling, the parser engine, ocamlyacc, regular
-- expressions, threads, and the bindings to system calls.
pub mod Base
pub mod Bng
pub mod Int64
pub mod Interp
pub mod Ints
pub mod Io
pub mod Lexing
pub mod Str
pub mod Tests
