-- ===== src/Io/Channel.antt =====
-- `struct channel`, and the system calls on its descriptor.
use ocaml_pro_ocaml_branch.Base.{
  ℕ, suc, ◌+◌, min, Bool, List, [], ◌∷◌, ◌++◌, length, take, drop, ltb, false, not, ◌==◌,
  if◌then◌else◌,
}
use ocaml_pro_ocaml_branch.Base.Int.{ℤ, pos, negsuc}

-- `buff` is the whole array, so `end` is its length; `curr` and `max` are distances from its start.
-- `fd` is -1 in a closed channel.
pub record Channel : Type 0 where
  pub fd : ℤ
  pub offset : ℕ
  pub curr : ℕ
  pub max : ℕ
  pub buff : List ℕ

-- `channel->fd == -1`
abbrev no_descriptor : ℤ → Bool
no_descriptor (pos fd) = false
no_descriptor (negsuc n) = n == 0

abbrev pub is_closed : Channel → Bool
is_closed c = no_descriptor c.fd

-- What the kernel does at a call of read or write: it transfers one byte more than the number, or
-- fewer where it is asked for fewer or has fewer, or fails with EINTR, with EAGAIN, or otherwise.
pub data Event : Type 0 where
  transferred : ℕ → Event
  interrupted : Event
  would_block : Event
  failed : Event

-- The calls to come; what was written to the descriptor; the file that is read, and the place in it;
-- whether lseek and close of an open descriptor succeed.
pub record System : Type 0 where
  pub events : List Event
  pub sent : List ℕ
  pub file : List ℕ
  pub position : ℕ
  pub seekable : Bool
  pub closable : Bool

pub data Exception : Type 0 where
  sys_error : Exception
  sys_blocked_io : Exception
  end_of_file : Exception

-- A function returns or raises; `waiting` is a system call that has not returned, and `out_of_fuel`
-- a loop that the model has cut.
pub data Reply (A : Type 0) : Type 0 where
  done : A → Reply A
  raise : Exception → Reply A
  waiting : Reply A
  out_of_fuel : Reply A

pub record Port : Type 0 where
  pub channel : Channel
  pub system : System

abbrev pub Io : Type 0 → Type 0
Io A = Port → Reply A × Port

-- The rest of a function, where the call before it returns.
abbrev pub follow : {A B : Type 0} → Reply A × Port → (A → Io B) → Reply B × Port
follow (done a, p) k = k a p
follow (raise e, p) k = (raise e, p)
follow (waiting, p) k = (waiting, p)
follow (out_of_fuel, p) k = (out_of_fuel, p)

infixl 5 ◌>>=◌ ◌>>◌
abbrev pub ◌>>=◌ : {A B : Type 0} → Io A → (A → Io B) → Io B
◌>>=◌ m k p = follow (m p) k

abbrev pub ◌>>◌ : {A : Type 0} → Io (Unit {0}) → Io A → Io A
◌>>◌ m k p = follow (m p) (λ _. k)

-- The loop of do_write on the events: EINTR starts again, and so does EAGAIN with a single byte.
unfoldable pub write_events : List ℕ → List Event → System → Reply ℕ × System
write_events bytes [] s = (waiting, record s { events = [] })
write_events bytes (transferred k ∷ es) s =
    let n = min (suc k) (length bytes) in
    (done n, record s { events = es; sent = s.sent ++ take n bytes })
write_events bytes (interrupted ∷ es) s = write_events bytes es s
write_events bytes (would_block ∷ es) s =
    let again = write_events (take 1 bytes) es s in
    if ltb 1 (length bytes) then again else (raise sys_blocked_io, record s { events = es })
write_events bytes (failed ∷ es) s = (raise sys_error, record s { events = es })

-- A call on a descriptor; read and write fail with EBADF on -1.
unfoldable pub do_write : ℤ → List ℕ → System → Reply ℕ × System
unfolding write_events
do_write (pos fd) bytes s = write_events bytes s.events s
do_write (negsuc n) bytes s = (raise sys_error, s)

-- The loop of caml_do_read for `n` bytes.
unfoldable pub read_events : ℕ → List Event → System → Reply (List ℕ) × System
read_events n [] s = (waiting, record s { events = [] })
read_events n (transferred k ∷ es) s =
    let bytes = take (min (suc k) n) (drop s.position s.file) in
    (done bytes, record s { events = es; position = s.position + length bytes })
read_events n (interrupted ∷ es) s = read_events n es s
read_events n (would_block ∷ es) s = (raise sys_blocked_io, record s { events = es })
read_events n (failed ∷ es) s = (raise sys_error, record s { events = es })

unfoldable pub do_read : ℤ → ℕ → System → Reply (List ℕ) × System
unfolding read_events
do_read (pos fd) n s = read_events n s.events s
do_read (negsuc m) n s = (raise sys_error, s)

-- The port after a system call.
abbrev pub syscall : {A : Type 0} → Reply A × System → Port → Reply A × Port
syscall (r, s) p = (r, record p { system = s })

-- lseek(fd, dest, SEEK_SET), and sys_error where it fails.
unfoldable pub do_lseek : ℤ → ℕ → System → Reply (Unit {0}) × System
do_lseek (pos fd) dest s =
    if s.seekable then (done tt, record s { position = dest }) else (raise sys_error, s)
do_lseek (negsuc n) dest s = (raise sys_error, s)

-- lseek(fd, 0, SEEK_END)
unfoldable pub do_lseek_end : ℤ → System → Reply ℕ × System
do_lseek_end (pos fd) s =
    if s.seekable
    then (done (length s.file), record s { position = length s.file })
    else (raise sys_error, s)
do_lseek_end (negsuc n) s = (raise sys_error, s)

-- The channel on a descriptor that can seek; `buff` is what malloc returned.
unfoldable pub open_descriptor_in : ℕ → List ℕ → System → Port
open_descriptor_in fd buff s = record {
  channel = record { fd = pos fd; offset = s.position; curr = 0; max = 0; buff = buff };
  system = s;
}

-- `offset` is kept where it was.
unfoldable pub close_channel : Io (Unit {0})
close_channel p =
    let c = p.channel in
    let c' = record c { fd = negsuc 0; curr = length c.buff; max = length c.buff } in
    let fails = if is_closed c then false else not p.system.closable in
    (if fails then raise sys_error else done tt, record p { channel = c' })
