-- ===== src/Rtp/TcpBuffer.antt =====
-- `buffered_read`, `buffered_tcp_reader` and `lread_sized_block` of src/rtp.c: one thread fills a
-- ring of bytes from a socket, another takes bytes out. Pointers into the ring are offsets.
pub mod Laws
pub mod Threads
pub mod ReadBlock
mod Tests
use shairport_sync_for_openw.Prelude.{
  ℕ, zero, suc, ◌+◌, ◌-◌, Bool, true, false, ◌||◌, ◌&&◌, not, Option, none, some, List, [], ◌∷◌,
  ◌++◌, ltb, ◌==◌, if◌then◌else◌, length,
}
use shairport_sync_for_openw.Window.{store, slice}

-- `buffered_tcp_desc`, less its socket, mutex and condition variables.
pub record TcpBuffer : Type 0 where
  pub buffer : ℕ → ℕ
  pub buffer_max_size : ℕ
  pub toq : ℕ
  pub eoq : ℕ
  pub buffer_occupancy : ℕ
  pub error_code : ℕ
  pub closed : Bool

-- What a call of `buffered_read` comes to: it waits, moves bytes out and says how many remain,
-- returns -1 with an `errno`, or returns 0 at the end of the stream.
pub data Read : Type 0 where
  waits : Read
  moved : List ℕ → ℕ → TcpBuffer → Read
  failed : ℕ → Read
  end_of_stream : Read

abbrev pub smaller : ℕ → ℕ → ℕ
smaller a b = if ltb b a then b else a

-- The bytes that one call moves: no more than asked for, than there are, or than lie before the
-- top of the ring.
pub bytes_to_move : TcpBuffer → ℕ → ℕ
bytes_to_move d count = smaller (smaller count d.buffer_occupancy) (d.buffer_max_size - d.toq)

pub take_out : TcpBuffer → ℕ → TcpBuffer
take_out d n =
    let toq' = d.toq + n in
    record d {
      toq = if toq' == d.buffer_max_size then 0 else toq';
      buffer_occupancy = d.buffer_occupancy - n;
    }

pub buffered_read : TcpBuffer → ℕ → Read
buffered_read d count =
    if not (d.buffer_occupancy == 0)
    then (let n = bytes_to_move d count in
        moved (slice d.buffer d.toq n) (d.buffer_occupancy - n) (take_out d n))
    else if not (d.error_code == 0)
    then failed d.error_code
    else if d.closed
    then end_of_stream
    else waits

abbrev pub standard_packet_size : ℕ
standard_packet_size = 4096

-- The reader waits in these states.
pub reader_waits : TcpBuffer → Bool
reader_waits d = (d.buffer_occupancy == d.buffer_max_size) || (not (d.error_code == 0) || d.closed)

abbrev wrap_eoq : TcpBuffer → TcpBuffer
wrap_eoq d = record d { eoq = if d.eoq == d.buffer_max_size then 0 else d.eoq }

-- Up to the `recv`: the buffer with its write pointer wrapped, and the number of bytes to request.
pub request : TcpBuffer → Option (TcpBuffer × ℕ)
request d =
    if reader_waits d
    then none
    else (let d' = wrap_eoq d in
        some (
          d',
          smaller (smaller standard_packet_size (d.buffer_max_size - d.buffer_occupancy))
              (d.buffer_max_size - d'.eoq),
        ))

-- What `recv` gives: an `errno`, or bytes, none at the end of the stream.
pub data Recv : Type 0 where
  error : ℕ → Recv
  bytes : List ℕ → Recv

-- After the `recv`, which has stored its bytes at the write pointer.
pub received : TcpBuffer → Recv → TcpBuffer
received d (error errno) = record d { error_code = errno }
received d (bytes []) = record d { closed = true }
received d (bytes (x ∷ xs)) = record d {
  buffer = store d.buffer d.eoq (x ∷ xs);
  eoq = d.eoq + length (x ∷ xs);
  buffer_occupancy = d.buffer_occupancy + length (x ∷ xs);
}

-- What a call of `lread_sized_block` comes to: the bytes of the block with the buffer after it, or
-- the return value of the last `buffered_read`. `waits_with` holds what it has when it waits.
pub data Block : Type 0 where
  full : List ℕ → TcpBuffer → Block
  waits_with : List ℕ → TcpBuffer → Block
  error_after : ℕ → TcpBuffer → Block
  ended : TcpBuffer → Block

-- The values of `errno` on Linux.
abbrev pub eintr : ℕ
eintr = 4

abbrev pub eagain : ℕ
eagain = 11

abbrev pub econnreset : ℕ
econnreset = 104

abbrev pub is_transient : ℕ → Bool
is_transient errno = errno == econnreset || (errno == eagain || errno == eintr)

-- The loop of `lread_sized_block` with `inbuf` read so far, on fuel.
pub read_block : ℕ → TcpBuffer → ℕ → List ℕ → Option Block
read_block zero d count inbuf = none
read_block (suc fuel) d count inbuf = elim (buffered_read d (count - length inbuf)) [
  | waits ↦ some (waits_with inbuf d)
  | moved [] r d' ↦ some (ended d')
  | moved (x ∷ xs) r d' ↦
      let rest = read_block fuel d' count (inbuf ++ x ∷ xs) in
      if ltb (length (inbuf ++ x ∷ xs)) count then rest else some (full (inbuf ++ x ∷ xs) d')
  | failed errno ↦
      let rest = read_block fuel d count inbuf in
      if is_transient errno && ltb (length inbuf) count then rest else some (error_after errno d)
  | end_of_stream ↦ some (ended d)
]

pub lread_sized_block : ℕ → TcpBuffer → ℕ → Option Block
lread_sized_block fuel d count = read_block fuel d count []
