-- ===== src/Rtsp/ReadRequest.antt =====
-- `rtsp_read_request` of src/rtsp.c. What the connection gives is a list; a piece is never longer
-- than the room that is asked for.
pub mod Header
pub mod Content
mod Tests
use shairport_sync_for_openw.Prelude.{
  ℕ, zero, suc, ◌+◌, ◌-◌, ◌*◌, Bool, true, false, ◌&&◌, ◌||◌, not, Option, none, some, List, [],
  ◌∷◌, ◌++◌, ltb, leb, ◌==◌, if◌then◌else◌, length,
}
use shairport_sync_for_openw.Prelude.Int.{ℤ, pos, negsuc}
use shairport_sync_for_openw.Rtsp.Message.{Message, nextline, c_string, msg_handle_line}

-- `enum rtsp_read_request_response`.
pub data Response : Type 0 where
  ok immediate_shutdown_requested bad_packet channel_closed read_error error : Response

-- The lines of a header so far: more is needed, the header is complete with the length of the
-- content and what follows it in the buffer, or there is no message.
pub data Lines : Type 0 where
  wants_more : Option Message → List ℕ → Lines
  complete : Message → ℕ → List ℕ → Lines
  no_message : Lines

after_line : Option Message × ℤ → List ℕ → Option Lines → Option Lines
after_line (none, size) next rest = some no_message
after_line (some m, pos n) next rest = some (complete m n next)
after_line (some m, negsuc k) next rest = rest

-- One round, with the rest of the loop as `go`, for what `nextline` gives.
take_line :
    (Option Message → List ℕ → Option Lines)
    → Option Message
    → List ℕ
    → Option (List ℕ × List ℕ)
    → Option Lines
take_line go m buf none = some (wants_more m buf)
take_line go m buf (some (line, next)) =
    let h = msg_handle_line m (c_string line) in after_line h next (go h.0 next)

-- The loop over the lines in the buffer, on fuel.
pub lines : ℕ → Option Message → List ℕ → Option Lines
lines zero m buf = none
lines (suc fuel) m buf = take_line (lines fuel) m buf (nextline buf)

-- `stop` is seen before a read, and an empty piece is the end of the stream.
pub data Input : Type 0 where
  stop : Input
  piece : List ℕ → Input
  failed : ℕ → Input

abbrev pub eintr : ℕ
eintr = 4

abbrev pub eagain : ℕ
eagain = 11

abbrev pub etimedout : ℕ
etimedout = 110

-- What reading comes to: it waits for the connection, ends with a response and no message, or has
-- the message.
pub data Outcome : Type 0 where
  waits : Outcome
  ended : Response → Outcome
  got : Message → Outcome

-- The second loop, up to `size` bytes of content.
pub read_content : ℕ → Message → List ℕ → List Input → Outcome
read_content size m buf [] =
    if ltb (length buf) size then waits else got (record m { content = buf })
read_content size m buf (i ∷ is) =
    if ltb (length buf) size
    then elim i [
      | stop ↦ ended immediate_shutdown_requested
      | piece [] ↦ ended error
      | piece (x ∷ xs) ↦ read_content size m (buf ++ x ∷ xs) is
      | failed e ↦
          let rest = read_content size m buf is in
          if e == eintr || e == eagain then rest else ended read_error
    ]
    else got (record m { content = buf })

abbrev pub read_lines : Option Message → List ℕ → Option Lines
read_lines m buf = lines (suc (length buf)) m buf

-- What follows the lines in the buffer, with the rest of the first loop as `go`.
after_lines : (Option Message → List ℕ → Outcome) → List Input → Option Lines → Outcome
after_lines go is none = ended error
after_lines go is (some (wants_more m buf)) = go m buf
after_lines go is (some (complete m size buf)) = read_content size m buf is
after_lines go is (some no_message) = ended bad_packet

-- The first loop. With the buffer full, no room is asked for, and the read gives 0.
pub read_header : ℕ → Option Message → List ℕ → List Input → Outcome
read_header buflen m buf [] = waits
read_header buflen m buf (stop ∷ is) = ended immediate_shutdown_requested
read_header buflen m buf (piece [] ∷ is) = ended channel_closed
read_header buflen m buf (piece (x ∷ xs) ∷ is) =
    if leb buflen (length buf)
    then ended channel_closed
    else after_lines (λ m' buf'. read_header buflen m' buf' is) is (read_lines m (buf ++ x ∷ xs))
read_header buflen m buf (failed e ∷ is) =
    let rest = read_header buflen m buf is in
    if leb buflen (length buf)
    then ended channel_closed
    else if e == eintr || e == eagain
    then rest
    else if e == etimedout
    then ended channel_closed
    else ended read_error

pub read_request : ℕ → List Input → Outcome
read_request buflen is = read_header buflen none [] is
