-- ===== src/Player/GetFrame/Flush.antt =====
-- The flush requests in `buffer_get_frame` of src/player.c.
pub mod Trim
pub mod Decide
use shairport_sync_for_openw.Prelude.{
  ℕ, zero, suc, ◌+◌, ◌-◌, ◌*◌, ◌^◌, Bool, true, false, ◌&&◌, ◌||◌, not, Option, none, some, List,
  ◌++◌, ltb, leb, ◌==◌, if◌then◌else◌, u16, u32, sub32, update, take, drop, length,
}
use shairport_sync_for_openw.Prelude.Int.{pos}
use shairport_sync_for_openw.Player.Buffer.{Slot, Conn, bufidx, ab_resync}

-- The request that is made when the connection is no longer to be output.
unfoldable pub output_state : Bool → Conn → Conn
output_state requested c =
    if requested
    then record c { connection_state_to_output = true }
    else if c.connection_state_to_output
    then record c {
      connection_state_to_output = false;
      flush_requested = true;
      flush_rtp_timestamp = 0;
    }
    else c

-- The request that is made when the back end can tell that it is not running, and does.
unfoldable pub backend_state : Option Bool → Conn → Conn
backend_state (some false) c = record c { flush_requested = true; flush_rtp_timestamp = 0 }
backend_state _ c = c

-- The output device is flushed once for a request. The second part says whether it is told to.
unfoldable pub flush_output : Conn → Conn × Bool
flush_output c =
    if c.flush_requested
    then (record c { flush_output_flushed = true }, not c.flush_output_flushed)
    else (c, false)

-- All of these, in their order.
unfoldable pub requests : Option Bool → Bool → Conn → Conn × Bool
requests backend state_to_output c =
    flush_output (backend_state backend (output_state state_to_output c))

-- Signed readings of a difference of two 32-bit numbers.
abbrev pub is_positive : ℕ → Bool
is_positive d = ltb 0 d && ltb d (2 ^ 31)

abbrev pub is_nonnegative : ℕ → Bool
is_nonnegative d = ltb d (2 ^ 31)

-- The timestamp of the last frame of a packet.
abbrev pub last_frame : Slot → ℕ
last_frame s = sub32 (u32 (s.given_timestamp + s.length)) 1

-- The `do` loop that drops all packets that end before the flush frame: where the read pointer comes
-- to rest, on fuel.
pub drop_packets : ℕ → (ℕ → Slot) → ℕ → ℕ → Option ℕ
drop_packets zero slots flush_frame ab_read = none
drop_packets (suc fuel) slots flush_frame ab_read =
    let rest = drop_packets fuel slots flush_frame (u16 (ab_read + 1)) in
    if is_positive (sub32 flush_frame (last_frame (slots (bufidx ab_read))))
    then rest
    else some ab_read

-- Removes the frames before the flush frame from a packet of `bytes_per_frame` bytes for a frame.
pub trim_packet : ℕ → ℕ → Slot → Slot
trim_packet bytes_per_frame flush_frame s =
    let n = sub32 flush_frame s.given_timestamp in
    if is_positive n
    then (let kept =
          take ((s.length - n) * bytes_per_frame) (drop (n * bytes_per_frame) s.samples) in
        record s {
          samples = kept ++ drop (length kept) s.samples;
          given_timestamp = flush_frame;
          length = s.length - n;
        })
    else s

pub record Decision : Type 0 where
  pub conn : Conn
  pub flush_needed : Bool
  pub drop_request : Bool

abbrev decide : Conn → Bool → Bool → Decision
decide c flush drop = record { conn = c; flush_needed = flush; drop_request = drop }

-- Moves the read pointer to a packet, and trims it.
move_to : ℕ → Conn → Option ℕ → Conn
move_to bytes_per_frame c none = c
move_to bytes_per_frame c (some r) = record c {
  ab_read = r;
  audio_buffer =
      update c.audio_buffer (bufidx r)
        (trim_packet bytes_per_frame c.flush_rtp_timestamp (c.audio_buffer (bufidx r)));
}

-- The flush frame lies in the buffer: the read pointer is moved to its packet, which is trimmed.
pub flush_to : ℕ → Conn → Conn
flush_to bytes_per_frame c =
    move_to bytes_per_frame c
      (drop_packets (suc (c.ab_write - c.ab_read)) c.audio_buffer c.flush_rtp_timestamp c.ab_read)

-- The part for a flush frame that is not 0, with packets in the buffer, the first and the last of
-- them ready.
pub flush_within : ℕ → ℕ → ℕ → Conn → Decision
flush_within bytes_per_frame first_frame last c =
    if is_positive (sub32 c.flush_rtp_timestamp first_frame)
    then (if is_nonnegative (sub32 last c.flush_rtp_timestamp)
        then decide (flush_to bytes_per_frame c) false true
        else decide c true (c.flush_rtp_timestamp == u32 (last + 1)))
    else decide c false true

-- What is to be done about a flush request.
unfoldable pub flush_decision : ℕ → Conn → Decision
flush_decision bytes_per_frame c =
    if not c.flush_requested
    then decide c false false
    else if c.flush_rtp_timestamp == 0
    then decide c true true
    else if c.ab_synced && ltb c.ab_read c.ab_write
    then (let first = c.audio_buffer (bufidx c.ab_read) in
        let last = c.audio_buffer (bufidx (c.ab_write - 1)) in
        if first.ready && last.ready
        then flush_within bytes_per_frame first.given_timestamp (last_frame last) c
        else decide c false false)
    else decide (record c { flush_requested = false }) false false

pub flush_buffer : Conn → Conn
flush_buffer c = record (ab_resync c) {
  first_packet_timestamp = 0;
  first_packet_time_to_play = 0;
  time_since_play_started = pos 0;
}

pub clear_request : Conn → Conn
clear_request c = record c {
  flush_requested = false;
  flush_rtp_timestamp = 0;
  flush_output_flushed = false;
}

unfoldable pub apply_decision : Decision → Conn
apply_decision d =
    let c = if d.flush_needed then flush_buffer d.conn else d.conn in
    if d.drop_request then clear_request c else c
