-- ===== src/Rtp/FlushMode.antt =====
-- Flushes of buffered audio: `handle_flushbuffered` of src/rtsp.c, which makes a request, and the part
-- of the loop of `rtp_buffered_audio_processor` of src/rtp.c that acts on it under the mutex. What the
-- property list of a request says is a record of its items.
pub mod Window
mod Tests
use shairport_sync_for_openw.Prelude.{
  ℕ, ◌+◌, Bool, true, false, ◌&&◌, ◌||◌, not, Option, none, some, List, [], ◌∷◌, ltb, leb, ◌==◌,
  if◌then◌else◌, u32, sub32,
}
use shairport_sync_for_openw.Prelude.Int.{pos, leb_ℤ, signed32}

-- The part of the connection that the mutex guards.
pub record FlushConn : Type 0 where
  pub ap2_flush_requested : Bool
  pub ap2_flush_from_valid : Bool
  pub ap2_flush_from_rtp_timestamp : ℕ
  pub ap2_flush_from_sequence_number : ℕ
  pub ap2_flush_until_rtp_timestamp : ℕ
  pub ap2_flush_until_sequence_number : ℕ
  pub ap2_play_enabled : Bool

pub record FlushItems : Type 0 where
  pub flush_from_seq : Option ℕ
  pub flush_from_ts : Option ℕ
  pub flush_until_seq : Option ℕ
  pub flush_until_ts : Option ℕ

-- An item that is stored in 32 bits, and 0 if it is missing.
pub value_of : Option ℕ → ℕ
value_of none = 0
value_of (some n) = u32 n

pub is_given : Option ℕ → Bool
is_given none = false
is_given (some n) = true

-- A deferred request that follows a deferred one keeps where that one starts.
pub add_request : FlushItems → FlushConn → FlushConn
add_request m c =
    let from_valid = is_given m.flush_from_seq in
    let keeps = c.ap2_flush_requested && (c.ap2_flush_from_valid && from_valid) in
    record {
      ap2_flush_requested = true;
      ap2_flush_from_valid = from_valid;
      ap2_flush_from_rtp_timestamp =
          if keeps then c.ap2_flush_from_rtp_timestamp else value_of m.flush_from_ts;
      ap2_flush_from_sequence_number =
          if keeps then c.ap2_flush_from_sequence_number else value_of m.flush_from_seq;
      ap2_flush_until_rtp_timestamp = value_of m.flush_until_ts;
      ap2_flush_until_sequence_number = value_of m.flush_until_seq;
      ap2_play_enabled = if from_valid then c.ap2_play_enabled else false;
    }

-- The response is always 200.
pub handle_flushbuffered : Option FlushItems → FlushConn → FlushConn
handle_flushbuffered none c = c
handle_flushbuffered (some m) c = add_request m c

-- The variables of the loop that this part of it uses.
pub record Loop : Type 0 where
  pub flush_requested : Bool
  pub play_enabled : Bool
  pub flush_from_timestamp : ℕ
  pub blocks_read_in_sequence : ℕ
  pub packets_played_in_this_sequence : ℕ
  pub pcm_buffer_occupancy : ℕ
  pub pcm_buffer_read_point : ℕ
  pub pcm_buffer_read_point_rtptime_offset : ℕ

-- Whether the block `seq_no` is at or after the start of the flush.
pub has_started : FlushConn → ℕ → Bool
has_started c seq_no =
    not c.ap2_flush_from_valid
    || leb_ℤ (signed32 (sub32 c.ap2_flush_from_sequence_number seq_no)) (pos 0)

-- Whether the last block to flush has been read.
pub has_ended : FlushConn → ℕ → ℕ → Bool
has_ended c blocks_read seq_no =
    not (blocks_read == 0) && leb c.ap2_flush_until_sequence_number seq_no

abbrev pub empty_pcm : Loop → Loop
empty_pcm v = record v {
  packets_played_in_this_sequence = 0;
  pcm_buffer_occupancy = 0;
  pcm_buffer_read_point = 0;
  pcm_buffer_read_point_rtptime_offset = 0;
}

-- One round. The last part is how often `reset_buffer` is called.
pub flush_round : ℕ → ℕ → FlushConn → Loop → FlushConn × Loop × ℕ
flush_round blocks_read seq_no c v =
    let started = c.ap2_flush_requested && has_started c seq_no in
    let ended = started && has_ended c blocks_read seq_no in
    let active = started && not ended in
    let newly_requested = active && not v.flush_requested in
    let newly_stopped = v.play_enabled && not c.ap2_play_enabled in
    let newly_complete = v.flush_requested && not active in
    let v1 = if newly_stopped then record (empty_pcm v) { blocks_read_in_sequence = 0 } else v in
    let v2 = if newly_complete then record v1 { blocks_read_in_sequence = 1 } else v1 in
    let v3 = record v2 {
      flush_requested = active;
      play_enabled = c.ap2_play_enabled;
      flush_from_timestamp =
          if c.ap2_flush_requested && c.ap2_flush_from_valid
          then c.ap2_flush_from_rtp_timestamp
          else v.flush_from_timestamp;
    } in
    let resets =
      if newly_stopped
      then (if newly_requested then 2 else 1)
      else if newly_requested
      then 1
      else 0 in
    (
      if ended then record c { ap2_flush_requested = false } else c,
      if newly_requested then empty_pcm v3 else v3,
      resets,
    )

-- For each block that is read, whether it falls into a flush. The first is the block `blocks_read`.
pub flush_rounds : ℕ → List ℕ → FlushConn → Loop → List Bool
flush_rounds blocks_read [] c v = []
flush_rounds blocks_read (seq_no ∷ ns) c v =
    let (c', v', resets) = flush_round blocks_read seq_no c v in
    v'.flush_requested ∷ flush_rounds (blocks_read + 1) ns c' v'
