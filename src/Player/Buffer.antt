-- ===== src/Player/Buffer.antt =====
-- `abuf_t`, the part of `rtsp_conn_info` that the packet buffer uses, and the small functions on it
-- (src/player.h, src/player.c). Flags are Booleans; a time or a timestamp is a number.
use shairport_sync_for_openw.Prelude.{
  ◌^◌, ℕ, ◌-◌, ◌%◌, Bool, true, false, ◌&&◌, List, ltb, ◌==◌, if◌then◌else◌, u16, sub16, sub32,
}
use shairport_sync_for_openw.Prelude.Int.{ℤ, negsuc, signed32}

abbrev pub buffer_frames : ℕ
buffer_frames = 1024

-- `status` is a bit set: 0 missing, 1 bad, 2 too late, 3 too early, 4 too soon.
pub record Slot : Type 0 where
  pub ready : Bool
  pub status : ℕ
  pub resend_request_number : ℕ
  pub samples : List ℕ
  pub sequence_number : ℕ
  pub initialisation_time : ℕ
  pub resend_time : ℕ
  pub given_timestamp : ℕ
  pub length : ℕ

-- `first_packet_timestamp` is an `int64_t` that only ever holds a `uint32_t`.
pub record Conn : Type 0 where
  pub audio_buffer : ℕ → Slot
  pub ab_read : ℕ
  pub ab_write : ℕ
  pub ab_synced : Bool
  pub ab_buffering : Bool
  pub last_seqno_read : ℤ
  pub packet_count : ℕ
  pub packet_count_since_flush : ℕ
  pub play_number_after_flush : ℕ
  pub time_of_last_audio_packet : ℕ
  pub connection_state_to_output : Bool
  pub first_packet_timestamp : ℕ
  pub first_packet_time_to_play : ℕ
  pub time_since_play_started : ℤ
  pub flush_requested : Bool
  pub flush_rtp_timestamp : ℕ
  pub flush_output_flushed : Bool
  pub input_frame_rate_starting_point_is_valid : Bool
  pub initial_reference_time : ℕ
  pub initial_reference_timestamp : ℕ
  pub measurement_start_time : ℕ
  pub frames_received_at_measurement_start : ℕ
  pub measurement_time : ℕ
  pub frames_received_at_measurement : ℕ
  pub missing_packets : ℕ
  pub late_packets : ℕ
  pub too_late_packets : ℕ
  pub resend_requests : ℕ

-- `BUFIDX`.
abbrev pub bufidx : ℕ → ℕ
bufidx seqno = u16 seqno % buffer_frames

-- Strictly after, around the circle of 16-bit numbers.
abbrev pub is_after : ℕ → ℕ → Bool
is_after a b = let d = sub16 b a in ltb 0 d && ltb d (2 ^ 15)

unfoldable pub modulo_32_offset : ℕ → ℕ → ℤ
modulo_32_offset from to = signed32 (sub32 to from)

resync_slot : Slot → Slot
resync_slot s = record s {
  ready = false;
  resend_request_number = 0;
  resend_time = 0;
  initialisation_time = 0;
  sequence_number = 0;
}

unfoldable pub ab_resync : Conn → Conn
unfolding resync_slot
ab_resync c = record c {
  audio_buffer =
      λ i. if ltb i buffer_frames then resync_slot (c.audio_buffer i) else c.audio_buffer i;
  ab_synced = false;
  last_seqno_read = negsuc 0;
  ab_buffering = true;
}

unfoldable pub reset_input_flow_metrics : Conn → Conn
reset_input_flow_metrics c = record c {
  play_number_after_flush = 0;
  packet_count_since_flush = 0;
  input_frame_rate_starting_point_is_valid = false;
  initial_reference_time = 0;
  initial_reference_timestamp = 0;
}

unfoldable pub do_flush : ℕ → Conn → Conn
do_flush timestamp c =
    reset_input_flow_metrics (record c { flush_requested = true; flush_rtp_timestamp = timestamp })

-- `player_flush`, with the text of the metadata message that it sends, if it sends one.
unfoldable pub player_flush : ℕ → Conn → Conn × Bool
player_flush timestamp c =
    let c' = do_flush timestamp c in (c', if c'.first_packet_timestamp == 0 then false else true)

-- `get_audio_buffer_size_and_occupancy`: the occupancy is stored through an `unsigned int`.
unfoldable pub occupancy : Conn → ℕ
occupancy c =
    if c.ab_synced
    then (let d = sub16 c.ab_write c.ab_read in if ltb d (2 ^ 15) then d else 2 ^ 32 - (2 ^ 16 - d))
    else 0
