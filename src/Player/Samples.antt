-- ===== src/Player/Samples.antt =====
-- Packets, buffers and settings that the tests share.
use shairport_sync_for_openw.Prelude.{
  ℕ, ◌+◌, ◌*◌, ◌/◌, true, false, [], ◌∷◌, ltb, ◌&&◌, if◌then◌else◌, u32,
}
use shairport_sync_for_openw.Prelude.Int.{pos, negsuc}
use shairport_sync_for_openw.Player.Buffer.{Slot, Conn}
use shairport_sync_for_openw.Player.Decode.{uncompressed}
use shairport_sync_for_openw.Player.PutPacket.{Packet, Settings}
use shairport_sync_for_openw.Player.GetFrame.Clock.{Clock}

-- The slot of a packet that is missing.
abbrev pub no_packet : Slot
no_packet = record {
  ready = false;
  status = 1;
  resend_request_number = 0;
  samples = [];
  sequence_number = 0;
  initialisation_time = 1000;
  resend_time = 0;
  given_timestamp = 0;
  length = 0;
}

-- The packet `i`, of two frames of one byte, the first with the timestamp 100 + 2 * i.
abbrev pub packet_at : ℕ → Slot
packet_at i = record no_packet {
  ready = true;
  status = 0;
  samples = i ∷ (i + 50) ∷ [];
  sequence_number = i;
  given_timestamp = 100 + 2 * i;
  length = 2;
}

-- The packets 5 to 7.
abbrev pub slots_5_to_7 : ℕ → Slot
slots_5_to_7 i = if ltb 4 i && ltb i 8 then packet_at i else no_packet

abbrev pub playing : Conn
playing = record {
  audio_buffer = slots_5_to_7;
  ab_read = 5;
  ab_write = 8;
  ab_synced = true;
  ab_buffering = false;
  last_seqno_read = negsuc 0;
  packet_count = 3;
  packet_count_since_flush = 3;
  play_number_after_flush = 0;
  time_of_last_audio_packet = 1000;
  connection_state_to_output = true;
  first_packet_timestamp = 110;
  first_packet_time_to_play = 5000;
  time_since_play_started = pos 0;
  flush_requested = false;
  flush_rtp_timestamp = 0;
  flush_output_flushed = false;
  input_frame_rate_starting_point_is_valid = false;
  initial_reference_time = 0;
  initial_reference_timestamp = 0;
  measurement_start_time = 0;
  frames_received_at_measurement_start = 0;
  measurement_time = 0;
  frames_received_at_measurement = 0;
  missing_packets = 0;
  late_packets = 0;
  too_late_packets = 0;
  resend_requests = 0;
}

abbrev pub wrapped : Conn
wrapped = record playing { ab_read = 65534; ab_write = 1 }

-- A frame lasts ten nanoseconds.
abbrev pub clock : Clock
clock = record {
  have_timing = true;
  frame_to_local_time = λ f. f * 10;
  local_time_to_frame = λ t. u32 (t / 10);
}

-- `decrypt` and `alac` stand for functions that are called, here ones that change nothing.
abbrev pub settings : Settings
settings = record {
  stream = record { kind = uncompressed; encrypted = false; decrypt = λ b. b; alac = λ b. (b, 0) };
  max_frames_per_packet = 352;
  input_bytes_per_frame = 4;
  limits = record {
    minimum_wait_time = 100;
    resend_repeat_interval = 250;
    minimum_remaining_time = 100;
    latency = 2;
    input_rate = 44100;
    disable_resend_requests = false;
  };
}

abbrev pub packet : ℕ → Packet
packet n = record {
  time_now = 2000;
  original_format = true;
  seqno = n;
  actual_timestamp = 100 + 2 * n;
  payload = 1 ∷ 2 ∷ 3 ∷ 4 ∷ [];
  len = 4;
}
