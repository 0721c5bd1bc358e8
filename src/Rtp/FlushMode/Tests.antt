-- ===== src/Rtp/FlushMode/Tests.antt =====
-- The theorem on flushes of buffered audio of src/rtp.c at six blocks.
use shairport_sync_for_openw.Prelude.{ℕ, true, false, some, List, [], ◌∷◌}
use shairport_sync_for_openw.Rtp.FlushMode.{FlushConn, FlushItems, Loop}

abbrev no_request : FlushConn
no_request = record {
  ap2_flush_requested = false;
  ap2_flush_from_valid = false;
  ap2_flush_from_rtp_timestamp = 0;
  ap2_flush_from_sequence_number = 0;
  ap2_flush_until_rtp_timestamp = 0;
  ap2_flush_until_sequence_number = 0;
  ap2_play_enabled = true;
}

abbrev playing_loop : Loop
playing_loop = record {
  flush_requested = false;
  play_enabled = true;
  flush_from_timestamp = 0;
  blocks_read_in_sequence = 5;
  packets_played_in_this_sequence = 4;
  pcm_buffer_occupancy = 1000;
  pcm_buffer_read_point = 100;
  pcm_buffer_read_point_rtptime_offset = 0;
}

-- The blocks 12 to 14 are to be flushed.
abbrev items : FlushItems
items = record {
  flush_from_seq = some 12;
  flush_from_ts = some 4224;
  flush_until_seq = some 15;
  flush_until_ts = some 5280;
}

abbrev blocks : List ℕ
blocks = 10 ∷ 11 ∷ 12 ∷ 14 ∷ 15 ∷ 16 ∷ []
