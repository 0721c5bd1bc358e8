-- ===== src/Rtp/Receivers/Tests.antt =====
-- The theorems on the receivers of src/rtp.c at concrete packets.
use shairport_sync_for_openw.Prelude.{
  ℕ, ◌*◌, ◌≤◌, ◌≡◌, refl, true, false, some, List, [], ◌∷◌, map, arith, sub32, sub64,
}
use shairport_sync_for_openw.Prelude.Int.{pos, negsuc}
use shairport_sync_for_openw.Rtp.Ntp.{Anchor, frame_to_ntp_local_time}
use shairport_sync_for_openw.Rtp.Receivers.Sync.{SyncSettings, SyncState, new_latency}
use shairport_sync_for_openw.Rtp.Receivers.Sync.Bounds.{buffer_size, IsSensible, latency_fits}
use shairport_sync_for_openw.Rtp.Receivers.Sync.Reading.{
  SyncPacket, sync_bytes, sync_time, sync_packet_read,
}
use shairport_sync_for_openw.Rtp.Receivers.{
  datagram, failed, AudioReceiver, audio_round, rtp_audio_receiver, ControlReceiver, Link,
  control_round, rtp_control_receiver,
}
use shairport_sync_for_openw.Rtp.Receivers.Delivery.{
  Audio, original, resent, call_of, Sent, first_time, again, audio_of, bytes_of, receiver_delivers,
  control_round-again,
}

abbrev audio : ℕ → Audio
audio n = record {
  flags = 128;
  marker = false;
  sequence = n;
  timestamp = 352 * n;
  source = 5;
  sound = 1 ∷ 2 ∷ 3 ∷ 4 ∷ 5 ∷ 6 ∷ 7 ∷ 8 ∷ 9 ∷ 10 ∷ 11 ∷ 12 ∷ 13 ∷ 14 ∷ 15 ∷ 16 ∷ [];
}

abbrev audio_start : AudioReceiver
audio_start = record { packet = []; last_seqno = negsuc 0 }

abbrev two_packets : List Sent
two_packets = first_time (audio 8) ∷ again 128 0 1 (audio 7) ∷ []

receiver_delivers_example :
    rtp_audio_receiver (map (λ s. (false, datagram (bytes_of s))) two_packets) audio_start
    ≡ map (λ s. call_of (audio_of s)) two_packets
receiver_delivers_example =
    receiver_delivers two_packets audio_start
      ((omega arith, omega arith), ((omega arith, omega arith), tt))

abbrev sync_settings : SyncSettings
sync_settings = record {
  user_supplied_latency = 0;
  fixed_latency_offset = 11025;
  air_play_version = 366;
  maximum_latency = 0;
  minimum_latency = 11025;
  latency_offset = pos 0;
  max_frames_per_packet = 352;
  minimum_free_buffer_headroom = 125;
}

abbrev no_anchor : Anchor
no_anchor = record { anchor_remote_info_is_valid = false; anchor_rtptime = 0; anchor_time = 0 }

abbrev sync_start : SyncState
sync_start = record {
  latency = 88200;
  anchor = no_anchor;
  latency_delayed_timestamp = 0;
  initial_reference_time = 0;
  initial_reference_timestamp = 0;
  reference_to_previous_time_difference = 0;
  reference_to_previous_frame_difference = 0;
}

abbrev control_start : ControlReceiver
control_start = record { packet = []; sync = sync_start }

abbrev link : Link
link = record {
  rtsp_link_is_idle = false;
  dropped = false;
  time_is_known = true;
  packet_count_since_flush = 3;
}

control_round-again_example :
    (control_round sync_settings link (datagram (resent 128 0 1 (audio 7))) control_start).1
    ≡ (audio_round false (datagram (original (audio 7))) audio_start).1
control_round-again_example =
    control_round-again sync_settings link control_start audio_start 128 0 1 (audio 7)
      (omega arith, omega arith) refl refl

-- A latency of 77175 frames, and the fixed offset.
abbrev sync_packet : SyncPacket
sync_packet = record {
  first = 144;
  flags = 7;
  less_latency = 100000;
  seconds = 40;
  fraction = 2147483648;
  frame = 177175;
}

sync_packet_read_example :
    let s =
      (control_round sync_settings link (datagram (sync_bytes sync_packet)) control_start).0.sync in
    (s.latency ≡ new_latency sync_settings 7 (sub32 177175 100000) 88200)
    × (frame_to_ntp_local_time 1000 (sub32 177175 s.latency) s.anchor
        ≡ some (sub64 (sync_time sync_packet) 1000))
sync_packet_read_example =
    sync_packet_read sync_settings link control_start sync_packet 1000 refl refl refl (omega arith)
      (omega arith)

sync_settings-IsSensible : IsSensible sync_settings
sync_settings-IsSensible = record {
  by_sender = refl;
  headroom = omega arith;
  not_small = omega arith;
  not_large = omega arith;
}

latency_fits_example :
    (rtp_control_receiver sync_settings
      ((link, datagram (sync_bytes sync_packet)) ∷ (link, failed) ∷ [])
      control_start).0.sync.latency
    ≤ buffer_size sync_settings
latency_fits_example =
    latency_fits sync_settings sync_settings-IsSensible
      ((link, datagram (sync_bytes sync_packet)) ∷ (link, failed) ∷ []) control_start (omega arith)
