-- ===== src/Rtp/Ntp/Tests.antt =====
-- The conversions of src/rtp.c at a concrete anchor.
use shairport_sync_for_openw.Prelude.{ℕ, ◌+◌, ◌≡◌, ◌⊎◌, refl, true, false, some, u32, arith}
use shairport_sync_for_openw.Rtp.Ntp.{
  Anchor, reset_ntp_anchor_info, have_ntp_timing_information, frame_to_ntp_local_time,
  local_ntp_time_to_frame,
}
use shairport_sync_for_openw.Rtp.Ntp.RoundTrip.{ntp_round_trip}

-- Frames wrap shortly after the anchor.
abbrev anchor : Anchor
anchor = record {
  anchor_remote_info_is_valid = true;
  anchor_rtptime = 4294967000;
  anchor_time = 5000000000;
}

ntp_round_trip_example :
    (time : ℕ) × (frame : ℕ) × (frame_to_ntp_local_time 1000 352 anchor ≡ some time)
    × (local_ntp_time_to_frame 1000 time anchor ≡ some frame)
    × ((frame ≡ 352) ⊎ (u32 (frame + 1) ≡ 352))
ntp_round_trip_example =
    ntp_round_trip 1000 352 anchor refl (omega arith) (omega arith) (omega arith) (omega arith)
      (omega arith)

-- A second after the anchor is 44100 frames after it.
a_second : local_ntp_time_to_frame 0 6000000000 anchor ≡ some 43804
unfolding local_ntp_time_to_frame
a_second = refl

no_timing : have_ntp_timing_information (reset_ntp_anchor_info anchor) ≡ false
unfolding have_ntp_timing_information reset_ntp_anchor_info
no_timing = refl
