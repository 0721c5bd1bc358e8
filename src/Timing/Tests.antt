-- ===== src/Timing/Tests.antt =====
-- The player's skipping of late packets by the clock of an anchor.
use shairport_sync_for_openw.Prelude.{◌≡◌, refl, true, some}
use shairport_sync_for_openw.Player.GetFrame.Clock.{Clock}
use shairport_sync_for_openw.Rtp.Ntp.{Anchor, frame_to_ntp_local_time}
use shairport_sync_for_openw.Rtp.Ptp.{clock_ok, frame_to_ptp_local_time}
use shairport_sync_for_openw.Timing.{ntp_clock, ptp_clock}

abbrev anchor : Anchor
anchor = record {
  anchor_remote_info_is_valid = true;
  anchor_rtptime = 1000;
  anchor_time = 5000000000;
}

-- Both clocks take 44100 frames for a second.
ntp_second : Clock.frame_to_local_time (ntp_clock 7 anchor) 45100 ≡ 5999999993
unfolding ntp_clock frame_to_ntp_local_time
ntp_second = refl

ptp_second :
    Clock.frame_to_local_time (ptp_clock 44100 (clock_ok, some (1000, 4999999993))) 45100
    ≡ 5999999993
unfolding ptp_clock frame_to_ptp_local_time
ptp_second = refl
