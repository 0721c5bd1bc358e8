-- ===== src/Rtp/Ptp/Tests.antt =====
-- The local anchor of src/rtp.c at concrete clocks.
use shairport_sync_for_openw.Prelude.{ℕ, ◌≡◌, refl, true, false, some, arith}
use shairport_sync_for_openw.Rtp.Ptp.{
  Anchor, ClockInfo, info, clock_ok, get_ptp_anchor_local_time_info, frame_to_ptp_local_time,
  local_ptp_time_to_frame,
}
use shairport_sync_for_openw.Rtp.Ptp.Master.{HasNewMaster, get_new_master}

abbrev clock : ℕ → ClockInfo
clock id = record { clock_id = id; offset = 300; start_of_mastership = 10 }

abbrev anchored : Anchor
anchored = record {
  anchor_remote_info_is_valid = true;
  anchor_clock = 1;
  anchor_time = 9000000000;
  anchor_rtptime = 500;
  last_anchor_info_is_valid = true;
  last_anchor_rtptime = 500;
  last_anchor_local_time = 8999999800;
  last_anchor_time_of_update = 1000;
  last_anchor_validity_start_time = 10;
  clock_status = clock_ok;
}

moves : HasNewMaster 6000000000 (clock 2) anchored
moves = record { remote = refl; last = refl; other = λ e. omega (arith, e); old = refl }

get_new_master_example :
    ((get_ptp_anchor_local_time_info false (info (clock 2)) 5999999999 6000000000 anchored).1
      ≡ clock_ok)
    × ((get_ptp_anchor_local_time_info false (info (clock 2)) 5999999999 6000000000 anchored).2
        ≡ some (500, 8999999800))
    × ((get_ptp_anchor_local_time_info false
          (info (clock 2))
          7000000000
          7000000001
          (get_ptp_anchor_local_time_info false
            (info (clock 2))
            5999999999
            6000000000
            anchored).0).2
        ≡ some (500, 8999999800))
get_new_master_example =
    get_new_master 5999999999 6000000000 7000000000 7000000001 (clock 2) anchored moves
      (omega arith) (omega arith)

-- A second is as many frames as the rate says, in both directions, across the wrap of the frames.
a_second : frame_to_ptp_local_time 48000 (4294967295, 100) 47999 ≡ some 1000000100
unfolding frame_to_ptp_local_time
a_second = refl

back : local_ptp_time_to_frame 48000 (4294967295, 100) 1000000100 ≡ 47999
unfolding local_ptp_time_to_frame
back = refl
