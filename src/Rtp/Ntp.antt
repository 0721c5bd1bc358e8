-- ===== src/Rtp/Ntp.antt =====
-- The anchor of src/rtp.c that the timing of AirPlay 1 goes by, and the conversions between frames
-- and local time. `difference` is what `local_to_remote_time_difference_now` gives, which is computed
-- with floating-point numbers. A product of 64-bit integers is taken not to overflow.
pub mod RoundTrip
mod Tests
use shairport_sync_for_openw.Prelude.{
  ℕ, zero, suc, ◌+◌, ◌-◌, ◌*◌, ◌/◌, ◌^◌, Bool, true, false, Option, none, some, if◌then◌else◌, u32,
  u64, sub32, sub64,
}
use shairport_sync_for_openw.Prelude.Int.{ℤ, pos, negsuc, ◌*ℤ◌, div_ℤ, signed32, signed64, unsigned}

pub record Anchor : Type 0 where
  pub anchor_remote_info_is_valid : Bool
  pub anchor_rtptime : ℕ
  pub anchor_time : ℕ

unfoldable pub reset_ntp_anchor_info : Anchor → Anchor
reset_ntp_anchor_info a = record {
  anchor_remote_info_is_valid = false;
  anchor_rtptime = 0;
  anchor_time = 0;
}

unfoldable pub have_ntp_timing_information : Anchor → Bool
have_ntp_timing_information a = a.anchor_remote_info_is_valid

-- The time, unless there is no anchor.
unfoldable pub frame_to_ntp_local_time : ℕ → ℕ → Anchor → Option ℕ
frame_to_ntp_local_time difference timestamp a =
    if a.anchor_remote_info_is_valid
    then (let interval = signed32 (sub32 timestamp a.anchor_rtptime) in
        let interval_time = div_ℤ (interval *ℤ pos 1000000000) 44100 in
        some (sub64 (u64 (a.anchor_time + unsigned (2 ^ 64) interval_time)) difference))
    else none

unfoldable pub local_ntp_time_to_frame : ℕ → ℕ → Anchor → Option ℕ
local_ntp_time_to_frame difference time a =
    if a.anchor_remote_info_is_valid
    then (let offset = signed64 (sub64 (u64 (time + difference)) a.anchor_time) in
        let frame_interval = div_ℤ (offset *ℤ pos 44100) 1000000000 in
        some (u32 (a.anchor_rtptime + unsigned (2 ^ 32) frame_interval)))
    else none
