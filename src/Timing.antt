-- ===== src/Timing.antt =====
-- `frame_to_local_time`, `local_time_to_frame` and `have_timestamp_timing_information` of src/rtp.c,
-- which the player uses: the interface of the player's clock, filled from either anchor. A result
-- that is not there is not used by the player, and reads 0 here.
mod Tests
use shairport_sync_for_openw.Prelude.{ℕ, Bool, true, false, Option, none, some}
use shairport_sync_for_openw.Player.GetFrame.Clock.{Clock}
use shairport_sync_for_openw.Rtp.Ntp.{
  have_ntp_timing_information, frame_to_ntp_local_time, local_ntp_time_to_frame,
}
use shairport_sync_for_openw.Rtp.Ntp
use shairport_sync_for_openw.Rtp.Ptp.{
  ClockStatus, clock_ok, frame_to_ptp_local_time, local_ptp_time_to_frame,
}

or_zero : Option ℕ → ℕ
or_zero none = 0
or_zero (some x) = x

pub ntp_clock : ℕ → Ntp.Anchor → Clock
unfolding or_zero
ntp_clock difference a = record {
  have_timing = have_ntp_timing_information a;
  frame_to_local_time = λ f. or_zero (frame_to_ntp_local_time difference f a);
  local_time_to_frame = λ t. or_zero (local_ntp_time_to_frame difference t a);
}

is_ok : ClockStatus → Bool
is_ok clock_ok = true
is_ok _ = false

frame_from : ℕ → Option (ℕ × ℕ) → ℕ → ℕ
frame_from input_rate none t = 0
frame_from input_rate (some l) t = local_ptp_time_to_frame input_rate l t

time_from : ℕ → Option (ℕ × ℕ) → ℕ → ℕ
unfolding or_zero
time_from input_rate none f = 0
time_from input_rate (some l) f = or_zero (frame_to_ptp_local_time input_rate l f)

-- From the response and the local anchor that `get_ptp_anchor_local_time_info` gives.
pub ptp_clock : ℕ → ClockStatus × Option (ℕ × ℕ) → Clock
unfolding is_ok frame_from time_from
ptp_clock input_rate (response, local) = record {
  have_timing = is_ok response;
  frame_to_local_time = time_from input_rate local;
  local_time_to_frame = frame_from input_rate local;
}
