-- ===== src/Rtp/Ptp.antt =====
-- The anchor of src/rtp.c that the timing of AirPlay 2 goes by: `set_ptp_anchor_info`,
-- `reset_ptp_anchor_info`, `get_ptp_anchor_local_time_info` and the conversions. Notes that are only
-- written to the log are left out. Products of 64-bit integers are taken not to overflow.
pub mod Master
mod Tests
use shairport_sync_for_openw.Prelude.{
  ℕ, zero, suc, ◌+◌, ◌-◌, ◌*◌, ◌/◌, ◌^◌, Bool, true, false, ◌&&◌, ◌||◌, not, Option, none, some,
  ltb, ◌==◌, if◌then◌else◌, u32, u64, sub32, sub64,
}
use shairport_sync_for_openw.Prelude.Int.{ℤ, pos, negsuc, ◌*ℤ◌, div_ℤ, signed32, signed64, unsigned}

-- `clock_status_t`.
pub data ClockStatus : Type 0 where
  clock_no_anchor_info clock_ok clock_service_unavailable clock_access_error : ClockStatus
  clock_data_unavailable clock_no_master clock_version_mismatch clock_not_synchronised : ClockStatus
  clock_not_valid clock_not_ready : ClockStatus

pub record Anchor : Type 0 where
  pub anchor_remote_info_is_valid : Bool
  pub anchor_clock : ℕ
  pub anchor_time : ℕ
  pub anchor_rtptime : ℕ
  pub last_anchor_info_is_valid : Bool
  pub last_anchor_rtptime : ℕ
  pub last_anchor_local_time : ℕ
  pub last_anchor_time_of_update : ℕ
  pub last_anchor_validity_start_time : ℕ
  pub clock_status : ClockStatus

-- The clock information that NQPTP gives.
pub record ClockInfo : Type 0 where
  pub clock_id : ℕ
  pub offset : ℕ
  pub start_of_mastership : ℕ

-- What `ptp_get_clock_info` answers: the information with `clock_ok`, or another status.
pub data ClockReply : Type 0 where
  info : ClockInfo → ClockReply
  status : ClockStatus → ClockReply

abbrev pub five_seconds : ℕ
five_seconds = 5000000000

-- A difference of two times, read as signed, that is less than five seconds.
abbrev pub is_recent : ℕ → Bool
is_recent d = not (ltb d (2 ^ 63)) || ltb d five_seconds

abbrev pub is_over_five_seconds : ℕ → Bool
is_over_five_seconds d = ltb d (2 ^ 63) && ltb five_seconds d

-- The last anchor is no longer relied on if details of the anchor change within five seconds.
pub set_ptp_anchor_info : ℕ → ℕ → ℕ → ℕ → Anchor → Anchor
set_ptp_anchor_info time_now clock rtptime networktime a = record a {
  last_anchor_info_is_valid =
      if clock == a.anchor_clock
        && ((not (a.anchor_rtptime == rtptime) || not (a.anchor_time == networktime))
            && is_recent (sub64 time_now a.last_anchor_validity_start_time))
      then false
      else a.last_anchor_info_is_valid;
  anchor_remote_info_is_valid = true;
  anchor_rtptime = rtptime;
  anchor_time = networktime;
  anchor_clock = clock;
}

pub reset_ptp_anchor_info : Anchor → Anchor
reset_ptp_anchor_info a = record a {
  last_anchor_info_is_valid = false;
  anchor_remote_info_is_valid = false;
}

-- The anchor's own clock is the master: the local time of the anchor is worked out anew.
same_master : ℕ → ClockInfo → Anchor → Anchor
same_master time_now i a = record a {
  last_anchor_rtptime = a.anchor_rtptime;
  last_anchor_local_time = sub64 a.anchor_time i.offset;
  last_anchor_time_of_update = time_now;
  last_anchor_validity_start_time =
      if a.last_anchor_info_is_valid
      then a.last_anchor_validity_start_time
      else i.start_of_mastership;
  last_anchor_info_is_valid = true;
}

-- Another clock has been the master for long enough: the anchor is moved to it.
new_master : ClockInfo → Anchor → Anchor
new_master i a = record a {
  anchor_time = u64 (a.last_anchor_local_time + i.offset);
  anchor_clock = i.clock_id;
}

-- For a reply with `clock_ok`; `later` is a second reading of the time.
pub with_clock : ℕ → ℕ → ClockInfo → Anchor → Anchor × ClockStatus
with_clock time_now later i a =
    if not a.anchor_remote_info_is_valid
    then (a, clock_no_anchor_info)
    else if i.clock_id == a.anchor_clock
    then (same_master time_now i a, clock_ok)
    else if not a.last_anchor_info_is_valid
    then (a, clock_not_valid)
    else if is_over_five_seconds (sub64 later a.last_anchor_time_of_update)
    then (new_master i a, clock_ok)
    else (a, clock_ok)

pub ask_clock : Bool → ClockReply → ℕ → ℕ → Anchor → Anchor × ClockStatus
ask_clock rtsp_link_is_idle reply time_now later a =
    if rtsp_link_is_idle
    then (a, clock_not_valid)
    else elim reply [ status s ↦ (a, s) | info i ↦ with_clock time_now later i a ]

-- The anchor, the response, and the local anchor information if there is any: a frame and its time.
pub get_ptp_anchor_local_time_info :
    Bool → ClockReply → ℕ → ℕ → Anchor → Anchor × ClockStatus × Option (ℕ × ℕ)
get_ptp_anchor_local_time_info rtsp_link_is_idle reply time_now later a =
    let (b, response) = ask_clock rtsp_link_is_idle reply time_now later a in
    (
      record b { clock_status = response },
      response,
      if b.last_anchor_info_is_valid
          then some (b.last_anchor_rtptime, b.last_anchor_local_time)
          else none,
    )

-- The conversions, from the local anchor information. At rate 0 the program dies.
unfoldable pub frame_to_ptp_local_time : ℕ → ℕ × ℕ → ℕ → Option ℕ
frame_to_ptp_local_time zero (rtptime, local_time) timestamp = none
frame_to_ptp_local_time (suc r) (rtptime, local_time) timestamp =
    let difference = div_ℤ (signed32 (sub32 timestamp rtptime) *ℤ pos 1000000000) (suc r) in
    some (u64 (local_time + unsigned (2 ^ 64) difference))

unfoldable pub local_ptp_time_to_frame : ℕ → ℕ × ℕ → ℕ → ℕ
local_ptp_time_to_frame input_rate (rtptime, local_time) time =
    let difference = div_ℤ (signed64 (sub64 time local_time) *ℤ pos input_rate) 1000000000 in
    u32 (rtptime + unsigned (2 ^ 32) difference)
