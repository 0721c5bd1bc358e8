-- ===== src/Rtp/Receivers/Sync.antt =====
-- The sync packets of `rtp_control_receiver` of src/rtp.c, which set the latency and the anchor.
-- `latency_offset` is the offset of the back end in frames, which is computed with floating-point
-- numbers; the frame rate that is worked out from the reference times is left out.
pub mod Bounds
pub mod Reading
use shairport_sync_for_openw.Prelude.{
  ℕ, ◌+◌, ◌-◌, ◌*◌, ◌/◌, ◌%◌, ◌^◌, Bool, true, false, ◌&&◌, ◌||◌, not, List, ltb, leb, ◌==◌,
  if◌then◌else◌, get_or, u32, u64, sub32, sub64,
}
use shairport_sync_for_openw.Prelude.Int.{ℤ, pos, pos_part, ◌+ℤ◌, ltb_ℤ, signed32}
use shairport_sync_for_openw.Common.Bytes.{nctohs, nctohl}
use shairport_sync_for_openw.Player.Buffer.{buffer_frames}
use shairport_sync_for_openw.Rtp.Ntp.{Anchor}

pub record SyncSettings : Type 0 where
  pub user_supplied_latency : ℕ
  pub fixed_latency_offset : ℕ
  pub air_play_version : ℕ
  pub maximum_latency : ℕ
  pub minimum_latency : ℕ
  pub latency_offset : ℤ
  pub max_frames_per_packet : ℕ
  pub minimum_free_buffer_headroom : ℕ

pub record SyncState : Type 0 where
  pub latency : ℕ
  pub anchor : Anchor
  pub latency_delayed_timestamp : ℕ
  pub initial_reference_time : ℕ
  pub initial_reference_timestamp : ℕ
  pub reference_to_previous_time_difference : ℕ
  pub reference_to_previous_frame_difference : ℕ

abbrev pub max_frames : ℕ
max_frames = 3 * buffer_frames * 352 / 4 - 11025

-- A latency that the sender gives, with the fixed offset for some versions.
pub offset_latency : SyncSettings → ℕ → ℕ → ℕ
offset_latency e flags la =
    let v = e.air_play_version in
    if flags == 7 || (ltb 0 v && leb v 353 || ltb 0 v && leb 371 v)
    then u32 (la + e.fixed_latency_offset)
    else la

-- It is brought into the range that the session asks for, where 0 stands for no bound.
pub clamp_latency : SyncSettings → ℕ → ℕ
clamp_latency e la =
    let upper =
      if not (e.maximum_latency == 0) && ltb e.maximum_latency la then e.maximum_latency else la in
    if not (e.minimum_latency == 0) && ltb upper e.minimum_latency then e.minimum_latency else upper

-- The frames that fit in the buffer, less the headroom.
abbrev pub buffer_limit : SyncSettings → ℤ
buffer_limit e =
    signed32 (u32 (e.max_frames_per_packet * sub32 buffer_frames e.minimum_free_buffer_headroom))

-- The offset of the back end is left out where the sum is out of range.
pub adjust_latency : SyncSettings → ℕ → ℕ
adjust_latency e la =
    let adjusted = e.latency_offset +ℤ pos la in
    if ltb_ℤ adjusted (pos 0) || ltb_ℤ (buffer_limit e) adjusted then la else pos_part adjusted

pub new_latency : SyncSettings → ℕ → ℕ → ℕ → ℕ
new_latency e flags la latency =
    if not (e.user_supplied_latency == 0)
    then e.user_supplied_latency
    else (let asked = clamp_latency e (offset_latency e flags la) in
        if ltb max_frames asked then latency else adjust_latency e asked)

-- The seconds and the fraction of the packet's time, in nanoseconds.
pub remote_time : List ℕ → ℕ
remote_time packet =
    u64 (u64 (nctohl 8 packet * 1000000000) + nctohl 12 packet * 1000000000 / 2 ^ 32)

-- A packet with the time, the frame that belongs to it, and that frame less the latency.
pub handle_sync : SyncSettings → ℕ → List ℕ → SyncState → SyncState
handle_sync e packet_count packet s =
    let remote_time_of_sync = remote_time packet in
    let sync_rtp_timestamp = nctohl 16 packet in
    let less_latency = nctohl 4 packet in
    let latency =
      new_latency e (nctohs 2 packet) (sub32 sync_rtp_timestamp less_latency) s.latency in
    let frame = sub32 sync_rtp_timestamp latency in
    let is_first = s.initial_reference_time == 0 && ltb 0 packet_count in
    record {
      latency = latency;
      anchor = record {
        anchor_remote_info_is_valid = true;
        anchor_rtptime = frame;
        anchor_time = remote_time_of_sync;
      };
      latency_delayed_timestamp = less_latency;
      initial_reference_time = if is_first then remote_time_of_sync else s.initial_reference_time;
      initial_reference_timestamp = if is_first then frame else s.initial_reference_timestamp;
      reference_to_previous_time_difference = sub64 remote_time_of_sync s.anchor.anchor_time;
      reference_to_previous_frame_difference =
          if s.anchor.anchor_rtptime == 0 then 0 else sub32 frame s.anchor.anchor_rtptime;
    }
