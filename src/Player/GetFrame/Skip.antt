-- ===== src/Player/GetFrame/Skip.antt =====
-- `buffer_get_frame` of src/player.c: skipping packets that are out of date, and the check that the
-- packet in the next slot is the one that is due.
pub mod Laws
use shairport_sync_for_openw.Prelude.{
  ℕ, zero, suc, ◌+◌, ◌-◌, ◌^◌, Bool, true, false, ◌&&◌, not, ltb, ◌==◌, if◌then◌else◌, u16, u64,
  sub32,
}
use shairport_sync_for_openw.Player.Buffer.{Slot, Conn, bufidx}
use shairport_sync_for_openw.Player.GetFrame.Clock.{Clock}

-- A packet that is missing, or whose first frame is before the frame that should be playing.
unfoldable pub is_out_of_date : ℕ → Slot → Bool
is_out_of_date should_be_frame s =
    if s.ready then not (ltb (sub32 s.given_timestamp should_be_frame) (2 ^ 31)) else true

-- The loop, with the read pointer `r` and `n` packets up to the write pointer.
unfoldable pub skip_packets : ℕ → ℕ → (ℕ → Slot) → ℕ → ℕ
skip_packets zero should_be_frame slots r = r
skip_packets (suc n) should_be_frame slots r =
    let rest = skip_packets n should_be_frame slots (u16 (r + 1)) in
    if is_out_of_date should_be_frame (slots (bufidx r)) then rest else r

abbrev pub desired_lead_time : ℕ
desired_lead_time = 120000000

-- Before the first packet is known, packets must be ahead of the time by the desired lead.
unfoldable pub time_to_aim_for : ℕ → Conn → ℕ
time_to_aim_for now c = if c.first_packet_timestamp == 0 then u64 (now + desired_lead_time) else now

-- The number of rounds is the difference of the pointers as `int`s, if that is positive.
unfoldable pub skip_out_of_date : Clock → ℕ → Conn → Conn
skip_out_of_date k now c =
    if c.ab_synced
    then record c {
      ab_read =
          skip_packets (c.ab_write - c.ab_read)
            (Clock.local_time_to_frame k (time_to_aim_for now c)) c.audio_buffer c.ab_read;
    }
    else c

-- Where the slot holds a later packet that has the same index, the read pointer jumps to it.
unfoldable pub resolve_alias : Conn → Conn
resolve_alias c =
    let s = c.audio_buffer (bufidx c.ab_read) in
    if c.ab_synced
      && (not (c.ab_read == c.ab_write)
          && (s.ready
              && (not (s.sequence_number == c.ab_read)
                  && bufidx s.sequence_number == bufidx c.ab_read)))
    then record c { ab_read = s.sequence_number }
    else c
