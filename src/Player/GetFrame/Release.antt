-- ===== src/Player/GetFrame/Release.antt =====
-- `buffer_get_frame` of src/player.c: whether the current packet is let go or the loop waits.
pub mod Laws
use shairport_sync_for_openw.Prelude.{
  ℕ, ◌+◌, ◌-◌, ◌^◌, Bool, true, false, ◌&&◌, ◌||◌, not, ltb, leb, ◌==◌, if◌then◌else◌, u16, u32,
  u64, sub32, sub64, update,
}
use shairport_sync_for_openw.Player.Buffer.{Slot, Conn, bufidx}
use shairport_sync_for_openw.Player.GetFrame.Clock.{Clock}
use shairport_sync_for_openw.Player.GetFrame.LeadIn.{Locals}

abbrev pub ten_seconds : ℕ
ten_seconds = 10000000000

-- A time difference, read as signed, of more than ten seconds either way.
unfoldable pub is_crazy : ℕ → Bool
is_crazy d = if ltb d (2 ^ 63) then ltb ten_seconds d else ltb ten_seconds (2 ^ 64 - d)

-- It is not yet time for the packet. `offset` is the desired length of the back end's buffer, in
-- frames.
unfoldable pub too_soon : Clock → ℕ → ℕ → Slot → Bool
too_soon k offset now s =
    if Clock.have_timing k
    then (let time_to_play = Clock.frame_to_local_time k (sub32 s.given_timestamp offset) in
        not (leb time_to_play now) && not (is_crazy (sub64 now time_to_play)))
    else true

unfoldable pub do_wait : Clock → ℕ → ℕ → Conn → Bool
do_wait k offset now c =
    let s = c.audio_buffer (bufidx c.ab_read) in
    (c.ab_synced && (s.ready && not (s.given_timestamp == 0))) && too_soon k offset now s

unfoldable pub is_empty : Conn → Bool
is_empty c = c.ab_synced && c.ab_read == c.ab_write

-- On an empty buffer, the first time, the references are forgotten.
unfoldable pub note_empty : Conn → Locals → Conn × Locals
note_empty c v = if v.notified_buffer_empty then (c, v) else (
  record c {
    initial_reference_time = 0;
    initial_reference_timestamp = 0;
    first_packet_timestamp = 0;
  },
  record v { notified_buffer_empty = true },
)

-- The connection, the state of the loop, and whether it waits.
unfoldable pub release : Clock → ℕ → ℕ → Conn → Locals → Conn × Locals × Bool
release k offset now c v =
    if do_wait k offset now c
    then (c, v, true)
    else if is_empty c
    then (let (c', v') = note_empty c v in (c', v', true))
    else (c, v, c.ab_buffering || not c.ab_synced)

-- After the loop: the current slot is emptied, a missing packet is marked as silent and counted, and
-- the read pointer moves on. The slot is given as the caller gets it.
unfoldable pub take_frame : Conn → Conn × Slot
take_frame c =
    let s = c.audio_buffer (bufidx c.ab_read) in
    let s' : Slot = record s {
      ready = false;
      given_timestamp = if s.ready then s.given_timestamp else 0;
    } in
    (
      record c {
        audio_buffer = update c.audio_buffer (bufidx c.ab_read) s';
        missing_packets = if s.ready then c.missing_packets else u64 (c.missing_packets + 1);
        ab_read = u16 (c.ab_read + 1);
      },
      s',
    )
