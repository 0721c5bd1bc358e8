-- ===== src/Player/PutPacket.antt =====
-- `player_put_packet` of src/player.c: a packet from the network is put into its slot.
-- The lock makes the call one step. `first_possibly_missing_frame`, -1 when unset, is an option.
pub mod Scan
pub mod Place
pub mod Gap
use shairport_sync_for_openw.Prelude.{
  ℕ, zero, suc, ◌+◌, ◌-◌, ◌*◌, ◌/◌, Bool, true, false, ◌&&◌, not, Option, none, some, List, [],
  ◌++◌, ltb, leb, ◌==◌, if◌then◌else◌, u16, u64, update, take, drop, length,
}
use shairport_sync_for_openw.Player.Buffer.{Slot, Conn, bufidx, is_after}
use shairport_sync_for_openw.Player.Decode.{Stream, Decoded, decoded, died, audio_packet_decode}
use Scan.{Limits, run_scan}

-- What one call is given: the time, and the arguments.
pub record Packet : Type 0 where
  pub time_now : ℕ
  pub original_format : Bool
  pub seqno : ℕ
  pub actual_timestamp : ℕ
  pub payload : List ℕ
  pub len : ℕ

pub record Settings : Type 0 where
  pub stream : Stream
  pub max_frames_per_packet : ℕ
  pub input_bytes_per_frame : ℕ
  pub limits : Limits

-- A flush that was requested before the first packet is forgotten; the packet is counted.
pub count_packet : ℕ → Conn → Conn
count_packet time_now c = record c {
  flush_requested = if c.packet_count == 0 then false else c.flush_requested;
  flush_rtp_timestamp = if c.packet_count == 0 then 0 else c.flush_rtp_timestamp;
  packet_count = u64 (c.packet_count + 1);
  packet_count_since_flush = u64 (c.packet_count_since_flush + 1);
  time_of_last_audio_packet = time_now;
}

-- The first packet sets both pointers; a decoded one takes the next sequence number.
pub sync_packet : Packet → Conn → Conn × ℕ
sync_packet p c =
    if not c.ab_synced
    then (
      record c {
        ab_write = p.seqno;
        ab_read = p.seqno;
        ab_synced = true;
        first_packet_timestamp = 0;
      },
      p.seqno,
    )
    else (c, if p.original_format then p.seqno else c.ab_write)

pub measure_start : Packet → Conn → Conn
measure_start p c =
    if not c.input_frame_rate_starting_point_is_valid
      && (leb 500 c.packet_count_since_flush && leb c.packet_count_since_flush 510)
    then record c {
      measurement_start_time = p.time_now;
      frames_received_at_measurement_start = p.actual_timestamp;
      input_frame_rate_starting_point_is_valid = true;
    }
    else c

pub missing_slot : ℕ → Slot → Slot
missing_slot time_now s = record s {
  ready = false;
  resend_request_number = 0;
  initialisation_time = time_now;
  status = 1;
  resend_time = 0;
  given_timestamp = 0;
  sequence_number = 0;
}

-- `for (i = 0; i < gap; i++)` from the sequence number `x` on, with `n` rounds left.
pub mark_missing : ℕ → ℕ → ℕ → (ℕ → Slot) → ℕ → Slot
mark_missing time_now zero x slots = slots
mark_missing time_now (suc n) x slots =
    mark_missing time_now n (x + 1)
      (update slots (bufidx x) (missing_slot time_now (slots (bufidx x))))

-- The number of rounds: `gap` is the difference of the two numbers as `int`s, so it is positive
-- only where `seqno` is the greater number.
abbrev pub gap : ℕ → ℕ → ℕ
gap ab_write seqno = seqno - ab_write

-- Finds the slot for the packet, if there is one, and moves the write pointer.
pub locate : Packet → ℕ → Conn → Conn × Option ℕ
locate p seqno c =
    if c.ab_write == seqno
    then (
      record (measure_start p c) {
        measurement_time = p.time_now;
        frames_received_at_measurement = p.actual_timestamp;
        ab_write = u16 (seqno + 1);
      },
      some (bufidx seqno),
    )
    else if is_after c.ab_write seqno
    then (
      record c {
        audio_buffer = mark_missing p.time_now (gap c.ab_write seqno) c.ab_write c.audio_buffer;
        ab_write = u16 (seqno + 1);
      },
      some (bufidx seqno),
    )
    else if is_after c.ab_read seqno
    then (record c { late_packets = u64 (c.late_packets + 1) }, some (bufidx seqno))
    else (record c { too_late_packets = u64 (c.too_late_packets + 1) }, none)

abbrev overlay : List ℕ → List ℕ → List ℕ
overlay new old = new ++ drop (length new) old

unfoldable pub received_slot : Packet → ℕ → List ℕ → ℕ → Slot → Slot
received_slot p seqno samples length s = record s {
  ready = true;
  status = 0;
  samples = samples;
  length = length;
  given_timestamp = p.actual_timestamp;
  sequence_number = seqno;
}

pub bad_slot : List ℕ → Slot → Slot
bad_slot samples s = record s {
  ready = false;
  status = 2;
  samples = samples;
  resend_request_number = 0;
  given_timestamp = 0;
  sequence_number = 0;
}

-- What is put into the slot. `die`, at 0 bytes for a frame, ends the program.
unfoldable pub fill_slot : Settings → Packet → ℕ → Slot → Slot
fill_slot e p seqno s =
    let t : Slot = record s { initialisation_time = p.time_now; resend_time = 0 } in
    if p.original_format
    then (elim (audio_packet_decode e.stream e.input_bytes_per_frame e.max_frames_per_packet
        (take p.len p.payload)) [
          | decoded true out n ↦ received_slot p seqno (overlay out s.samples) n t
          | decoded false out n ↦ bad_slot (overlay out s.samples) t
          | died ↦ t
        ])
    else received_slot p seqno
        (overlay (take (p.len * e.input_bytes_per_frame) p.payload) s.samples) p.len t

abbrev pub fill_at : Settings → Packet → ℕ → Option ℕ → (ℕ → Slot) → ℕ → Slot
fill_at e p seqno none slots = slots
fill_at e p seqno (some i) slots = update slots i (fill_slot e p seqno (slots i))

abbrev pub fill_located : Settings → Packet → ℕ → Conn × Option ℕ → Conn
fill_located e p seqno (c, slot) = record c { audio_buffer = fill_at e p seqno slot c.audio_buffer }

-- The packet is put in its place; the resend checks come after.
pub store_packet : Settings → Packet → Conn → Conn
store_packet e p c = let (c', seqno) = sync_packet p c in fill_located e p seqno (locate p seqno c')

-- The connection and the static variable after the call, and the resend requests made in it, each
-- a first sequence number and a count.
pub put_packet : Settings → Packet → Conn → Option ℕ → Conn × Option ℕ × List (ℕ × ℕ)
put_packet e p c first_missing =
    let c1 = count_packet p.time_now c in
    if c1.connection_state_to_output
    then (let c2 = store_packet e p c1 in
        let s = run_scan e.limits p.time_now c2.ab_read c2.ab_write c2.audio_buffer first_missing in
        (
          record c2 {
            audio_buffer = s.slots;
            resend_requests = u64 (c2.resend_requests + length s.requests);
          },
          s.first_missing,
          s.requests,
        ))
    else (c1, first_missing, [])
