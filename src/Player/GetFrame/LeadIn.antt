-- ===== src/Player/GetFrame/LeadIn.antt =====
-- `buffer_get_frame` of src/player.c: from the first packet until the time it is due, silence is
-- sent to the output device.
pub mod Silence
use shairport_sync_for_openw.Prelude.{
  ℕ, zero, suc, ◌+◌, ◌-◌, ◌*◌, ◌/◌, ◌^◌, Bool, true, false, ◌&&◌, ◌||◌, not, Option, none, some,
  List, [], ◌∷◌, ◌++◌, ltb, leb, ◌==◌, if◌then◌else◌, sub64, u64,
}
use shairport_sync_for_openw.Prelude.Int.{ℤ, pos, ◌-ℤ◌, ltb_ℤ, leb_ℤ, signed64}
use shairport_sync_for_openw.Player.Buffer.{Slot, Conn, bufidx}
use shairport_sync_for_openw.Player.GetFrame.Clock.{Clock}

-- What the output device answers when it is asked for its delay.
pub data DelayReply : Type 0 where
  frames : ℤ → DelayReply
  stalled other_error : DelayReply

-- The output settings; lengths in seconds are already turned into nanoseconds or frames.
-- `delay` is absent if the device has no such function.
pub record Output : Type 0 where
  pub delay : Option DelayReply
  pub silent_lead_in_auto : Bool
  pub silent_lead_in_ns : ℤ
  pub output_rate : ℕ
  pub desired_buffer_frames : ℤ
  pub max_frames_per_packet : ℕ
  pub unfixable_error_reported : Bool
  pub has_cmd_unfixable : Bool

-- What is done to the outside. `run_unfixable` is the report of an unfixable error, which also sets
-- the flag that it was reported.
pub data Event : Type 0 where
  flush_device : Event
  silence : ℕ → Event
  first_frame_received : Event
  resume : Event
  run_unfixable : Event
  die : Event

abbrev pub first_frame_early_bias : ℕ
first_frame_early_bias = 8

-- The silence to send, and whether buffering is at an end, from the frames up to the first packet
-- and the frames that keep the device's buffer at the desired length.
pub silence_needed : ℤ → ℤ → ℕ → ℤ × Bool
silence_needed exact_frame_gap needed max_frames_per_packet =
    let two_packets = pos (max_frames_per_packet * 2) in
    if leb_ℤ exact_frame_gap two_packets
    then (
      if ltb_ℤ (pos first_frame_early_bias) exact_frame_gap
          then exact_frame_gap -ℤ pos first_frame_early_bias
          else exact_frame_gap,
      true,
    )
    else (if leb_ℤ exact_frame_gap needed then two_packets else needed, false)

-- The state of the loop that is not in the connection.
pub record Locals : Type 0 where
  pub have_sent_prefiller_silence : Bool
  pub notified_buffer_empty : Bool

pub record Outcome : Type 0 where
  pub conn : Conn
  pub locals : Locals
  pub events : List Event

abbrev events_of_silence : ℤ → List Event
events_of_silence (pos (suc n)) = silence (suc n) ∷ []
events_of_silence _ = []

-- `silence` is only remembered as sent when there was some.
send_silence : Output → ℕ → ℤ → Conn → Locals → Outcome
send_silence o lead dac_delay c v =
    let gap = pos (u64 (lead * o.output_rate) / 1000000000) -ℤ dac_delay in
    let (fs, ends) =
      silence_needed gap (o.desired_buffer_frames -ℤ dac_delay) o.max_frames_per_packet in
    record {
      conn = record c { ab_buffering = if ends then false else c.ab_buffering };
      locals = record v {
        have_sent_prefiller_silence =
            if ltb_ℤ (pos 0) fs then true else v.have_sent_prefiller_silence;
      };
      events = events_of_silence fs;
    }

abbrev nothing : Conn → Locals → Outcome
nothing c v = record { conn = c; locals = v; events = [] }

unfixable : Output → Conn → Locals → Outcome
unfixable o c v = record {
  conn = c;
  locals = v;
  events =
      if o.unfixable_error_reported
      then []
      else if o.has_cmd_unfixable
      then run_unfixable ∷ []
      else die ∷ [];
}

-- The device is asked for its delay only after some silence was sent to it.
with_delay : Output → DelayReply → ℕ → Conn → Locals → Outcome
with_delay o reply lead c v =
    if not v.have_sent_prefiller_silence then send_silence o lead (pos 0) c v else elim reply [
      | frames d ↦ send_silence o lead d c v
      | stalled ↦ unfixable o c v
      | other_error ↦ nothing c v
    ]

-- A device that has a delay function: `t` is the time for the first packet, estimated anew.
pub lead_in_with_delay : Output → DelayReply → ℕ → ℕ → Conn → Locals → Outcome
unfolding send_silence unfixable with_delay
lead_in_with_delay o reply now t c v =
    let c' = record c { first_packet_time_to_play = t } in
    let lead = sub64 t now in
    if not (ltb lead (2 ^ 63))
    then nothing (record c' { ab_buffering = false }) v
    else if o.silent_lead_in_auto || leb_ℤ (pos lead) o.silent_lead_in_ns
    then with_delay o reply lead c' v
    else nothing c' v

-- The loop that sends the whole lead-in in tenths of a second, on fuel.
pub chunks : ℕ → ℕ → ℕ → List Event
chunks zero tenth gap = []
chunks (suc fuel) tenth gap =
    let fs = if ltb gap tenth then gap else tenth in
    let rest = chunks fuel tenth (gap - fs) in if gap == 0 then [] else silence fs ∷ rest

pub lead_in_without_delay : Output → ℕ → Conn → Locals → Outcome
lead_in_without_delay o now c v =
    let lead = sub64 c.first_packet_time_to_play now in
    let gap = if ltb lead (2 ^ 63) then lead * o.output_rate / 1000000000 else 0 in
    record {
      conn = record c { ab_buffering = false };
      locals = v;
      events = chunks gap (o.output_rate / 10) gap;
    }

-- The very first packet fixes the time to start.
pub note_first_packet : Clock → Slot → Conn → Conn × List Event
note_first_packet k s c =
    if c.first_packet_timestamp == 0
    then (
      record c {
        first_packet_timestamp = s.given_timestamp;
        first_packet_time_to_play = Clock.frame_to_local_time k s.given_timestamp;
      },
      first_frame_received ∷ [],
    )
    else (c, [])

lead_in : Clock → Output → ℕ → Conn → Locals → Outcome
lead_in k o now c v = if c.first_packet_time_to_play == 0 then nothing c v else elim o.delay [
  | some reply ↦
      lead_in_with_delay o reply now (Clock.frame_to_local_time k c.first_packet_timestamp) c v
  | none ↦ lead_in_without_delay o now c v
]

-- The whole part, for a current packet that is ready while buffering.
pub buffering : Clock → Output → ℕ → Slot → Conn → Locals → Outcome
unfolding lead_in
buffering k o now s c v =
    let (c', first) = note_first_packet k s c in
    let r = lead_in k o now c' v in
    record r { events = first ++ (r.events ++ (if r.conn.ab_buffering then [] else resume ∷ [])) }
