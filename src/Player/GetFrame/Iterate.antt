-- ===== src/Player/GetFrame/Iterate.antt =====
-- The `do` loop of `buffer_get_frame` of src/player.c: one iteration, and the loop, in which other
-- threads may change the connection whenever it waits.
pub mod Laws
mod Tests
use shairport_sync_for_openw.Prelude.{
  ℕ, zero, suc, ◌+◌, ◌-◌, ◌*◌, ◌/◌, Bool, true, false, ◌&&◌, ◌||◌, not, Option, none, some, List,
  [], ◌∷◌, ◌++◌, ◌==◌, if◌then◌else◌, u64,
}
use shairport_sync_for_openw.Player.Buffer.{Slot, Conn, bufidx}
use shairport_sync_for_openw.Player.GetFrame.Clock.{Clock}
use shairport_sync_for_openw.Player.GetFrame.Flush.{
  requests, Decision, flush_decision, apply_decision,
}
use shairport_sync_for_openw.Player.GetFrame.Skip.{skip_out_of_date, resolve_alias}
use shairport_sync_for_openw.Player.GetFrame.LeadIn.{
  Output, Event, flush_device, die, Locals, Outcome, buffering,
}
use shairport_sync_for_openw.Player.GetFrame.Release.{release, take_frame}

-- What an iteration finds outside: `backend` is absent if the back end has no `is_running`, and
-- `latency_offset` is the desired length of its buffer in frames.
pub record Moment : Type 0 where
  pub clock : Clock
  pub now : ℕ
  pub state_to_output : Bool
  pub backend : Option Bool
  pub has_flush : Bool
  pub output : Output
  pub bytes_per_frame : ℕ
  pub latency_offset : ℕ

-- The requests, and what is done about them.
flush_stage : Moment → Conn → Locals → Outcome
flush_stage m c v =
    let (c', told) = requests m.backend m.state_to_output c in
    let d = flush_decision m.bytes_per_frame c' in
    record {
      conn = apply_decision d;
      locals = if d.flush_needed then record v { have_sent_prefiller_silence = false } else v;
      events = if told && m.has_flush then flush_device ∷ [] else [];
    }

-- The current packet: out-of-date ones are skipped, and if it is ready while buffering, silence is
-- sent or buffering ends.
packet_stage : Moment → Conn → Locals → Outcome
packet_stage m c v =
    let c' = resolve_alias (skip_out_of_date m.clock m.now c) in
    let s = c'.audio_buffer (bufidx c'.ab_read) in
    if c'.ab_synced && s.ready
    then (let v' = record v { notified_buffer_empty = false } in
        if c'.ab_buffering
        then buffering m.clock m.output m.now s c' v'
        else record { conn = c'; locals = v'; events = [] })
    else record { conn = c'; locals = v; events = [] }

-- Both stages.
pub stages : Moment → Conn → Locals → Outcome
unfolding flush_stage packet_stage
stages m c v =
    let f = flush_stage m c v in
    let p = packet_stage m f.conn f.locals in record p { events = f.events ++ p.events }

-- One iteration; the last part says whether the loop waits.
pub iterate : Moment → Conn → Locals → Outcome × Bool
iterate m c v =
    if m.clock.have_timing
    then (let p = stages m c v in
        let (c', v', wait) = release m.clock m.latency_offset m.now p.conn p.locals in
        (record p { conn = c'; locals = v' }, wait))
    else (record { conn = c; locals = v; events = [] }, true)

-- The loop over the moments of its iterations, each with what other threads do to the connection
-- while it waits. It is absent as long as the loop waits.
pub loop : List (Moment × (Conn → Conn)) → Conn → Locals → Option (Conn × Slot)
loop [] c v = none
loop ((m, others) ∷ ms) c v =
    let (o, wait) = iterate m c v in
    let rest = loop ms (others o.conn) o.locals in if wait then rest else some (take_frame o.conn)

pub get_frame : List (Moment × (Conn → Conn)) → Conn → Option (Conn × Slot)
get_frame ms c =
    loop ms c (record { have_sent_prefiller_silence = false; notified_buffer_empty = false })

-- The time to wait for a wake-up, in nanoseconds; at rate 0 the program dies.
pub wakeup_ns : ℕ → Option ℕ
wakeup_ns zero = none
wakeup_ns (suc r) = some (u64 (1000000000 / suc r * (12 * 352)) / 3)
