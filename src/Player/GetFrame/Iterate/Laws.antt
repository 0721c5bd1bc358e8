-- ===== src/Player/GetFrame/Iterate/Laws.antt =====
-- When the loop lets a packet go, and what a connection that goes off does.
use shairport_sync_for_openw.Prelude.{◌≡◌, ◌≢◌, refl, ap, ◌∙◌, true, false, []}
use shairport_sync_for_openw.Player.Buffer.{Conn, bufidx}
use shairport_sync_for_openw.Player.GetFrame.Flush.{requests, flush_decision, apply_decision}
use shairport_sync_for_openw.Player.GetFrame.Flush.Decide.{flushed_off}
use shairport_sync_for_openw.Player.GetFrame.Skip.Laws.{skip_unsynced}
use shairport_sync_for_openw.Player.GetFrame.Release.Laws.{release_unsynced}
use shairport_sync_for_openw.Player.GetFrame.LeadIn.{Locals}
use shairport_sync_for_openw.Player.GetFrame.Release.{release}
use shairport_sync_for_openw.Player.GetFrame.Release.Laws.{IsDue}
use shairport_sync_for_openw.Player.GetFrame.Iterate.{
  Moment, packet_stage, flush_stage, stages, iterate,
}

iterate-timed :
    (m : Moment) (c : Conn) (v : Locals)
    → m.clock.have_timing ≡ true
    → let p = stages m c v in
      ((iterate m c v).0.conn ≡ (release m.clock m.latency_offset m.now p.conn p.locals).0)
      × ((iterate m c v).1 ≡ (release m.clock m.latency_offset m.now p.conn p.locals).2)
unfolding iterate
iterate-timed m c v t = (rw t refl, rw t refl)

iterate-untimed :
    (m : Moment) (c : Conn) (v : Locals)
    → m.clock.have_timing ≡ false
    → iterate m c v ≡ (record { conn = c; locals = v; events = [] }, true)
unfolding iterate
iterate-untimed m c v t = rw t refl

-- What holds of the connection when a packet is let go.
pub record IsReleased (m : Moment) (c : Conn) : Type 0 where
  pub timing : m.clock.have_timing ≡ true
  pub synced : c.ab_synced ≡ true
  pub not_buffering : c.ab_buffering ≡ false
  pub not_empty : c.ab_read ≢ c.ab_write
  pub due :
      (c.audio_buffer (bufidx c.ab_read)).ready ≡ true
      → (c.audio_buffer (bufidx c.ab_read)).given_timestamp ≢ 0
      → IsDue m.clock m.latency_offset m.now (c.audio_buffer (bufidx c.ab_read))

-- Without timing information, an iteration waits and changes nothing.
pub iterate_untimed :
    (m : Moment) (c : Conn) (v : Locals)
    → m.clock.have_timing ≡ false
    → ((iterate m c v).0.conn ≡ c) × ((iterate m c v).0.locals ≡ v) × ((iterate m c v).1 ≡ true)
iterate_untimed m c v t = rw (iterate-untimed m c v t) (refl, refl, refl)

stages-unsynced :
    (m : Moment) (c : Conn) (v : Locals)
    → (flush_stage m c v).conn.ab_synced ≡ false
    → (stages m c v).conn ≡ (flush_stage m c v).conn
unfolding stages packet_stage
stages-unsynced m c v h =
    let f = flush_stage m c v in let e = skip_unsynced m.clock m.now f.conn h in rw (e, h) refl

flush_stage-off :
    (m : Moment) (c : Conn) (v : Locals)
    → m.state_to_output ≡ false
    → (flush_stage m c v).conn
      ≡ apply_decision (flush_decision m.bytes_per_frame (requests m.backend false c).0)
unfolding flush_stage
flush_stage-off m c v h = rw h refl

-- An iteration with timing information whose flush leaves the connection unsynchronised ends with
-- that connection, and waits.
iterate-unsynced :
    (m : Moment) (c : Conn) (v : Locals)
    → m.clock.have_timing ≡ true
    → (flush_stage m c v).conn.ab_synced ≡ false
    → ((iterate m c v).1 ≡ true) × ((iterate m c v).0.conn ≡ (flush_stage m c v).conn)
iterate-unsynced m c v t h =
    let (e, w) = iterate-timed m c v t in
    let f = flush_stage m c v in
    let p : (stages m c v).conn ≡ f.conn = stages-unsynced m c v h in
    let (r, s) =
      release_unsynced m.clock m.latency_offset m.now (stages m c v).conn (stages m c v).locals
        (ap (λ d. d.ab_synced) p ∙ h) in
    (w ∙ s, e ∙ r ∙ p)

-- When the connection is no longer to be output, one iteration with timing information empties the
-- buffer, ends the request, and waits.
pub iterate_going_off :
    (m : Moment) (c : Conn) (v : Locals)
    → m.clock.have_timing ≡ true
    → m.state_to_output ≡ false
    → c.connection_state_to_output ≡ true
    → let (o, wait) = iterate m c v in
      (wait ≡ true)
      × (o.conn.ab_synced ≡ false)
      × (o.conn.ab_buffering ≡ true)
      × (o.conn.flush_requested ≡ false)
      × (o.conn.connection_state_to_output ≡ false)
iterate_going_off m c v t h o =
    let g = flushed_off m.bytes_per_frame m.backend c o in
    let e : (flush_stage m c v).conn
        ≡ apply_decision (flush_decision m.bytes_per_frame (requests m.backend false c).0) =
      flush_stage-off m c v h in
    let (w, f) = iterate-unsynced m c v t (ap (λ d. d.ab_synced) e ∙ g.0) in
    let q = f ∙ e in (w, rw q g.0, rw q g.1, rw q g.2, rw q g.3)
