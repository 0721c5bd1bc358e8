-- ===== src/Player/Flow.antt =====
-- A packet on its way through the buffer: what `player_put_packet` stores, `buffer_get_frame` gives.
use shairport_sync_for_openw.Prelude.{
  ℕ, ◌+◌, ◌≡◌, refl, sym, ap, ◌∙◌, true, false, if◌then◌else◌, u16,
}
use shairport_sync_for_openw.Player.Buffer.{
  Slot, Conn, bufidx, player_flush, do_flush, reset_input_flow_metrics,
}
use shairport_sync_for_openw.Player.PutPacket.{Packet, Settings, fill_slot, store_packet}
use shairport_sync_for_openw.Player.PutPacket.Place.{store_in_order}
use shairport_sync_for_openw.Player.GetFrame.Release.{take_frame}
use shairport_sync_for_openw.Player.GetFrame.Flush.{flush_decision, apply_decision}
use shairport_sync_for_openw.Player.GetFrame.Flush.Decide.{flush_all, flushed}

-- The frame that is taken from a slot with a packet is that packet.
take_frame-ready :
    (c : Conn) (s : Slot)
    → c.audio_buffer (bufidx c.ab_read) ≡ s
    → s.ready ≡ true
    → ((take_frame c).1 ≡ record s { ready = false })
      × ((take_frame c).0.ab_read ≡ u16 (c.ab_read + 1))
      × ((take_frame c).0.ab_write ≡ c.ab_write)
      × ((take_frame c).0.missing_packets ≡ c.missing_packets)
unfolding take_frame
take_frame-ready c s e r = rw (e, r) (refl, refl, refl, refl)

-- A packet that is stored in an empty buffer, and is not bad, is the next frame that is taken, as it
-- was stored; nothing is counted as missing, and the buffer is empty again.
pub put_then_take :
    (e : Settings) (p : Packet) (c : Conn) (seqno : ℕ)
    → c.ab_synced ≡ true
    → (if p.original_format then p.seqno else c.ab_write) ≡ seqno
    → c.ab_write ≡ seqno
    → c.ab_read ≡ seqno
    → (fill_slot e p seqno (c.audio_buffer (bufidx seqno))).ready ≡ true
    → let d = store_packet e p c in
      ((take_frame d).1
        ≡ record (fill_slot e p seqno (c.audio_buffer (bufidx seqno))) { ready = false })
      × ((take_frame d).0.ab_read ≡ (take_frame d).0.ab_write)
      × ((take_frame d).0.missing_packets ≡ d.missing_packets)
put_then_take e p c seqno s n w r g =
    let (placed, write, read) = store_in_order e p c seqno s n w in
    let d = store_packet e p c in
    let at : d.ab_read ≡ seqno = read ∙ r in
    let q : d.audio_buffer (bufidx d.ab_read)
        ≡ fill_slot e p seqno (c.audio_buffer (bufidx seqno)) =
      ap (λ i. d.audio_buffer (bufidx i)) at ∙ placed.placed in
    let (same, moved, kept, count) =
      take_frame-ready d (fill_slot e p seqno (c.audio_buffer (bufidx seqno))) q g in
    (same, moved ∙ ap (λ i. u16 (i + 1)) at ∙ sym write ∙ sym kept, count)

-- A flush of everything, `player_flush` with frame 0, leaves the player with an empty buffer that is
-- not synchronised, no first packet and no request.
pub player_flush_all :
    (b : ℕ) (c : Conn)
    → let d = apply_decision (flush_decision b (player_flush 0 c).0) in
      (d.ab_synced ≡ false)
      × (d.ab_buffering ≡ true)
      × (d.first_packet_timestamp ≡ 0)
      × (d.flush_requested ≡ false)
      × ((i : ℕ) → (d.audio_buffer (bufidx i)).ready ≡ false)
unfolding player_flush
player_flush_all b c =
    rw
      (flush_all b (do_flush 0 c) (unfold do_flush reset_input_flow_metrics in refl)
        (unfold do_flush reset_input_flow_metrics in refl))
      (flushed (do_flush 0 c))
