-- ===== src/Player/GetFrame/Flush/Decide.antt =====
-- What a flush request does to the buffer, case by case.
use shairport_sync_for_openw.Prelude.{
  ℕ, ◌+◌, ◌-◌, ◌≤◌, ◌<◌, ◌≡◌, inl, inr, refl, Bool, true, false, Option, none, some, ltb, ◌==◌,
  if◌then◌else◌, u32, sub32, arith, Bool-cases,
}
use shairport_sync_for_openw.Player.Buffer.{Slot, Conn, bufidx, ab_resync, buffer_frames}
use shairport_sync_for_openw.Player.GetFrame.Flush.{
  output_state, backend_state, flush_output, requests, is_positive, is_nonnegative, last_frame,
  flush_to, flush_within, flush_decision, flush_buffer, clear_request, apply_decision,
}

-- The first and the last packet of the buffer.
abbrev pub first_packet : Conn → Slot
first_packet c = c.audio_buffer (bufidx c.ab_read)

abbrev pub last_packet : Conn → Slot
last_packet c = c.audio_buffer (bufidx (c.ab_write - 1))

-- A request for a frame other than 0, with packets from `ab_read` to `ab_write`, the first and the
-- last of them ready.
pub record Pending (c : Conn) : Type 0 where
  pub requested : c.flush_requested ≡ true
  pub nonzero : (c.flush_rtp_timestamp == 0) ≡ false
  pub synced : c.ab_synced ≡ true
  pub in_order : c.ab_read < c.ab_write
  pub first_ready : (first_packet c).ready ≡ true
  pub last_ready : (last_packet c).ready ≡ true

flush_decision-Pending :
    (b : ℕ) (c : Conn)
    → Pending c
    → flush_decision b c
      ≡ flush_within b (first_packet c).given_timestamp (last_frame (last_packet c)) c
unfolding flush_decision
flush_decision-Pending b c p =
    let t : ltb c.ab_read c.ab_write ≡ true = ground (arith, p.in_order) in
    simp (p.requested, p.nonzero, p.synced, t, p.first_ready, p.last_ready)

-- No request: nothing is done.
pub flush_none :
    (b : ℕ) (c : Conn) → c.flush_requested ≡ false → apply_decision (flush_decision b c) ≡ c
unfolding flush_decision apply_decision
flush_none b c h = simp h

-- A request for frame 0 empties the buffer and ends the request.
pub flush_all :
    (b : ℕ) (c : Conn)
    → c.flush_requested ≡ true
    → c.flush_rtp_timestamp ≡ 0
    → apply_decision (flush_decision b c) ≡ clear_request (flush_buffer c)
unfolding flush_decision apply_decision
flush_all b c h z = simp (h, z)

-- A frame at or before the first frame in the buffer: the request is dropped, the buffer is kept.
pub flush_before :
    (b : ℕ) (c : Conn)
    → Pending c
    → is_positive (sub32 c.flush_rtp_timestamp (first_packet c).given_timestamp) ≡ false
    → apply_decision (flush_decision b c) ≡ clear_request c
unfolding apply_decision flush_within
flush_before b c p h = rw (flush_decision-Pending b c p, h) refl

-- A frame after the first and not after the last frame in the buffer: the buffer is cut there and the
-- request is dropped.
pub flush_inside :
    (b : ℕ) (c : Conn)
    → Pending c
    → is_positive (sub32 c.flush_rtp_timestamp (first_packet c).given_timestamp) ≡ true
    → is_nonnegative (sub32 (last_frame (last_packet c)) c.flush_rtp_timestamp) ≡ true
    → apply_decision (flush_decision b c) ≡ clear_request (flush_to b c)
unfolding apply_decision flush_within
flush_inside b c p h l = rw (flush_decision-Pending b c p, h, l) refl

-- A frame after the last frame in the buffer: the buffer is emptied, and the request is kept unless
-- the frame is the very next one.
pub flush_beyond :
    (b : ℕ) (c : Conn)
    → Pending c
    → is_positive (sub32 c.flush_rtp_timestamp (first_packet c).given_timestamp) ≡ true
    → is_nonnegative (sub32 (last_frame (last_packet c)) c.flush_rtp_timestamp) ≡ false
    → apply_decision (flush_decision b c) ≡ (
        if c.flush_rtp_timestamp == u32 (last_frame (last_packet c) + 1)
        then clear_request (flush_buffer c)
        else flush_buffer c)
unfolding apply_decision flush_within
flush_beyond b c p h l = rw (flush_decision-Pending b c p, h, l) refl

-- With no packets in the buffer, or with the write pointer wrapped and the read pointer not, a
-- request for a frame is discarded and nothing is flushed.
pub flush_discarded :
    (b : ℕ) (c : Conn)
    → c.flush_requested ≡ true
    → (c.flush_rtp_timestamp == 0) ≡ false
    → c.ab_write ≤ c.ab_read
    → apply_decision (flush_decision b c) ≡ record c { flush_requested = false }
unfolding flush_decision apply_decision
flush_discarded b c h z w =
    let t : ltb c.ab_read c.ab_write ≡ false = ground arith in
    elim (Bool-cases c.ab_synced) [ inl s ↦ simp (h, z, s, t) | inr s ↦ simp (h, z, s) ]

-- When the connection is no longer to be output, a request for frame 0 is there, whatever the back
-- end answers.
pub requests_off :
    (backend : Option Bool) (c : Conn)
    → c.connection_state_to_output ≡ true
    → (((requests backend false c).0).flush_requested ≡ true)
      × (((requests backend false c).0).flush_rtp_timestamp ≡ 0)
      × (((requests backend false c).0).connection_state_to_output ≡ false)
unfolding requests flush_output backend_state output_state
requests_off none c h = simp h (refl, refl, refl)
requests_off (some true) c h = simp h (refl, refl, refl)
requests_off (some false) c h = simp h (refl, refl, refl)

-- After that request the buffer is empty and the connection not synchronised.
pub flushed_off :
    (b : ℕ) (backend : Option Bool) (c : Conn)
    → c.connection_state_to_output ≡ true
    → let c' = apply_decision (flush_decision b (requests backend false c).0) in
      (c'.ab_synced ≡ false)
      × (c'.ab_buffering ≡ true)
      × (c'.flush_requested ≡ false)
      × (c'.connection_state_to_output ≡ false)
flushed_off b backend c h =
    let (q, z, y) = requests_off backend c h in
    rw (flush_all b ((requests backend false c).0) q z)
      (unfold clear_request flush_buffer ab_resync in (refl, refl, refl, y))

slot_emptied : (c : Conn) (i : ℕ) → ((ab_resync c).audio_buffer (bufidx i)).ready ≡ false
unfolding ab_resync
slot_emptied c i = let t : ltb (bufidx i) buffer_frames ≡ true = ground arith in simp t

-- What is left of a connection whose buffer is emptied and whose request is ended.
pub flushed :
    (c : Conn)
    → let d = clear_request (flush_buffer c) in
      (d.ab_synced ≡ false)
      × (d.ab_buffering ≡ true)
      × (d.first_packet_timestamp ≡ 0)
      × (d.flush_requested ≡ false)
      × ((i : ℕ) → (d.audio_buffer (bufidx i)).ready ≡ false)
unfolding clear_request flush_buffer ab_resync
flushed c = (refl, refl, refl, refl, λ i. slot_emptied c i)
