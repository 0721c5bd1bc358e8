-- ===== src/Player/PutPacket/Place.antt =====
-- Where `player_put_packet` puts a packet, on every branch.
use shairport_sync_for_openw.Prelude.{
  ℕ, ◌+◌, ◌-◌, ◌<◌, ◌≡◌, ◌≢◌, inl, inr, refl, ap, true, false, ◌==◌, if◌then◌else◌, u16, u64, arith,
  Bool-cases, none, some,
}
use shairport_sync_for_openw.Player.Buffer.{Slot, Conn, bufidx, is_after}
use shairport_sync_for_openw.Player.PutPacket.{
  Packet, Settings, mark_missing, measure_start, locate, sync_packet, fill_slot, fill_located,
  store_packet,
}

-- The packet is in the slot of its sequence number, and the others are as in `slots`.
pub record IsPlaced (e : Settings) (p : Packet) (seqno : ℕ) (slots : ℕ → Slot) (c : Conn)
    : Type 0 where
  pub placed : c.audio_buffer (bufidx seqno) ≡ fill_slot e p seqno (slots (bufidx seqno))
  pub others : (i : ℕ) → bufidx seqno ≢ i → c.audio_buffer i ≡ slots i

module _ (e : Settings) (p : Packet) (c : Conn) where
  measure_keeps : (measure_start p c).audio_buffer ≡ c.audio_buffer
  unfolding measure_start
  measure_keeps = ground arith

  measure_keeps_read : (measure_start p c).ab_read ≡ c.ab_read
  unfolding measure_start
  measure_keeps_read = ground arith

  store_packet-synced :
      (seqno : ℕ)
      → c.ab_synced ≡ true
      → (if p.original_format then p.seqno else c.ab_write) ≡ seqno
      → store_packet e p c ≡ fill_located e p seqno (locate p seqno c)
  unfolding store_packet
  store_packet-synced seqno s n =
      let q : sync_packet p c ≡ (c, seqno) = unfold sync_packet in simp s (ap (λ k. (c, k)) n) in
      rw q

  locate-expected :
      (seqno : ℕ)
      → c.ab_write ≡ seqno
      → locate p seqno c ≡ (
        record (measure_start p c) {
          measurement_time = p.time_now;
          frames_received_at_measurement = p.actual_timestamp;
          ab_write = u16 (seqno + 1);
        },
        some (bufidx seqno),
      )
  unfolding locate
  locate-expected seqno w = let t : (c.ab_write == seqno) ≡ true = ground arith in rw t

  locate-ahead :
      (seqno : ℕ)
      → c.ab_write ≢ seqno
      → is_after c.ab_write seqno ≡ true
      → locate p seqno c ≡ (
        record c {
          audio_buffer = mark_missing p.time_now (seqno - c.ab_write) c.ab_write c.audio_buffer;
          ab_write = u16 (seqno + 1);
        },
        some (bufidx seqno),
      )
  unfolding locate
  locate-ahead seqno w a = let t : (c.ab_write == seqno) ≡ false = ground arith in rw (t, a)

  locate-late :
      (seqno : ℕ)
      → c.ab_write ≢ seqno
      → is_after c.ab_write seqno ≡ false
      → is_after c.ab_read seqno ≡ true
      → locate p seqno c
        ≡ (record c { late_packets = u64 (c.late_packets + 1) }, some (bufidx seqno))
  unfolding locate
  locate-late seqno w a b = let t : (c.ab_write == seqno) ≡ false = ground arith in rw (t, a, b)

  locate-too_late :
      (seqno : ℕ)
      → c.ab_write ≢ seqno
      → is_after c.ab_write seqno ≡ false
      → is_after c.ab_read seqno ≡ false
      → locate p seqno c ≡ (record c { too_late_packets = u64 (c.too_late_packets + 1) }, none)
  unfolding locate
  locate-too_late seqno w a b = let t : (c.ab_write == seqno) ≡ false = ground arith in rw (t, a, b)

  update-IsPlaced :
      (seqno : ℕ) (slots : ℕ → Slot) (d : Conn)
      → d.audio_buffer ≡ slots
      → IsPlaced e p seqno slots (fill_located e p seqno (d, some (bufidx seqno)))
  update-IsPlaced seqno slots d q = record {
    placed = rw q (ground arith);
    others = λ i h. rw q (ground arith);
  }

  -- A packet that comes in order goes into its slot, and the write pointer moves on; so does a
  -- decoded packet, whatever number it has.
  pub store_in_order :
      (seqno : ℕ)
      → c.ab_synced ≡ true
      → (if p.original_format then p.seqno else c.ab_write) ≡ seqno
      → c.ab_write ≡ seqno
      → IsPlaced e p seqno c.audio_buffer (store_packet e p c)
        × ((store_packet e p c).ab_write ≡ u16 (seqno + 1))
        × ((store_packet e p c).ab_read ≡ c.ab_read)
  store_in_order seqno s n w =
      rw (store_packet-synced seqno s n, locate-expected seqno w)
        (update-IsPlaced seqno c.audio_buffer _ measure_keeps, refl, measure_keeps_read)

  -- A packet ahead of the expected one whose number has wrapped: none of the skipped frames is
  -- marked missing, for the gap is computed without wrapping and comes out negative.
  pub store_ahead_wrapped :
      c.ab_synced ≡ true
      → p.original_format ≡ true
      → is_after c.ab_write p.seqno ≡ true
      → p.seqno < c.ab_write
      → IsPlaced e p p.seqno c.audio_buffer (store_packet e p c)
        × ((store_packet e p c).ab_write ≡ u16 (p.seqno + 1))
  store_ahead_wrapped s o a lt =
      let n : (if p.original_format then p.seqno else c.ab_write) ≡ p.seqno = rw o in
      let z : p.seqno - c.ab_write ≡ 0 = omega arith in
      rw (store_packet-synced p.seqno s n, locate-ahead p.seqno (λ q. omega arith) a, z)
        (unfold mark_missing in (update-IsPlaced p.seqno c.audio_buffer _ refl, refl))

  -- A packet behind the expected one goes into its slot if it is after the read pointer, and is
  -- dropped if not; the pointers stay, and it is counted.
  pub store_late :
      c.ab_synced ≡ true
      → p.original_format ≡ true
      → c.ab_write ≢ p.seqno
      → is_after c.ab_write p.seqno ≡ false
      → ((store_packet e p c).ab_write ≡ c.ab_write)
        × ((store_packet e p c).ab_read ≡ c.ab_read)
        × (if is_after c.ab_read p.seqno
            then IsPlaced e p p.seqno c.audio_buffer (store_packet e p c)
              × ((store_packet e p c).late_packets ≡ u64 (c.late_packets + 1))
            else ((store_packet e p c).audio_buffer ≡ c.audio_buffer)
              × ((store_packet e p c).too_late_packets ≡ u64 (c.too_late_packets + 1)))
  store_late s o n a =
      let m : (if p.original_format then p.seqno else c.ab_write) ≡ p.seqno = rw o in
      elim (Bool-cases (is_after c.ab_read p.seqno)) [
        | inl t ↦
            rw (t, store_packet-synced p.seqno s m, locate-late p.seqno n a t)
              (refl, refl, (update-IsPlaced p.seqno c.audio_buffer _ refl, refl))
        | inr t ↦
            rw (t, store_packet-synced p.seqno s m, locate-too_late p.seqno n a t)
              (refl, refl, (refl, refl))
      ]
