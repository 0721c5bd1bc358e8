-- ===== src/Rtp/Receivers/Sync/Bounds.antt =====
-- The latency that a sync packet of src/rtp.c gives fits in the buffer.
use mathlib.Core.Path.{subst}
use shairport_sync_for_openw.Prelude.{
  ℕ, ◌-◌, ◌*◌, ◌^◌, ◌≤◌, ◌<◌, ◌≡◌, inl, inr, refl, arith, Bool, true, false, List, [], ◌∷◌, ltb,
  ◌==◌, ◌||◌, get_or, Bool-cases, u32, sub32,
}
use shairport_sync_for_openw.Prelude.Int.{ℤ, pos, negsuc, pos_part, ◌+ℤ◌, ltb_ℤ, signed32}
use shairport_sync_for_openw.Common.Bytes.{nctohs, nctohl}
use shairport_sync_for_openw.Rtp.Receivers.{
  Recv, datagram, failed, overwrite, ControlReceiver, Link, receive_control, control_round,
  control_loop, rtp_control_receiver,
}
use shairport_sync_for_openw.Rtp.Receivers.Sync.{
  SyncSettings, SyncState, max_frames, offset_latency, clamp_latency, buffer_limit, adjust_latency,
  new_latency, handle_sync,
}

-- All frames that the buffer can hold.
abbrev pub buffer_size : SyncSettings → ℕ
buffer_size e = e.max_frames_per_packet * 1024

-- The settings are sensible: no latency is given by the user, the headroom is no more than the
-- buffer, and the buffer holds the greatest latency that may be asked for.
pub record IsSensible (e : SyncSettings) : Type 0 where
  pub by_sender : e.user_supplied_latency ≡ 0
  pub headroom : e.minimum_free_buffer_headroom ≤ 1024
  pub not_small : max_frames ≤ buffer_size e
  pub not_large : buffer_size e < 2 ^ 31

product_le : (m k : ℕ) → k ≤ 1024 → m * k ≤ m * 1024
product_le m k h = grind arith

or-false : (a b : Bool) → (a || b) ≡ false → (a ≡ false) × (b ≡ false)
or-false a b h = (ground arith, ground arith)

not_negative : (z : ℤ) → ltb_ℤ z (pos 0) ≡ false → z ≡ pos (pos_part z)
not_negative (pos n) h = refl
not_negative (negsuc n) h = absurd (ground arith)

module _ (e : SyncSettings) (h : IsSensible e) where
  limit-le : (x : ℕ) → ltb_ℤ (buffer_limit e) (pos x) ≡ false → x ≤ buffer_size e
  limit-le x k =
      let n = e.minimum_free_buffer_headroom in
      let room : sub32 1024 n ≡ 1024 - n = omega (arith, h.headroom) in
      let p = product_le e.max_frames_per_packet (1024 - n) (omega arith) in
      let g : ltb_ℤ (signed32 (u32 (e.max_frames_per_packet * (1024 - n)))) (pos x) ≡ false =
        rw room at k in
      ground (arith, p, h.not_large)

  adjust_latency-le : (la : ℕ) → la ≤ max_frames → adjust_latency e la ≤ buffer_size e
  unfolding adjust_latency
  adjust_latency-le la k =
      let adjusted = e.latency_offset +ℤ pos la in
      elim (Bool-cases (ltb_ℤ adjusted (pos 0) || ltb_ℤ (buffer_limit e) adjusted)) [
        | inl out ↦ rw out (omega (arith, h.not_small))
        | inr within ↦
            let (n, g) =
              or-false (ltb_ℤ adjusted (pos 0)) (ltb_ℤ (buffer_limit e) adjusted) within in
            let is_pos = not_negative adjusted n in
            let g' : ltb_ℤ (buffer_limit e) (pos (pos_part adjusted)) ≡ false =
              subst (λ z. ltb_ℤ (buffer_limit e) z ≡ false) is_pos g in
            rw within (limit-le (pos_part adjusted) g')
      ]

  -- A new latency fits in the buffer if the old one does.
  pub new_latency-le :
      (flags la latency : ℕ)
      → latency ≤ buffer_size e
      → new_latency e flags la latency ≤ buffer_size e
  unfolding new_latency
  new_latency-le flags la latency k =
      let by_sender : (e.user_supplied_latency == 0) ≡ true = ground (arith, h.by_sender) in
      let asked = clamp_latency e (offset_latency e flags la) in
      elim (Bool-cases (ltb max_frames asked)) [
        | inl out ↦ rw (by_sender, out) k
        | inr within ↦ rw (by_sender, within) (adjust_latency-le asked (ground arith))
      ]

  handle_sync-le :
      (n : ℕ) (packet : List ℕ) (s : SyncState)
      → s.latency ≤ buffer_size e
      → (handle_sync e n packet s).latency ≤ buffer_size e
  unfolding handle_sync
  handle_sync-le n packet s k =
      new_latency-le (nctohs 2 packet) (sub32 (nctohl 16 packet) (nctohl 4 packet)) s.latency k

  control_round-le :
      (l : Link) (i : Recv) (c : ControlReceiver)
      → c.sync.latency ≤ buffer_size e
      → (control_round e l i c).0.sync.latency ≤ buffer_size e
  unfolding control_round receive_control
  control_round-le l failed c k = k
  control_round-le l (datagram d) c k =
      let packet = overwrite d c.packet in
      elim (Bool-cases (l.rtsp_link_is_idle || l.dropped)) [
        | inl idle ↦ rw idle k
        | inr busy ↦ elim (Bool-cases (get_or packet 1 0 == 212)) [
          | inl sync ↦ elim (Bool-cases l.time_is_known) [
            | inl known ↦
                rw (busy, sync, known) (handle_sync-le l.packet_count_since_flush packet c.sync k)
            | inr unknown ↦ rw (busy, sync, unknown) k
          ]
          | inr other ↦ elim (Bool-cases (get_or packet 1 0 == 214)) [
            | inl again ↦ rw (busy, other, again) k
            | inr unknown ↦ rw (busy, other, unknown) k
          ]
        ]
      ]

  control_loop-le :
      (is : List (Link × Recv)) (c : ControlReceiver)
      → c.sync.latency ≤ buffer_size e
      → (control_loop e is c).0.sync.latency ≤ buffer_size e
  unfolding control_loop
  control_loop-le [] c k = k
  control_loop-le ((l, i) ∷ is) c k =
      control_loop-le is (control_round e l i c).0 (control_round-le l i c k)

  -- With sensible settings, a latency that fits in the buffer at first fits in it after whatever
  -- packets and errors the control receiver gets: no sender can ask for more than the buffer holds.
  pub latency_fits :
      (is : List (Link × Recv)) (c : ControlReceiver)
      → c.sync.latency ≤ buffer_size e
      → (rtp_control_receiver e is c).0.sync.latency ≤ buffer_size e
  unfolding rtp_control_receiver
  latency_fits is c k =
      control_loop-le is
        (record c {
          sync = record (c.sync) { anchor = record (c.sync.anchor) { anchor_rtptime = 0 } };
        })
        k
