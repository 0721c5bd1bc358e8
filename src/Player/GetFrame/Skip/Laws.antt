-- ===== src/Player/GetFrame/Skip/Laws.antt =====
-- Which packets are skipped.
use shairport_sync_for_openw.Prelude.{
  ℕ, zero, suc, ◌+◌, ◌-◌, ◌^◌, ◌≤◌, ◌<◌, ◌≡◌, inl, inr, true, false, ◌==◌, u16, arith, Bool-cases,
}
use shairport_sync_for_openw.Player.Buffer.{Slot, Conn, bufidx}
use shairport_sync_for_openw.Player.GetFrame.Clock.{Clock}
use shairport_sync_for_openw.Player.GetFrame.Skip.{
  is_out_of_date, skip_packets, skip_out_of_date, time_to_aim_for, resolve_alias,
}

-- The pointer comes to rest at the first packet from `r` that is in date, or at the end, `w`.
pub record Rests (f : ℕ) (slots : ℕ → Slot) (r w r' : ℕ) : Type 0 where
  pub from : r ≤ r'
  pub upto : r' ≤ w
  pub skipped : (i : ℕ) → r ≤ i → i < r' → is_out_of_date f (slots (bufidx i)) ≡ true
  pub stopped : r' < w → is_out_of_date f (slots (bufidx r')) ≡ false

skip_packets-Rests :
    (n f : ℕ) (slots : ℕ → Slot) (r w : ℕ)
    → r + n ≡ w
    → w < 2 ^ 16
    → Rests f slots r w (skip_packets n f slots r)
unfolding skip_packets
skip_packets-Rests zero f slots r w e h = record {
  from = omega arith;
  upto = omega arith;
  skipped = λ i p q. absurd (omega arith);
  stopped = λ p. absurd (omega arith);
}
skip_packets-Rests (suc n) f slots r w e h =
    elim (Bool-cases (is_out_of_date f (slots (bufidx r)))) [
      | inl t ↦
          let z : u16 (r + 1) ≡ r + 1 = omega arith in
          let g : Rests f slots (r + 1) w (skip_packets n f slots (r + 1)) =
            skip_packets-Rests n f slots (r + 1) w (omega arith) h in
          rw (t, z)
            (record {
              from = omega (arith, g.from);
              upto = g.upto;
              skipped = λ i p q. elim (Bool-cases (i == r)) [
                | inl a ↦ let b : i ≡ r = ground arith in rw b t
                | inr a ↦ g.skipped i (ground arith) q
              ];
              stopped = g.stopped;
            })
      | inr t ↦ rw t (record {
        from = omega arith;
        upto = omega arith;
        skipped = λ i p q. absurd (omega arith);
        stopped = λ p. t;
      })
    ]

-- With the pointers in order, exactly the packets before the first one in date are skipped, and
-- nothing but the read pointer changes.
pub skip_out_of_date-Rests :
    (k : Clock) (now : ℕ) (c : Conn)
    → c.ab_synced ≡ true
    → c.ab_read ≤ c.ab_write
    → c.ab_write < 2 ^ 16
    → (r : ℕ) × (skip_out_of_date k now c ≡ record c { ab_read = r })
      × Rests
          (Clock.local_time_to_frame k (time_to_aim_for now c))
          c.audio_buffer
          c.ab_read
          c.ab_write
          r
unfolding skip_out_of_date
skip_out_of_date-Rests k now c s h w = (
  _,
  simp s,
  skip_packets-Rests (c.ab_write - c.ab_read) (Clock.local_time_to_frame k (time_to_aim_for now c))
      c.audio_buffer c.ab_read c.ab_write (omega arith) w,
)

-- Once the write pointer has wrapped and the read pointer has not, no packet is skipped, however
-- late it is.
pub skip_out_of_date_wrapped :
    (k : Clock) (now : ℕ) (c : Conn) → c.ab_write < c.ab_read → skip_out_of_date k now c ≡ c
unfolding skip_out_of_date
skip_out_of_date_wrapped k now c h =
    let z : c.ab_write - c.ab_read ≡ 0 = omega arith in rw z (unfold skip_packets in ground arith)

pub skip_unsynced :
    (k : Clock) (now : ℕ) (c : Conn)
    → c.ab_synced ≡ false
    → resolve_alias (skip_out_of_date k now c) ≡ c
unfolding skip_out_of_date resolve_alias
skip_unsynced k now c h = simp h
