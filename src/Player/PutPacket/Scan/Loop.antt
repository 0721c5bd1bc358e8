-- ===== src/Player/PutPacket/Scan/Loop.antt =====
-- The loop of the resend checks ends: an invariant rule with enough fuel.
use shairport_sync_for_openw.Prelude.{
  ℕ, zero, suc, ◌+◌, ◌^◌, ◌<◌, ◌≡◌, ◌≢◌, inl, inr, some, ◌==◌, u16, sub16, arith, Bool-cases,
}
use shairport_sync_for_openw.Player.PutPacket.Scan.{Limits, Scan, look, advance, scan}

module _ (l : Limits) (time_now ab_write : ℕ) where
  abbrev pub turn : Scan → Scan
  turn s = advance l time_now ab_write (look l time_now s)

  pub x-turn : (s : Scan) → (turn s).x ≡ u16 (s.x + 1)
  unfolding look advance
  x-turn s = ground arith

  pub scan-turn :
      (fuel : ℕ) (s : Scan)
      → s.x ≢ ab_write
      → scan l time_now (suc fuel) ab_write s ≡ scan l time_now fuel ab_write (turn s)
  unfolding scan
  scan-turn fuel s h = ground arith

  pub scan-stop :
      (fuel : ℕ) (s : Scan) → s.x ≡ ab_write → scan l time_now (suc fuel) ab_write s ≡ some s
  unfolding scan
  scan-stop fuel s e = ground arith

  -- The invariant rule for the loop, with enough fuel.
  pub scan_inv :
      (P : Scan → Type 0)
      → ((s : Scan) → s.x < 2 ^ 16 → s.x ≢ ab_write → P s → P (turn s))
      → (fuel : ℕ) (s : Scan) → s.x < 2 ^ 16
      → ab_write < 2 ^ 16
      → sub16 ab_write s.x < fuel
      → P s
      → (t : Scan) × (scan l time_now fuel ab_write s ≡ some t) × (t.x ≡ ab_write) × P t
  scan_inv P keep zero s h w f p = absurd (omega arith)
  scan_inv P keep (suc fuel) s h w f p = elim (Bool-cases (s.x == ab_write)) [
    | inl e ↦ (s, unfold scan in rw e, ground arith, p)
    | inr e ↦
        let n : s.x ≢ ab_write = ground arith in
        rw (scan-turn fuel s n) (
          scan_inv P keep fuel (turn s) (omega (arith, x-turn s)) w (omega (arith, x-turn s))
            (keep s h n p))
  ]
