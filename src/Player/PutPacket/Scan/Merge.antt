-- ===== src/Player/PutPacket/Scan/Merge.antt =====
-- What a run of missing frames is, when a frame within it is not to be asked for again yet.
use shairport_sync_for_openw.Prelude.{
  ℕ, suc, ◌+◌, ◌^◌, ◌<◌, ◌≡◌, ◌≢◌, refl, ◌∙◌, true, false, none, some, [], ◌∷◌, ◌++◌, u16, arith,
}
use shairport_sync_for_openw.Player.Buffer.{Slot, bufidx}
use shairport_sync_for_openw.Player.PutPacket.Scan.{
  Limits, Scan, is_due, mark_slot, look, advance, or_else, scan, scan_from, scan_fuel, start_scan,
  run_scan,
}
use shairport_sync_for_openw.Player.PutPacket.Scan.Loop.{turn, x-turn, scan-turn, scan-stop}
use shairport_sync_for_openw.Player.PutPacket.Scan.Keeps.{finish-requests, finish-slots}

module _ (l : Limits) (now w : ℕ) where
  marked : (s : Slot) → (mark_slot l now s).ready ≡ s.ready
  unfolding mark_slot
  marked s = ground arith

  marked_due : (s : Slot) → is_due l now s ≡ true → (mark_slot l now s).resend_time ≡ now
  unfolding mark_slot
  marked_due s h = ground (arith, h)

  abbrev count : Scan → ℕ
  count s = elim s.run_start [ none ↦ 1 | some _ ↦ s.run_count + 1 ]

  due_turn :
      (s : Scan)
      → (s.slots (bufidx s.x)).ready ≡ false
      → is_due l now (s.slots (bufidx s.x)) ≡ true
      → u16 (s.x + 1) ≢ w
      → ((turn l now w s).run_start ≡ or_else s.run_start s.x)
        × ((turn l now w s).run_count ≡ count s)
        × ((turn l now w s).requests ≡ s.requests)
        × ((i : ℕ) → bufidx s.x ≢ i → (turn l now w s).slots i ≡ s.slots i)
  unfolding look advance
  due_turn s r d n = (
    ground (arith, marked (s.slots (bufidx s.x))),
    ground (arith, marked (s.slots (bufidx s.x))),
    ground (arith, marked (s.slots (bufidx s.x))),
    λ i h. ground (arith, marked (s.slots (bufidx s.x))),
  )

  not_due_turn :
      (s : Scan)
      → (s.slots (bufidx s.x)).ready ≡ false
      → is_due l now (s.slots (bufidx s.x)) ≡ false
      → u16 (s.x + 1) ≢ w
      → ((turn l now w s).run_start ≡ s.run_start)
        × ((turn l now w s).run_count ≡ s.run_count)
        × ((turn l now w s).requests ≡ s.requests)
        × ((i : ℕ) → bufidx s.x ≢ i → (turn l now w s).slots i ≡ s.slots i)
  unfolding look advance
  not_due_turn s r d n = (
    ground (arith, marked (s.slots (bufidx s.x))),
    ground (arith, marked (s.slots (bufidx s.x))),
    ground (arith, marked (s.slots (bufidx s.x))),
    λ i h. ground (arith, marked (s.slots (bufidx s.x))),
  )

  last_turn :
      (s : Scan) (f : ℕ)
      → l.disable_resend_requests ≡ false
      → (s.slots (bufidx s.x)).ready ≡ false
      → is_due l now (s.slots (bufidx s.x)) ≡ true
      → u16 (s.x + 1) ≡ w
      → s.run_start ≡ some f
      → ((turn l now w s).requests ≡ s.requests ++ (f, s.run_count + 1) ∷ [])
        × (((turn l now w s).slots (bufidx s.x)).resend_time ≡ now)
  unfolding look advance
  last_turn s f o r d n e = (
    ground (arith, marked (s.slots (bufidx s.x)), e, n),
    ground (arith, marked (s.slots (bufidx s.x)), marked_due (s.slots (bufidx s.x)) d),
  )

-- A run that is broken by a missing frame which is not to be asked for yet: of three missing frames
-- before the write pointer, the first and the third are due, and the second is not.
pub record IsBroken (l : Limits) (now : ℕ) (slots : ℕ → Slot) (x : ℕ) : Type 0 where
  pub missing0 : (slots (bufidx x)).ready ≡ false
  pub missing1 : (slots (bufidx (x + 1))).ready ≡ false
  pub missing2 : (slots (bufidx (x + 2))).ready ≡ false
  pub due0 : is_due l now (slots (bufidx x)) ≡ true
  pub due1 : is_due l now (slots (bufidx (x + 1))) ≡ false
  pub due2 : is_due l now (slots (bufidx (x + 2))) ≡ true

module _ (l : Limits) (now x : ℕ) (slots : ℕ → Slot) (h : x + 3 < 2 ^ 16)
    (on : l.disable_resend_requests ≡ false) (b : IsBroken l now slots x) where
  w : ℕ
  w = x + 3

  s0 : Scan
  s0 = start_scan x slots

  s1 : Scan
  s1 = turn l now w s0

  s2 : Scan
  s2 = turn l now w s1

  s3 : Scan
  s3 = turn l now w s2

  s1_x : s1.x ≡ x + 1
  unfolding s1 s0 w
  s1_x = omega (arith, x-turn l now w s0, h)

  s2_x : s2.x ≡ x + 2
  unfolding s2
  s2_x = omega (arith, x-turn l now w s1, h, s1_x)

  s3_x : s3.x ≡ w
  unfolding s3 w
  s3_x = omega (arith, x-turn l now w s2, h, s2_x)

  s1_fields :
      (s1.run_start ≡ some x)
      × (s1.run_count ≡ 1)
      × (s1.requests ≡ [])
      × ((i : ℕ) → bufidx x ≢ i → s1.slots i ≡ slots i)
  unfolding s1 s0
  s1_fields = due_turn l now w s0 b.missing0 b.due0 (unfold w in omega arith)

  s1_slot : s1.slots (bufidx s1.x) ≡ slots (bufidx (x + 1))
  s1_slot = rw s1_x (s1_fields.3 (bufidx (x + 1)) (λ e. omega arith))

  s2_fields :
      (s2.run_start ≡ s1.run_start)
      × (s2.run_count ≡ s1.run_count)
      × (s2.requests ≡ s1.requests)
      × ((i : ℕ) → bufidx s1.x ≢ i → s2.slots i ≡ s1.slots i)
  unfolding s2
  s2_fields =
      not_due_turn l now w s1 (rw s1_slot b.missing1) (rw s1_slot b.due1)
        (unfold w in omega (arith, s1_x))

  s2_slot : s2.slots (bufidx s2.x) ≡ slots (bufidx (x + 2))
  s2_slot = rw s2_x (
      s2_fields.3 (bufidx (x + 2)) (λ e. omega (arith, s1_x, e))
      ∙ s1_fields.3 (bufidx (x + 2)) (λ e. omega arith))

  s3_fields :
      (s3.requests ≡ s2.requests ++ (x, s2.run_count + 1) ∷ [])
      × ((s3.slots (bufidx s2.x)).resend_time ≡ now)
  unfolding s3
  s3_fields =
      last_turn l now w s2 x on (rw s2_slot b.missing2) (rw s2_slot b.due2)
        (unfold w in omega (arith, s2_x)) (s2_fields.0 ∙ s1_fields.0)

  scan-s3 : (fuel : ℕ) → scan l now (suc (suc (suc (suc fuel)))) w s0 ≡ some s3
  unfolding s3 s2 s1
  scan-s3 fuel =
      scan-turn l now w (suc (suc (suc fuel))) s0 (unfold s0 w in omega arith)
      ∙ (scan-turn l now w (suc (suc fuel)) s1 (unfold w in omega (arith, s1_x))
          ∙ (scan-turn l now w (suc fuel) s2 (unfold w in omega (arith, s2_x))
              ∙ scan-stop l now w fuel s3 s3_x))

  -- The one request that is made covers the first two frames, though the second is not due, and the
  -- third, which is noted as asked for, is not in it.
  pub run_scan_merges :
      ((run_scan l now x (x + 3) slots none).requests ≡ (x, 2) ∷ [])
      × (((run_scan l now x (x + 3) slots none).slots (bufidx (x + 2))).resend_time ≡ now)
  unfolding run_scan scan_from
  run_scan_merges =
      let e : scan l now scan_fuel (x + 3) (start_scan x slots) ≡ some s3 =
        unfold w s0 in scan-s3 65533 in
      rw
        (
          e,
          finish-requests (x + 3) (start_scan x slots) s3,
          finish-slots (x + 3) (start_scan x slots) s3,
        )
        (
          s3_fields.0 ∙ (rw (s2_fields.2, s1_fields.2, s2_fields.1, s1_fields.1) refl),
          rw (← s2_x) s3_fields.1,
        )
