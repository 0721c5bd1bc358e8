-- ===== src/Player/PutPacket/Scan/First.antt =====
-- `first_possibly_missing_frame` after the resend checks.
use shairport_sync_for_openw.Prelude.{
  ℕ, ◌+◌, ◌-◌, ◌^◌, ◌<◌, ◌≡◌, ◌≢◌, ◌⊎◌, inl, inr, refl, sym, ◌∙◌, true, false, Option, none, some,
  ◌==◌, u16, sub16, arith, Bool-cases, Option-cases,
}
use shairport_sync_for_openw.Player.Buffer.{Slot, bufidx}
use shairport_sync_for_openw.Player.PutPacket.Scan.{
  Limits, Scan, mark_slot, look, advance, or_else, scan_from, scan_fuel, start_scan, finish,
  run_scan,
}
use shairport_sync_for_openw.Player.PutPacket.Scan.Loop.{turn, x-turn, scan_inv}
use shairport_sync_for_openw.Player.PutPacket.Scan.Keeps.{scan_from-lt}

-- The frames from `x` up to `f` are all there.
abbrev pub AllReady : (ℕ → Slot) → ℕ → ℕ → Type 0
AllReady slots x f = (k : ℕ) → k < sub16 f x → (slots (bufidx (x + k))).ready ≡ true

abbrev MissingAt : (ℕ → Slot) → ℕ → Scan → ℕ → Type 0
MissingAt slots x s f = (0 < s.missing) × AllReady slots x f × ((slots (bufidx f)).ready ≡ false)

record Found (slots : ℕ → Slot) (x w : ℕ) (s : Scan) : Type 0 where
  ready : (i : ℕ) → (s.slots i).ready ≡ (slots i).ready
  nothing : s.first_missing ≡ none → (s.missing ≡ 0) × AllReady slots x s.x
  something : (f : ℕ) → s.first_missing ≡ some f → MissingAt slots x s f
  distance : sub16 w s.x + sub16 s.x x ≡ sub16 w x

module _ (l : Limits) (time_now w x : ℕ) (slots : ℕ → Slot) (hx : x < 2 ^ 16)
    (hw : w < 2 ^ 16) where
  mark_slot-ready : (t : Slot) → (mark_slot l time_now t).ready ≡ t.ready
  unfolding mark_slot
  mark_slot-ready t = ground arith

  look-ready : (s : Scan) (i : ℕ) → ((look l time_now s).slots i).ready ≡ (s.slots i).ready
  unfolding look
  look-ready s i = ground (arith, mark_slot-ready (s.slots (bufidx s.x)))

  turn_fields :
      (s : Scan)
      → ((turn l time_now w s).slots ≡ (look l time_now s).slots)
        × ((turn l time_now w s).missing ≡ (look l time_now s).missing)
        × ((turn l time_now w s).first_missing ≡ (look l time_now s).first_missing)
  unfolding advance
  turn_fields s = (ground arith, ground arith, ground arith)

  AllReady-next :
      (y : ℕ)
      → y < 2 ^ 16
      → sub16 y x < 2 ^ 16 - 1
      → AllReady slots x y
      → (slots (bufidx y)).ready ≡ true
      → AllReady slots x (u16 (y + 1))
  AllReady-next y hy d a r k h = elim (Bool-cases (k == sub16 y x)) [
    | inl e ↦ let q : bufidx (x + k) ≡ bufidx y = ground arith in rw q r
    | inr e ↦ a k (ground arith)
  ]

  look_cases :
      (s : Scan)
      → ((s.slots (bufidx s.x)).ready ≡ true)
          × ((look l time_now s).missing ≡ s.missing)
          × ((look l time_now s).first_missing ≡ s.first_missing)
        ⊎ ((s.slots (bufidx s.x)).ready ≡ false)
          × ((look l time_now s).missing ≡ s.missing + 1)
          × ((look l time_now s).first_missing ≡ or_else s.first_missing s.x)
  unfolding look
  look_cases s = ground arith

  turn_nothing :
      (s : Scan)
      → s.x < 2 ^ 16
      → s.x ≢ w
      → Found slots x w s
      → (turn l time_now w s).first_missing ≡ none
      → ((turn l time_now w s).missing ≡ 0) × AllReady slots x (turn l time_now w s).x
  turn_nothing s h n v e = elim (look_cases s) [
    | inl (r, m, f) ↦
        let z = v.nothing (ground (arith, e, f, turn_fields s)) in
        (
          ground (arith, m, z.0, turn_fields s),
          rw (x-turn l time_now w s) (
              AllReady-next s.x h (omega (arith, v.distance)) z.1 (sym (v.ready (bufidx s.x)) ∙ r)),
        )
    | inr (r, m, f) ↦ absurd (ground (arith, e, f, turn_fields s))
  ]

  turn_something :
      (s : Scan)
      → s.x < 2 ^ 16
      → Found slots x w s
      → (y : ℕ) → (turn l time_now w s).first_missing ≡ some y
      → MissingAt slots x (turn l time_now w s) y
  turn_something s h v y e = elim (look_cases s) [
    | inl (r, m, f) ↦
        let z = v.something y (ground (arith, e, f, turn_fields s)) in
        (ground (arith, m, z.0, turn_fields s), z.1, z.2)
    | inr (r, m, f) ↦ elim (Option-cases s.first_missing) [
      | inl q ↦
          let z = v.nothing q in
          let p : s.x ≡ y = ground (arith, e, f, q, turn_fields s) in
          (
            ground (arith, m, turn_fields s),
            rw (← p) z.1,
            rw (← p) (sym (v.ready (bufidx s.x)) ∙ r),
          )
      | inr (u, q) ↦
          let z = v.something y (ground (arith, e, f, q, turn_fields s)) in
          (ground (arith, m, turn_fields s), z.1, z.2)
    ]
  ]

  turn-Found :
      (s : Scan)
      → s.x < 2 ^ 16
      → s.x ≢ w
      → Found slots x w s
      → Found slots x w (turn l time_now w s)
  turn-Found s h n v = record {
    ready = λ i. rw (turn_fields s).0 (look-ready s i ∙ v.ready i);
    nothing = turn_nothing s h n v;
    something = turn_something s h v;
    distance = omega (arith, x-turn l time_now w s, v.distance);
  }

  start-Found : Found slots x w (start_scan x slots)
  start-Found = record {
    ready = λ i. refl;
    nothing = λ _. (refl, λ k h. absurd (omega arith));
    something = λ f h. absurd cc;
    distance = omega arith;
  }

  finish-Found :
      (a t : Scan)
      → t.x ≡ w
      → Found slots x w t
      → (f : ℕ) × ((finish w a (some t)).first_missing ≡ some f)
        × AllReady slots x f
        × ((f ≡ w) ⊎ ((slots (bufidx f)).ready ≡ false))
  finish-Found a t e v = elim (Option-cases t.first_missing) [
    | inl q ↦
        let z = v.nothing q in (w, unfold finish in ground (arith, z.0), rw e at z.1, inl refl)
    | inr (f, q) ↦
        let z = v.something f q in (f, unfold finish in ground (arith, z.0, q), z.1, inr z.2)
  ]

-- After the resend checks the static variable is the first frame, from where the checks began, whose
-- packet is missing, or the write pointer if none is.
pub run_scan_finds :
    (l : Limits) (now r w : ℕ) (slots : ℕ → Slot) (f : Option ℕ)
    → r < 2 ^ 16
    → w < 2 ^ 16
    → ((y : ℕ) → f ≡ some y → y < 2 ^ 16)
    → (y : ℕ) × ((run_scan l now r w slots f).first_missing ≡ some y)
      × AllReady slots (scan_from r w f) y
      × ((y ≡ w) ⊎ ((slots (bufidx y)).ready ≡ false))
unfolding run_scan
run_scan_finds l now r w slots f hr hw hf =
    let x : ℕ = scan_from r w f in
    let hx : x < 2 ^ 16 = scan_from-lt r w f hr hf in
    let (t, e, ex, k) =
      scan_inv l now w (Found slots x w) (turn-Found l now w x slots hx hw) scan_fuel
        (start_scan x slots) hx hw (omega arith) (start-Found l now w x slots hx hw) in
    rw e (finish-Found l now w x slots hx hw (start_scan x slots) t ex k)
