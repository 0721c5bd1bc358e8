-- ===== src/Player/PutPacket/Scan/Keeps.antt =====
-- What the resend checks leave alone, and what they ask for.
use mathlib.Core.Path.{subst}
use shairport_sync_for_openw.Prelude.{
  ℕ, ◌^◌, ◌<◌, ◌≡◌, ◌⊎◌, inl, inr, refl, true, false, Option, none, some, [], ◌∷◌, ◌++◌, ◌==◌,
  if◌then◌else◌, arith, Bool-cases, Option-cases, All, All-append, not, ◌&&◌,
}
use shairport_sync_for_openw.Player.Buffer.{Slot, bufidx}
use shairport_sync_for_openw.Player.PutPacket.Scan.{
  Limits, Scan, mark_slot, look, advance, scan_from, scan_fuel, start_scan, finish, run_scan,
}
use shairport_sync_for_openw.Player.PutPacket.Scan.Loop.{turn, scan_inv}

-- The packet is as it was: only the flags and the record of the requests may differ, and these
-- only if the packet is missing.
pub record SameData (s t : Slot) : Type 0 where
  pub ready : t.ready ≡ s.ready
  pub samples : t.samples ≡ s.samples
  pub given_timestamp : t.given_timestamp ≡ s.given_timestamp
  pub length : t.length ≡ s.length
  pub sequence_number : t.sequence_number ≡ s.sequence_number
  pub initialisation_time : t.initialisation_time ≡ s.initialisation_time
  pub untouched : s.ready ≡ true → t ≡ s

-- A request starts at a missing frame, and is for at least one.
abbrev pub IsAsked : (ℕ → Slot) → ℕ × ℕ → Type 0
IsAsked slots (first, count) = (0 < count) × ((slots (bufidx first)).ready ≡ false)

pub record Kept (slots : ℕ → Slot) (s : Scan) : Type 0 where
  pub same : (i : ℕ) → SameData (slots i) (s.slots i)
  pub asked : All (IsAsked slots) s.requests
  pub started : (f : ℕ) → s.run_start ≡ some f → (slots (bufidx f)).ready ≡ false

module _ (l : Limits) (time_now ab_write : ℕ) where
  mark_slot-SameData :
      (s t : Slot) → t.ready ≡ false → SameData s t → SameData s (mark_slot l time_now t)
  unfolding mark_slot
  mark_slot-SameData s t h e = ground arith

  slots-look :
      (s : Scan) (i : ℕ)
      → (look l time_now s).slots i ≡ (
          if not (s.slots (bufidx s.x)).ready && bufidx s.x == i
          then mark_slot l time_now (s.slots (bufidx s.x))
          else s.slots i)
  unfolding look
  slots-look s i = ground arith

  SameData-look :
      (slots : ℕ → Slot) (s : Scan) (i : ℕ)
      → ((i : ℕ) → SameData (slots i) (s.slots i))
      → SameData (slots i) ((look l time_now s).slots i)
  SameData-look slots s i h =
      rw (slots-look s i) (elim (Bool-cases (not (s.slots (bufidx s.x)).ready && bufidx s.x == i)) [
        | inl e ↦
            let q : bufidx s.x ≡ i = ground arith in
            let r : (s.slots (bufidx s.x)).ready ≡ false = ground arith in
            rw e (
              subst (λ k. SameData (slots k) (mark_slot l time_now (s.slots (bufidx s.x)))) q
                (mark_slot-SameData (slots (bufidx s.x)) (s.slots (bufidx s.x)) r (h (bufidx s.x))))
        | inr e ↦ rw e (h i)
      ])

  slots-advance : (s : Scan) → (advance l time_now ab_write s).slots ≡ s.slots
  unfolding advance
  slots-advance s = ground arith

  started-look :
      (slots : ℕ → Slot) (s : Scan)
      → Kept slots s
      → (f : ℕ) → (look l time_now s).run_start ≡ some f
      → (slots (bufidx f)).ready ≡ false
  unfolding look
  started-look slots s k f h = elim (Option-cases s.run_start) [
    | inl e ↦ ground (arith, k.started f, k.same (bufidx s.x), e)
    | inr (y, e) ↦ ground (arith, k.started y e, k.started f)
  ]

  look-Kept : (slots : ℕ → Slot) (s : Scan) → Kept slots s → Kept slots (look l time_now s)
  look-Kept slots s k = record {
    same = λ i. SameData-look slots s i k.same;
    asked =
        let e : (look l time_now s).requests ≡ s.requests = unfold look in ground arith in
        rw e k.asked;
    started = started-look slots s k;
  }

  requests-advance :
      (s : Scan) (f : ℕ)
      → s.run_start ≡ some f
      → ((advance l time_now ab_write s).requests ≡ s.requests)
        ⊎ (0 < s.run_count)
          × ((advance l time_now ab_write s).requests ≡ s.requests ++ (f, s.run_count) ∷ [])
  unfolding advance
  requests-advance s f e = ground (arith, e)

  requests-advance-none :
      (s : Scan) → s.run_start ≡ none → (advance l time_now ab_write s).requests ≡ s.requests
  unfolding advance
  requests-advance-none s e = ground (arith, e)

  asked-advance :
      (slots : ℕ → Slot) (s : Scan)
      → Kept slots s
      → All (IsAsked slots) (advance l time_now ab_write s).requests
  asked-advance slots s k = elim (Option-cases s.run_start) [
    | inl e ↦ rw (requests-advance-none s e) k.asked
    | inr (f, e) ↦ elim (requests-advance s f e) [
      | inl q ↦ rw q k.asked
      | inr (p, q) ↦ rw q (
          All-append (IsAsked slots) s.requests ((f, s.run_count) ∷ []) k.asked
            ((p, k.started f e), tt))
    ]
  ]

  started-advance :
      (slots : ℕ → Slot) (s : Scan)
      → Kept slots s
      → (f : ℕ) → (advance l time_now ab_write s).run_start ≡ some f
      → (slots (bufidx f)).ready ≡ false
  unfolding advance
  started-advance slots s k f h = ground (arith, k.started f)

  turn-Kept : (slots : ℕ → Slot) (s : Scan) → Kept slots s → Kept slots (turn l time_now ab_write s)
  turn-Kept slots s k =
      let k' = look-Kept slots s k in
      record {
        same = λ i. rw slots-advance (k'.same i);
        asked = asked-advance slots (look l time_now s) k';
        started = started-advance slots (look l time_now s) k';
      }

start-Kept : (slots : ℕ → Slot) (x : ℕ) → Kept slots (start_scan x slots)
start-Kept slots x = record {
  same = λ i. record {
    ready = refl;
    samples = refl;
    given_timestamp = refl;
    length = refl;
    sequence_number = refl;
    initialisation_time = refl;
    untouched = λ h. refl;
  };
  asked = tt;
  started = λ f h. absurd cc;
}

pub scan_from-lt :
    (r w : ℕ) (f : Option ℕ)
    → r < 2 ^ 16
    → ((y : ℕ) → f ≡ some y → y < 2 ^ 16)
    → scan_from r w f < 2 ^ 16
unfolding scan_from
scan_from-lt r w none h k = h
scan_from-lt r w (some y) h k = let z : y < 2 ^ 16 = k y refl in ground arith

pub finish-slots : (w : ℕ) (a s : Scan) → (finish w a (some s)).slots ≡ s.slots
unfolding finish
finish-slots w a s = ground arith

pub finish-requests : (w : ℕ) (a s : Scan) → (finish w a (some s)).requests ≡ s.requests
unfolding finish
finish-requests w a s = ground arith

finish_keeps :
    (w : ℕ) (slots : ℕ → Slot) (a t : Scan)
    → t.x ≡ w
    → Kept slots t
    → ((finish w a (some t)).x ≡ w)
      × ((i : ℕ) → SameData (slots i) ((finish w a (some t)).slots i))
      × All (IsAsked slots) (finish w a (some t)).requests
finish_keeps w slots a t ex k = (
  unfold finish in ground (arith, ex),
  λ i. rw finish-slots (k.same i),
  rw finish-requests k.asked,
)

-- The resend checks end at the write pointer, keep every packet as it is, do not touch a slot whose
-- packet is there, and ask only for runs that begin at a missing packet.
pub run_scan_keeps :
    (l : Limits) (now r w : ℕ) (slots : ℕ → Slot) (f : Option ℕ)
    → r < 2 ^ 16
    → w < 2 ^ 16
    → ((y : ℕ) → f ≡ some y → y < 2 ^ 16)
    → ((run_scan l now r w slots f).x ≡ w)
      × ((i : ℕ) → SameData (slots i) ((run_scan l now r w slots f).slots i))
      × All (IsAsked slots) (run_scan l now r w slots f).requests
unfolding run_scan
run_scan_keeps l now r w slots f hr hw hf =
    let x : ℕ = scan_from r w f in
    let (t, e, ex, k) =
      scan_inv l now w (Kept slots) (λ s _ _. turn-Kept l now w slots s) scan_fuel
        (start_scan x slots) (scan_from-lt r w f hr hf) hw (omega arith) (start-Kept slots x) in
    rw e (finish_keeps w slots (start_scan x slots) t ex k)
