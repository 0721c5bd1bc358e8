-- ===== src/Player/GetFrame/LeadIn/Silence.antt =====
-- How much silence is sent before the first packet.
use shairport_sync_for_openw.Prelude.{
  ℕ, zero, suc, ◌+◌, ◌-◌, ◌*◌, ◌≤◌, ◌<◌, ◌≡◌, inl, inr, List, [], ◌∷◌, ltb, ◌==◌, if◌then◌else◌,
  arith, Bool-cases,
}
use shairport_sync_for_openw.Prelude.Int.{ℤ, pos, pos_part, neg_part, leb_ℤ}
use shairport_sync_for_openw.Player.GetFrame.LeadIn.{Event, silence, silence_needed, chunks}

abbrev pub ◌≤ℤ◌ : ℤ → ℤ → Type 0
◌≤ℤ◌ a b = pos_part a + neg_part b ≤ pos_part b + neg_part a

-- The silence never reaches past the time of the first packet, and buffering ends exactly when that
-- is at most two packets away.
pub silence_needed_fits :
    (gap needed : ℤ) (max : ℕ)
    → ◌≤ℤ◌ (silence_needed gap needed max).0 gap
      × ((silence_needed gap needed max).1 ≡ leb_ℤ gap (pos (max * 2)))
unfolding silence_needed
silence_needed_fits gap needed max = ground arith

abbrev pub total : List Event → ℕ
total [] = 0
total (silence n ∷ es) = n + total es
total (_ ∷ es) = total es

-- Each event is of silence, for at most `tenth` frames and at least one.
abbrev pub Short : ℕ → List Event → Type 0
Short tenth [] = Unit
Short tenth (silence n ∷ es) = (0 < n) × (n ≤ tenth) × Short tenth es
Short tenth (_ ∷ es) = ⊥

-- The lead-in for a device without a delay function is sent whole, in pieces of at most a tenth of a
-- second, if the rate is at least ten frames a second.
pub chunks-total :
    (fuel tenth gap : ℕ)
    → 0 < tenth
    → gap ≤ fuel
    → (total (chunks fuel tenth gap) ≡ gap) × Short tenth (chunks fuel tenth gap)
unfolding chunks
chunks-total zero tenth gap t h = (omega arith, tt)
chunks-total (suc fuel) tenth gap t h = elim (Bool-cases (gap == 0)) [
  | inl e ↦ rw e (ground arith, tt)
  | inr e ↦
      let fs : ℕ = if ltb gap tenth then gap else tenth in
      let g = chunks-total fuel tenth (gap - fs) t (ground arith) in
      rw e (ground (arith, g.0), (ground arith, ground arith, g.1))
]
