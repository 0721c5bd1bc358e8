-- ===== src/Player/PutPacket/Gap.antt =====
-- `mark_missing`: what the loop over the gap does.
use shairport_sync_for_openw.Prelude.{
  ℕ, zero, suc, ◌+◌, ◌≤◌, ◌<◌, ◌≡◌, ◌≢◌, refl, ap, ◌∙◌, update, arith,
}
use shairport_sync_for_openw.Player.Buffer.{Slot, bufidx, buffer_frames}
use shairport_sync_for_openw.Player.PutPacket.{missing_slot, mark_missing}

-- A slot that is none of the frames of the gap is left alone.
pub mark_missing_other :
    (now n x : ℕ) (slots : ℕ → Slot) (i : ℕ)
    → ((k : ℕ) → k < n → bufidx (x + k) ≢ i)
    → mark_missing now n x slots i ≡ slots i
unfolding mark_missing
mark_missing_other now zero x slots i h = refl
mark_missing_other now (suc n) x slots i h =
    mark_missing_other now n (x + 1) (update slots (bufidx x) (missing_slot now (slots (bufidx x))))
      i
      (λ k p e.
        h (suc k) (omega arith)
          (let q : bufidx (x + suc k) ≡ bufidx (x + 1 + k) = ap bufidx (omega arith) in q ∙ e))
    ∙ (let z : bufidx x ≢ i = (λ e.
          h 0 (omega arith)
            (let q : bufidx (x + 0) ≡ bufidx x = ap bufidx (omega arith) in q ∙ e)) in
        ground arith)

-- With fewer frames in the gap than there are slots, each is marked missing.
pub mark_missing_each :
    (now n x : ℕ) (slots : ℕ → Slot) (k : ℕ)
    → n ≤ buffer_frames
    → k < n
    → mark_missing now n x slots (bufidx (x + k)) ≡ missing_slot now (slots (bufidx (x + k)))
unfolding mark_missing
mark_missing_each now zero x slots k h p = absurd (omega arith)
mark_missing_each now (suc n) x slots zero h p =
    let q : x + 0 ≡ x = omega arith in
    rw q (
      mark_missing_other now n (x + 1)
        (update slots (bufidx x) (missing_slot now (slots (bufidx x)))) (bufidx x)
        (λ k l e. omega (arith, e))
      ∙ (ground arith))
mark_missing_each now (suc n) x slots (suc k) h p =
    let q : x + suc k ≡ x + 1 + k = omega arith in
    let z : bufidx x ≢ bufidx (x + 1 + k) = (λ e. omega (arith, e)) in
    rw q (
      mark_missing_each now n (x + 1)
        (update slots (bufidx x) (missing_slot now (slots (bufidx x)))) k (omega arith)
        (omega arith)
      ∙ ap (missing_slot now) (ground arith))
