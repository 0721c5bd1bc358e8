-- ===== src/Player/GetFrame/Flush/Trim.antt =====
-- A flush to a frame within the buffer.
use shairport_sync_for_openw.Prelude.{
  ℕ, ◌+◌, ◌-◌, ◌*◌, ◌^◌, ◌≤◌, ◌<◌, ◌≡◌, refl, true, ◌++◌, sub32, arith, take, drop, length,
}
use shairport_sync_for_openw.Player.Buffer.{Slot, bufidx}
use shairport_sync_for_openw.Player.GetFrame.Flush.{is_positive, last_frame, trim_packet}

abbrev pub EndsBefore : ℕ → Slot → Type 0
EndsBefore f s = is_positive (sub32 f (last_frame s)) ≡ true

-- The packet that the loop comes to rest at, with the last packet at `w - 1`.
pub record IsStop (f : ℕ) (slots : ℕ → Slot) (r w r' : ℕ) : Type 0 where
  pub from : r ≤ r'
  pub below : r' < w
  pub dropped : (i : ℕ) → r ≤ i → i < r' → EndsBefore f (slots (bufidx i))
  pub holds : ¬ EndsBefore f (slots (bufidx r'))

-- A packet with the flush frame strictly inside it, and as many bytes as its frames take, is cut to
-- the frames from the flush frame on: their number and their bytes agree with the new first frame.
pub trim_packet_lem :
    (b f : ℕ) (s : Slot)
    → s.given_timestamp < f
    → f < s.given_timestamp + s.length
    → f < 2 ^ 32
    → f - s.given_timestamp < 2 ^ 31
    → (let t = trim_packet b f s in
        (t.given_timestamp ≡ f)
        × (t.given_timestamp + t.length ≡ s.given_timestamp + s.length)
        × (t.samples ≡ (
            let kept =
              take
                ((s.length - (f - s.given_timestamp)) * b)
                (drop ((f - s.given_timestamp) * b) s.samples) in
            kept ++ drop (length kept) s.samples)))
unfolding trim_packet
trim_packet_lem b f s h l w z =
    let e : sub32 f s.given_timestamp ≡ f - s.given_timestamp = omega arith in
    let p : is_positive (f - s.given_timestamp) ≡ true = ground arith in
    rw (e, p) (refl, omega arith, refl)
