-- ===== src/Player/GetFrame/Release/Laws.antt =====
-- When a packet is let go, and what is left of it.
use shairport_sync_for_openw.Prelude.{
  ℕ, ◌+◌, ◌≤◌, ◌≡◌, ◌≢◌, ◌⊎◌, inl, inr, refl, true, false, ◌||◌, not, if◌then◌else◌, u16, u64,
  sub32, sub64, arith, Bool-cases,
}
use shairport_sync_for_openw.Player.Buffer.{Slot, Conn, bufidx}
use shairport_sync_for_openw.Player.GetFrame.Clock.{Clock}
use shairport_sync_for_openw.Player.GetFrame.LeadIn.{Locals}
use shairport_sync_for_openw.Player.GetFrame.Release.{
  is_crazy, too_soon, do_wait, is_empty, release, take_frame,
}

-- The time of a packet less the length of the back end's buffer is at hand, or is more than ten
-- seconds away.
abbrev pub IsDue : Clock → ℕ → ℕ → Slot → Type 0
IsDue k offset now s =
    let t = Clock.frame_to_local_time k (sub32 s.given_timestamp offset) in
    (t ≤ now) ⊎ (is_crazy (sub64 now t) ≡ true)

release_ends :
    (k : Clock) (offset now : ℕ) (c : Conn) (v : Locals)
    → (release k offset now c v).2 ≡ false
    → (do_wait k offset now c ≡ false)
      × (is_empty c ≡ false)
      × (c.ab_buffering ≡ false)
      × (c.ab_synced ≡ true)
      × ((release k offset now c v).0 ≡ c)
unfolding release
release_ends k offset now c v h = elim (Bool-cases (do_wait k offset now c)) [
  | inl d ↦ let e : (release k offset now c v).2 ≡ true = rw d in absurd (ground arith)
  | inr d ↦ elim (Bool-cases (is_empty c)) [
    | inl m ↦ let e : (release k offset now c v).2 ≡ true = rw (d, m) in absurd (ground arith)
    | inr m ↦
        let e : (release k offset now c v).2 ≡ (c.ab_buffering || not c.ab_synced) = rw (d, m) in
        (d, m, ground arith, ground arith, rw (d, m))
  ]
]

not_empty : (c : Conn) → c.ab_synced ≡ true → is_empty c ≡ false → c.ab_read ≢ c.ab_write
unfolding is_empty
not_empty c s m = ground arith

IsDue-of_not_wait :
    (k : Clock) (offset now : ℕ) (c : Conn)
    → Clock.have_timing k ≡ true
    → c.ab_synced ≡ true
    → do_wait k offset now c ≡ false
    → (c.audio_buffer (bufidx c.ab_read)).ready ≡ true
    → (c.audio_buffer (bufidx c.ab_read)).given_timestamp ≢ 0
    → IsDue k offset now (c.audio_buffer (bufidx c.ab_read))
unfolding do_wait too_soon
IsDue-of_not_wait k offset now c t s d r g = ground arith

-- With timing information, the loop ends only when the connection is synchronised, not buffering
-- and not empty, and a packet that is there, with a timestamp, is due; nothing is changed then.
pub release-IsDue :
    (k : Clock) (offset now : ℕ) (c : Conn) (v : Locals)
    → Clock.have_timing k ≡ true
    → (release k offset now c v).2 ≡ false
    → ((release k offset now c v).0 ≡ c)
      × (c.ab_synced ≡ true)
      × (c.ab_buffering ≡ false)
      × (c.ab_read ≢ c.ab_write)
      × ((c.audio_buffer (bufidx c.ab_read)).ready ≡ true
          → (c.audio_buffer (bufidx c.ab_read)).given_timestamp ≢ 0
          → IsDue k offset now (c.audio_buffer (bufidx c.ab_read)))
release-IsDue k offset now c v t h =
    let e = release_ends k offset now c v h in
    (e.4, e.3, e.2, not_empty c e.3 e.1, IsDue-of_not_wait k offset now c t e.3 e.0)

-- The frame that is taken is the one at the read pointer; its slot is empty afterwards, the other
-- slots are as they were, and a missing packet is counted and given the timestamp 0.
pub take_frame_lem :
    (c : Conn)
    → let s = c.audio_buffer (bufidx c.ab_read) in
      let (c', f) = take_frame c in
      (c'.ab_read ≡ u16 (c.ab_read + 1))
      × ((c'.audio_buffer (bufidx c.ab_read)).ready ≡ false)
      × ((i : ℕ) → bufidx c.ab_read ≢ i → c'.audio_buffer i ≡ c.audio_buffer i)
      × (f.samples ≡ s.samples)
      × (f.given_timestamp ≡ (if s.ready then s.given_timestamp else 0))
      × (c'.missing_packets ≡ (if s.ready then c.missing_packets else u64 (c.missing_packets + 1)))
unfolding take_frame
take_frame_lem c = (refl, ground arith, λ i h. ground arith, refl, refl, refl)

pub release_unsynced :
    (k : Clock) (offset now : ℕ) (c : Conn) (v : Locals)
    → c.ab_synced ≡ false
    → ((release k offset now c v).0 ≡ c) × ((release k offset now c v).2 ≡ true)
unfolding release do_wait is_empty
release_unsynced k offset now c v h = (simp h, ground arith)
