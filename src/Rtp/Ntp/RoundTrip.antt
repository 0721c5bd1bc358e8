-- ===== src/Rtp/Ntp/RoundTrip.antt =====
-- A frame is converted to local time and back.
use shairport_sync_for_openw.Prelude.{
  ℕ, suc, ◌+◌, ◌*◌, ◌/◌, ◌^◌, ◌<◌, ◌≡◌, ◌⊎◌, inl, inr, refl, ap, ◌∙◌, true, some, u32, u64, sub32,
  sub64, arith, ◌==◌, ◌≢◌, Bool-cases,
}
use shairport_sync_for_openw.Prelude.Int.{pos, ◌*ℤ◌, div_ℤ, signed32, signed64, unsigned}
use shairport_sync_for_openw.Rtp.Ntp.{Anchor, frame_to_ntp_local_time, local_ntp_time_to_frame}

abbrev ns_of : ℕ → ℕ
ns_of d = d * 1000000000 / 44100

to_time :
    (difference d : ℕ) (a : Anchor) (timestamp : ℕ)
    → a.anchor_remote_info_is_valid ≡ true
    → sub32 timestamp a.anchor_rtptime ≡ d
    → d < 2 ^ 31
    → frame_to_ntp_local_time difference timestamp a
      ≡ some (sub64 (u64 (a.anchor_time + ns_of d)) difference)
unfolding frame_to_ntp_local_time
to_time difference d a timestamp v e h =
    let s : signed32 d ≡ pos d = ground arith in
    let z : ns_of d < 2 ^ 64 = omega arith in
    let m : pos d *ℤ pos 1000000000 ≡ pos (d * 1000000000) = ground arith in
    let q : unsigned (2 ^ 64) (div_ℤ (pos d *ℤ pos 1000000000) 44100) ≡ ns_of d =
      rw m (ground arith) in
    rw (v, e, s) (ap (λ z. some (sub64 (u64 (a.anchor_time + z)) difference)) q)

to_frame :
    (difference o : ℕ) (a : Anchor) (time : ℕ)
    → a.anchor_remote_info_is_valid ≡ true
    → sub64 (u64 (time + difference)) a.anchor_time ≡ o
    → o * 44100 < 2 ^ 63
    → local_ntp_time_to_frame difference time a
      ≡ some (u32 (a.anchor_rtptime + o * 44100 / 1000000000))
unfolding local_ntp_time_to_frame
to_frame difference o a time v e h =
    let s : signed64 o ≡ pos o = ground arith in
    let m : pos o *ℤ pos 44100 ≡ pos (o * 44100) = ground arith in
    let q : u32 (a.anchor_rtptime + unsigned (2 ^ 32) (div_ℤ (pos o *ℤ pos 44100) 1000000000))
        ≡ u32 (a.anchor_rtptime + o * 44100 / 1000000000) =
      rw m (omega arith) in
    rw (v, e, s) (ap (λ z. some z) q)

there_and_back :
    (x n difference : ℕ)
    → x < 2 ^ 64
    → n < 2 ^ 64
    → difference < 2 ^ 64
    → sub64 (u64 (sub64 (u64 (x + n)) difference + difference)) x ≡ n
there_and_back x n difference h l k =
    let e : u64 (sub64 (u64 (x + n)) difference + difference) ≡ u64 (x + n) = omega arith in
    rw e (omega arith)

nearest : (d : ℕ) → (ns_of d * 44100 / 1000000000 ≡ d) ⊎ (suc (ns_of d * 44100 / 1000000000) ≡ d)
nearest d =
    let k = ns_of d * 44100 / 1000000000 in
    elim (Bool-cases (k == d)) [
      | inl e ↦ inl (ground arith)
      | inr e ↦ let n : k ≢ d = ground arith in inr (omega arith)
    ]

frame_of : (a t : ℕ) → a < 2 ^ 32 → t < 2 ^ 32 → u32 (a + sub32 t a) ≡ t
frame_of a t h l = omega arith

next_frame : (a k : ℕ) → u32 (u32 (a + k) + 1) ≡ u32 (a + suc k)
next_frame a k = omega arith

-- A frame at or after the anchor, by less than 2^31 frames, is converted to a time, and that time is
-- converted back to the frame or to the one before it.
pub ntp_round_trip :
    (difference timestamp : ℕ) (a : Anchor)
    → a.anchor_remote_info_is_valid ≡ true
    → a.anchor_rtptime < 2 ^ 32
    → a.anchor_time < 2 ^ 64
    → difference < 2 ^ 64
    → timestamp < 2 ^ 32
    → sub32 timestamp a.anchor_rtptime < 2 ^ 31
    → (time : ℕ) × (frame : ℕ) × (frame_to_ntp_local_time difference timestamp a ≡ some time)
      × (local_ntp_time_to_frame difference time a ≡ some frame)
      × ((frame ≡ timestamp) ⊎ (u32 (frame + 1) ≡ timestamp))
ntp_round_trip difference timestamp a v r t f s h =
    let d = sub32 timestamp a.anchor_rtptime in
    let time = sub64 (u64 (a.anchor_time + ns_of d)) difference in
    let o : sub64 (u64 (time + difference)) a.anchor_time ≡ ns_of d =
      there_and_back a.anchor_time (ns_of d) difference t (omega arith) f in
    let b : ns_of d * 44100 < 2 ^ 63 = omega arith in
    let frame = u32 (a.anchor_rtptime + ns_of d * 44100 / 1000000000) in
    (
      time,
      frame,
      to_time difference d a timestamp v refl h,
      to_frame difference (ns_of d) a time v o b,
      elim (nearest d) [
        | inl e ↦
            inl (ap (λ z. u32 (a.anchor_rtptime + z)) e ∙ frame_of a.anchor_rtptime timestamp r s)
        | inr e ↦ inr (
            next_frame a.anchor_rtptime (ns_of d * 44100 / 1000000000)
            ∙ ap (λ z. u32 (a.anchor_rtptime + z)) e
            ∙ frame_of a.anchor_rtptime timestamp r s)
      ],
    )
