-- ===== src/Common/Silence/Laws.antt =====
-- `generate_zero_frames` against `process_sample` of src/player.c.
use native.Mathlib.Nat.{mod-le}
use shairport_sync_for_openw.Prelude.{
  ℕ, zero, suc, ◌-◌, ◌*◌, ◌^◌, ◌<◌, ◌≡◌, refl, ap, arith, Bool, true, false, Option, none, some,
  List, ◌++◌, ◌>>=◌, replicate,
}
use shairport_sync_for_openw.Prelude.Int.{ℤ, pos, negsuc, ◌+ℤ◌, pos_part, neg_part}
use shairport_sync_for_openw.Common.Random.{r64i, r64i-lt}
use shairport_sync_for_openw.Player.Sample.{
  SpsFormat, unknown, s8, u8, s16, s16_le, s16_be, s24, s24_le, s24_be, s24_3le, s24_3be, s32,
  s32_le, s32_be, auto, invalid, Noise, Settings, shift_right, width, tpdf, add_dither, scale,
  dithered, to_bytes, process_sample, process_samples,
}
use shairport_sync_for_openw.Common.Silence.{
  zero_bytes, zero_sample, zero_samples, generate_zero_frames,
}

abbrev Out : Type 0
Out = Option (List ℕ × Noise)

abbrev then_put : Out → (Noise → Out) → Out
then_put m k = do (b, n) ← m; (c, n') ← k n; some (b ++ c, n')

-- Only the noise that the first output leaves matters to what follows.
then_put_at :
    (o : Option (List ℕ)) (m : Noise) (j k : Noise → Out)
    → j m ≡ k m
    → then_put (o >>= λ b. some (b, m)) j ≡ then_put (o >>= λ b. some (b, m)) k
then_put_at none m j k h = refl
then_put_at (some b) m j k h = ap (λ q. q >>= λ r. some (b ++ r.0, r.1)) h

module _ (little_endian : Bool) where
  zero_bytes-eq :
      (f : SpsFormat) (h : ℤ) → zero_bytes little_endian f h ≡ to_bytes little_endian f h
  unfolding zero_bytes to_bytes shift_right
  zero_bytes-eq s32_le (pos n) = ground arith
  zero_bytes-eq s32_le (negsuc n) = ground arith
  zero_bytes-eq s32_be (pos n) = ground arith
  zero_bytes-eq s32_be (negsuc n) = ground arith
  zero_bytes-eq s24_3le (pos n) = ground arith
  zero_bytes-eq s24_3le (negsuc n) = ground arith
  zero_bytes-eq s24_3be (pos n) = ground arith
  zero_bytes-eq s24_3be (negsuc n) = ground arith
  zero_bytes-eq s24_le (pos n) = ground arith
  zero_bytes-eq s24_le (negsuc n) = ground arith
  zero_bytes-eq s24_be (pos n) = ground arith
  zero_bytes-eq s24_be (negsuc n) = ground arith
  zero_bytes-eq s16_le (pos n) = ground arith
  zero_bytes-eq s16_le (negsuc n) = ground arith
  zero_bytes-eq s16_be (pos n) = ground arith
  zero_bytes-eq s16_be (negsuc n) = ground arith
  zero_bytes-eq s8 (pos n) = ground arith
  zero_bytes-eq s8 (negsuc n) = ground arith
  zero_bytes-eq u8 (pos n) = ground arith
  zero_bytes-eq u8 (negsuc n) = ground arith
  zero_bytes-eq s32 h = refl
  zero_bytes-eq s24 h = refl
  zero_bytes-eq s16 h = refl
  zero_bytes-eq unknown h = refl
  zero_bytes-eq auto h = refl
  zero_bytes-eq invalid h = refl

  -- The dither is too small to be clipped at zero.
  add_dither-zero :
      (t : ℤ) → pos_part t < 2 ^ 63 → neg_part t < 2 ^ 63 → add_dither (pos 0) t ≡ pos 0 +ℤ t
  unfolding add_dither
  add_dither-zero (pos n) h k = ground arith
  add_dither-zero (negsuc n) h k = ground arith

  tpdf-lt :
      (w r p : ℕ)
      → r < 2 ^ 63
      → p < 2 ^ 63
      → (pos_part (tpdf w r p) < 2 ^ 63) × (neg_part (tpdf w r p) < 2 ^ 63)
  unfolding tpdf
  tpdf-lt w r p h k = ground (arith, mod-le r (2 ^ (64 - w)), mod-le p (2 ^ (64 - w)))

  scale-zero : (b : Bool) (v : ℕ) → scale b v (pos 0) ≡ pos 0
  unfolding scale
  scale-zero true v = refl
  scale-zero false v = ground arith

  module _ (f : SpsFormat) {w : ℕ} (hw : width f ≡ some w) (loudness : Bool) (volume : ℕ) where
    abbrev with_dither : Settings
    with_dither = record { format = f; loudness = loudness; volume = volume; dither = true }

    zero_sample-eq :
        (n : Noise)
        → n.previous_random_number < 2 ^ 63
        → zero_sample little_endian f w true n ≡ process_sample little_endian with_dither (pos 0) n
    unfolding zero_sample process_sample dithered
    zero_sample-eq n hn =
        let t = tpdf w (r64i n.ctx).0 n.previous_random_number in
        let (a, b) = tpdf-lt w (r64i n.ctx).0 n.previous_random_number (r64i-lt n.ctx) hn in
        ground
          (arith, zero_bytes-eq f (pos 0 +ℤ t), add_dither-zero t a b, scale-zero loudness volume)

    -- The noise after a sample.
    abbrev after : Noise → Noise
    after n = record { ctx = (r64i n.ctx).1; previous_random_number = (r64i n.ctx).0 }

    zero_rest :
        (n : Noise) (k : ℕ)
        → zero_samples little_endian f w true k (after n)
          ≡ process_samples little_endian with_dither (replicate k (pos 0)) (after n)
        → then_put (zero_sample little_endian f w true n) (zero_samples little_endian f w true k)
          ≡ then_put
              (zero_sample little_endian f w true n)
              (process_samples little_endian with_dither (replicate k (pos 0)))
    unfolding zero_sample
    zero_rest n k h =
        then_put_at
          (zero_bytes little_endian f (pos 0 +ℤ tpdf w (r64i n.ctx).0 n.previous_random_number))
          (after n) (zero_samples little_endian f w true k)
          (process_samples little_endian with_dither (replicate k (pos 0))) h

    zero_samples-eq :
        (k : ℕ) (n : Noise)
        → n.previous_random_number < 2 ^ 63
        → zero_samples little_endian f w true k n
          ≡ process_samples little_endian with_dither (replicate k (pos 0)) n
    unfolding zero_samples process_samples
    zero_samples-eq zero n hn = refl
    zero_samples-eq (suc k) n hn =
        rw (← zero_sample-eq n hn) (zero_rest n k (zero_samples-eq k (after n) (r64i-lt n.ctx)))

    -- Silence with dither is what `process_sample` makes of samples that are zero, at any volume.
    pub generate_zero_frames-eq :
        (number_of_frames : ℕ) (n : Noise)
        → n.previous_random_number < 2 ^ 63
        → generate_zero_frames little_endian number_of_frames f true n
          ≡ process_samples little_endian with_dither (replicate (number_of_frames * 2) (pos 0)) n
    unfolding generate_zero_frames
    generate_zero_frames-eq number_of_frames n hn =
        rw hw (zero_samples-eq (number_of_frames * 2) n hn)
