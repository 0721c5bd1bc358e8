-- ===== src/Common/Silence.antt =====
-- `generate_zero_frames` of src/common.c: silence, with dither or without.
pub mod Laws
mod Tests
use native.Mathlib.Nat.{mod-le}
use shairport_sync_for_openw.Prelude.{
  ℕ, zero, suc, ◌+◌, ◌-◌, ◌*◌, ◌/◌, ◌%◌, ◌^◌, ◌≤◌, ◌<◌, ◌≡◌, refl, sym, ap, ◌∙◌, fun_ext, arith,
  Bool, true, false, Option, none, some, none≢some, List, [], ◌∷◌, ◌++◌, if◌then◌else◌, ◌>>=◌,
  replicate,
}
use shairport_sync_for_openw.Prelude.Int.{
  ℤ, pos, negsuc, sub_ℕ, ◌+ℤ◌, ◌-ℤ◌, ◌*ℤ◌, leb_ℤ, unsigned, pos_part, neg_part,
}
use shairport_sync_for_openw.Common.Random.{r64i, r64i-lt}
use shairport_sync_for_openw.Player.Sample.{
  SpsFormat, unknown, s8, u8, s16, s16_le, s16_be, s24, s24_le, s24_be, s24_3le, s24_3be, s32,
  s32_le, s32_be, auto, invalid, Noise, Settings, shift_right, byte, width, masked, tpdf,
  add_dither, scale, dithered, le32, be32, by_host, to_bytes, process_sample, process_samples,
  int64_max, int64_min,
}

module _ (little_endian : Bool) where
  -- The bytes of a value: here each byte is shifted out of the value itself.
  pub zero_bytes : SpsFormat → ℤ → Option (List ℕ)
  zero_bytes s32 h = let x = shift_right h 32 in some (by_host little_endian (le32 x) (be32 x))
  zero_bytes s32_le h = some (byte h 32 ∷ byte h 40 ∷ byte h 48 ∷ byte h 56 ∷ [])
  zero_bytes s32_be h = some (byte h 56 ∷ byte h 48 ∷ byte h 40 ∷ byte h 32 ∷ [])
  zero_bytes s24_3le h = some (byte h 40 ∷ byte h 48 ∷ byte h 56 ∷ [])
  zero_bytes s24_3be h = some (byte h 56 ∷ byte h 48 ∷ byte h 40 ∷ [])
  zero_bytes s24 h = let x = shift_right h 40 in some (by_host little_endian (le32 x) (be32 x))
  zero_bytes s24_le h = some (byte h 40 ∷ byte h 48 ∷ byte h 56 ∷ 0 ∷ [])
  zero_bytes s24_be h = some (0 ∷ byte h 56 ∷ byte h 48 ∷ byte h 40 ∷ [])
  zero_bytes s16_le h = some (byte h 48 ∷ byte h 56 ∷ [])
  zero_bytes s16_be h = some (byte h 56 ∷ byte h 48 ∷ [])
  zero_bytes s16 h =
      let x = shift_right h 48 in
      some (by_host little_endian (byte x 0 ∷ byte x 8 ∷ []) (byte x 8 ∷ byte x 0 ∷ []))
  zero_bytes s8 h = some (byte h 56 ∷ [])
  zero_bytes u8 h = some ((128 + byte h 56) % 2 ^ 8 ∷ [])
  zero_bytes unknown h = none
  zero_bytes auto h = none
  zero_bytes invalid h = none

  -- One round of the loop.
  pub zero_sample : SpsFormat → ℕ → Bool → Noise → Option (List ℕ × Noise)
  zero_sample f w with_dither n = do
    let (r, ctx') = r64i n.ctx
    let t = tpdf w r n.previous_random_number
    bytes ← zero_bytes f (if with_dither then pos 0 +ℤ t else pos 0)
    some (bytes, record { ctx = ctx'; previous_random_number = r })

  pub zero_samples : SpsFormat → ℕ → Bool → ℕ → Noise → Option (List ℕ × Noise)
  zero_samples f w with_dither zero n = some ([], n)
  zero_samples f w with_dither (suc k) n = do
    (bytes, n') ← zero_sample f w with_dither n
    (more, n'') ← zero_samples f w with_dither k n'
    some (bytes ++ more, n'')

  -- `random_number_in` and the result are the number in the noise.
  pub generate_zero_frames : ℕ → SpsFormat → Bool → Noise → Option (List ℕ × Noise)
  generate_zero_frames number_of_frames f with_dither n = do
    w ← width f
    zero_samples f w with_dither (number_of_frames * 2) n
