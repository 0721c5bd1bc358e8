-- ===== src/Player/Sample/Bits.antt =====
-- What a device reads in the bytes that `to_bytes` writes.
use mathlib.Core.Path.{subst}
use shairport_sync_for_openw.Prelude.{
  ℕ, ◌+◌, ◌-◌, ◌*◌, ◌^◌, ◌≤◌, ◌<◌, ◌≡◌, refl, arith, Bool, some, none≢some, some_inj, List, [], ◌∷◌,
  if◌then◌else◌,
}
use shairport_sync_for_openw.Prelude.Int.{ℤ, pos, negsuc, ◌-ℤ◌, signed, pos_part, neg_part}
use shairport_sync_for_openw.Player.Sample.{
  SpsFormat, unknown, s8, u8, s16, s16_le, s16_be, s24, s24_le, s24_be, s24_3le, s24_3be, s32,
  s32_le, s32_be, auto, invalid, shift_right, width, to_bytes,
}

-- The number in a list of bytes, the least significant first or last.
abbrev pub little : List ℕ → ℕ
little [] = 0
little (b ∷ bs) = b + 256 * little bs

abbrev big_from : ℕ → List ℕ → ℕ
big_from n [] = n
big_from n (b ∷ bs) = big_from (n * 256 + b) bs

abbrev pub big : List ℕ → ℕ
big bs = big_from 0 bs

-- The sample that the bytes stand for, as the name of the format says.
abbrev pub value : Bool → SpsFormat → List ℕ → ℤ
value l s8 bs = signed (2 ^ 8) (little bs)
value l u8 bs = pos (little bs) -ℤ pos 128
value l s16_le bs = signed (2 ^ 16) (little bs)
value l s16_be bs = signed (2 ^ 16) (big bs)
value l s16 bs = signed (2 ^ 16) (if l then little bs else big bs)
value l s24_3le bs = signed (2 ^ 24) (little bs)
value l s24_3be bs = signed (2 ^ 24) (big bs)
value l s24_le bs = signed (2 ^ 24) (little bs)
value l s24_be bs = signed (2 ^ 24) (big bs)
value l s24 bs = signed (2 ^ 32) (if l then little bs else big bs)
value l s32_le bs = signed (2 ^ 32) (little bs)
value l s32_be bs = signed (2 ^ 32) (big bs)
value l s32 bs = signed (2 ^ 32) (if l then little bs else big bs)
value l _ bs = pos 0

abbrev pub InInt64 : ℤ → Type 0
InInt64 h = (pos_part h < 2 ^ 63) × (neg_part h ≤ 2 ^ 63)

module _ (l : Bool) where
  -- The format stores the value, and it is read back, cut to `w` bits.
  abbrev pub Reads : SpsFormat → ℕ → ℤ → Type 0
  Reads f w h = (bs : List ℕ) × (to_bytes l f h ≡ some bs) × (value l f bs ≡ shift_right h (64 - w))

  Reads32 : (h : ℤ) → InInt64 h → Reads s32_le 32 h × Reads s32_be 32 h × Reads s32 32 h
  unfolding to_bytes shift_right
  Reads32 (pos n) h = ((_, refl, ground arith), (_, refl, ground arith), (_, refl, ground arith))
  Reads32 (negsuc n) h = ((_, refl, ground arith), (_, refl, ground arith), (_, refl, ground arith))

  Reads24_3 : (h : ℤ) → InInt64 h → Reads s24_3le 24 h × Reads s24_3be 24 h
  unfolding to_bytes shift_right
  Reads24_3 (pos n) h = ((_, refl, ground arith), (_, refl, ground arith))
  Reads24_3 (negsuc n) h = ((_, refl, ground arith), (_, refl, ground arith))

  Reads24 : (h : ℤ) → InInt64 h → Reads s24_le 24 h × Reads s24_be 24 h × Reads s24 24 h
  unfolding to_bytes shift_right
  Reads24 (pos n) h = ((_, refl, ground arith), (_, refl, ground arith), (_, refl, ground arith))
  Reads24 (negsuc n) h = ((_, refl, ground arith), (_, refl, ground arith), (_, refl, ground arith))

  Reads16 : (h : ℤ) → InInt64 h → Reads s16_le 16 h × Reads s16_be 16 h × Reads s16 16 h
  unfolding to_bytes shift_right
  Reads16 (pos n) h = ((_, refl, ground arith), (_, refl, ground arith), (_, refl, ground arith))
  Reads16 (negsuc n) h = ((_, refl, ground arith), (_, refl, ground arith), (_, refl, ground arith))

  Reads8 : (h : ℤ) → InInt64 h → Reads s8 8 h × Reads u8 8 h
  unfolding to_bytes shift_right
  Reads8 (pos n) h = ((_, refl, ground arith), (_, refl, ground arith))
  Reads8 (negsuc n) h = ((_, refl, ground arith), (_, refl, ground arith))

  moved : (f : SpsFormat) {v w : ℕ} (h : ℤ) → some v ≡ some w → Reads f v h → Reads f w h
  moved f h e r = subst (λ k. Reads f k h) (some_inj e) r

  -- For each format that has a width, and each value of 64 bits, the bytes are read back as the
  -- bits of the value above that width.
  pub to_bytes_read : (f : SpsFormat) {w : ℕ} (h : ℤ) → InInt64 h → width f ≡ some w → Reads f w h
  unfolding width
  to_bytes_read s32 h i e = moved s32 h e (Reads32 h i).2
  to_bytes_read s32_le h i e = moved s32_le h e (Reads32 h i).0
  to_bytes_read s32_be h i e = moved s32_be h e (Reads32 h i).1
  to_bytes_read s24 h i e = moved s24 h e (Reads24 h i).2
  to_bytes_read s24_le h i e = moved s24_le h e (Reads24 h i).0
  to_bytes_read s24_be h i e = moved s24_be h e (Reads24 h i).1
  to_bytes_read s24_3le h i e = moved s24_3le h e (Reads24_3 h i).0
  to_bytes_read s24_3be h i e = moved s24_3be h e (Reads24_3 h i).1
  to_bytes_read s16 h i e = moved s16 h e (Reads16 h i).2
  to_bytes_read s16_le h i e = moved s16_le h e (Reads16 h i).0
  to_bytes_read s16_be h i e = moved s16_be h e (Reads16 h i).1
  to_bytes_read s8 h i e = moved s8 h e (Reads8 h i).0
  to_bytes_read u8 h i e = moved u8 h e (Reads8 h i).1
  to_bytes_read unknown h i e = absurd (none≢some e)
  to_bytes_read auto h i e = absurd (none≢some e)
  to_bytes_read invalid h i e = absurd (none≢some e)
