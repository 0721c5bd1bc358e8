-- ===== src/Player/Sample.antt =====
-- `process_sample` of src/player.c: volume, dither, and the bytes of each output format. A signed
-- 64-bit value is an integer; `little_endian` says how the machine stores its words.
pub mod Bits
pub mod Dither
mod Tests
use shairport_sync_for_openw.Prelude.{
  ℕ, ◌+◌, ◌-◌, ◌*◌, ◌/◌, ◌%◌, ◌^◌, Bool, true, false, Option, none, some, List, [], ◌∷◌, ◌++◌,
  if◌then◌else◌, ◌>>=◌,
}
use shairport_sync_for_openw.Prelude.Int.{ℤ, pos, negsuc, sub_ℕ, ◌+ℤ◌, ◌-ℤ◌, ◌*ℤ◌, leb_ℤ, unsigned}
use shairport_sync_for_openw.Common.Random.{RanCtx, r64i}

pub data SpsFormat : Type 0 where
  unknown s8 u8 s16 s16_le s16_be s24 s24_le s24_be s24_3le s24_3be s32 s32_le s32_be auto invalid :
      SpsFormat

abbrev pub int64_max : ℤ
int64_max = pos (2 ^ 63 - 1)

abbrev pub int64_min : ℤ
int64_min = negsuc (2 ^ 63 - 1)

-- `x >> k` of a signed value, which keeps the sign.
unfoldable pub shift_right : ℤ → ℕ → ℤ
shift_right (pos n) k = pos (n / 2 ^ k)
shift_right (negsuc n) k = negsuc (n / 2 ^ k)

-- `(uint8_t)(x >> k)`.
abbrev pub byte : ℤ → ℕ → ℕ
byte x k = unsigned (2 ^ 8) (shift_right x k)

-- The bits of a sample; the formats that the function dies of have none.
unfoldable pub width : SpsFormat → Option ℕ
width s32 = some 32
width s32_le = some 32
width s32_be = some 32
width s24 = some 24
width s24_le = some 24
width s24_be = some 24
width s24_3le = some 24
width s24_3be = some 24
width s16 = some 16
width s16_le = some 16
width s16_be = some 16
width s8 = some 8
width u8 = some 8
width unknown = none
width auto = none
width invalid = none

-- `x & dither_mask`, of a random number that is not negative.
abbrev pub masked : ℕ → ℕ → ℕ
masked x w = x % 2 ^ (64 - w)

-- The dither from this random number and the one before.
unfoldable pub tpdf : ℕ → ℕ → ℕ → ℤ
tpdf w r previous = sub_ℕ (masked r w) (masked previous w)

-- The sum, allowing for clipping.
unfoldable pub add_dither : ℤ → ℤ → ℤ
add_dither hyper_sample t =
    if leb_ℤ (pos 0) t
    then (if leb_ℤ hyper_sample (int64_max -ℤ t) then hyper_sample +ℤ t else int64_max)
    else (if leb_ℤ (int64_min -ℤ t) hyper_sample then hyper_sample +ℤ t else int64_min)

unfoldable pub scale : Bool → ℕ → ℤ → ℤ
scale loudness volume sample =
    if loudness then sample *ℤ pos (2 ^ 32) else sample *ℤ pos (volume * 2 ^ 16)

-- The generator and the random number before, which the connection keeps.
pub record Noise : Type 0 where
  pub ctx : RanCtx
  pub previous_random_number : ℕ

pub record Settings : Type 0 where
  pub format : SpsFormat
  pub loudness : Bool
  pub volume : ℕ
  pub dither : Bool

-- The value with its dither, and the noise after it.
unfoldable pub dithered : ℕ → ℤ → Noise → ℤ × Noise
dithered w h n =
    let (r, ctx') = r64i n.ctx in
    (
      add_dither h (tpdf w r n.previous_random_number),
      record { ctx = ctx'; previous_random_number = r },
    )

abbrev pub le32 : ℤ → List ℕ
le32 x = byte x 0 ∷ byte x 8 ∷ byte x 16 ∷ byte x 24 ∷ []

abbrev pub be32 : ℤ → List ℕ
be32 x = byte x 24 ∷ byte x 16 ∷ byte x 8 ∷ byte x 0 ∷ []

module _ (little_endian : Bool) where
  -- A word in the order of the machine, given with the least significant byte first and last.
  abbrev pub by_host : List ℕ → List ℕ → List ℕ
  by_host le be = if little_endian then le else be

  -- What is stored for the value, of which the bits above the format's width are taken.
  unfoldable pub to_bytes : SpsFormat → ℤ → Option (List ℕ)
  to_bytes s32_le h = let x = shift_right h 32 in some (le32 x)
  to_bytes s32_be h = let x = shift_right h 32 in some (be32 x)
  to_bytes s32 h = let x = shift_right h 32 in some (by_host (le32 x) (be32 x))
  to_bytes s24_3le h = let x = shift_right h 40 in some (byte x 0 ∷ byte x 8 ∷ byte x 16 ∷ [])
  to_bytes s24_3be h = let x = shift_right h 40 in some (byte x 16 ∷ byte x 8 ∷ byte x 0 ∷ [])
  to_bytes s24_le h = let x = shift_right h 40 in some (byte x 0 ∷ byte x 8 ∷ byte x 16 ∷ 0 ∷ [])
  to_bytes s24_be h = let x = shift_right h 40 in some (0 ∷ byte x 16 ∷ byte x 8 ∷ byte x 0 ∷ [])
  to_bytes s24 h = let x = shift_right h 40 in some (by_host (le32 x) (be32 x))
  to_bytes s16_le h = let x = shift_right h 48 in some (byte x 0 ∷ byte x 8 ∷ [])
  to_bytes s16_be h = let x = shift_right h 48 in some (byte x 8 ∷ byte x 0 ∷ [])
  to_bytes s16 h =
      let x = shift_right h 48 in
      some (by_host (byte x 0 ∷ byte x 8 ∷ []) (byte x 8 ∷ byte x 0 ∷ []))
  to_bytes s8 h = some (byte (shift_right h 56) 0 ∷ [])
  to_bytes u8 h = some (unsigned (2 ^ 8) (shift_right h 56 +ℤ pos 128) ∷ [])
  to_bytes unknown h = none
  to_bytes auto h = none
  to_bytes invalid h = none

  -- `none` is where the function dies.
  unfoldable pub process_sample : Settings → ℤ → Noise → Option (List ℕ × Noise)
  process_sample s sample n = do
    let h = scale s.loudness s.volume sample
    w ← width s.format
    let (h', n') = if s.dither then dithered w h n else (h, n)
    bytes ← to_bytes s.format h'
    some (bytes, n')

  -- Samples one after the other, as the loops over a buffer put them out.
  unfoldable pub process_samples : Settings → List ℤ → Noise → Option (List ℕ × Noise)
  process_samples s [] n = some ([], n)
  process_samples s (x ∷ xs) n = do
    (bytes, n') ← process_sample s x n
    (more, n'') ← process_samples s xs n'
    some (bytes ++ more, n'')
