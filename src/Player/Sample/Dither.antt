-- ===== src/Player/Sample/Dither.antt =====
-- The dither of `process_sample`: no overflow, and at most one step of the output.
use mathlib.Core.Path.{subst}
use shairport_sync_for_openw.Prelude.{
  ℕ, zero, suc, ◌+◌, ◌-◌, ◌*◌, ◌%◌, ◌^◌, ◌≤◌, ◌<◌, ◌≡◌, arith, Bool, true, false, some, List,
  if◌then◌else◌, none≢some, some_inj,
}
use shairport_sync_for_openw.Prelude.Int.{ℤ, pos, negsuc, ◌+ℤ◌, leb_ℤ, pos_part, neg_part}
use shairport_sync_for_openw.Common.Random.{r64i}
use shairport_sync_for_openw.Player.Sample.{
  SpsFormat, unknown, s8, u8, s16, s16_le, s16_be, s24, s24_le, s24_be, s24_3le, s24_3be, s32,
  s32_le, s32_be, auto, invalid, Noise, Settings, int64_max, int64_min, shift_right, width, tpdf,
  add_dither, scale, dithered, to_bytes, process_sample,
}
use shairport_sync_for_openw.Player.Sample.Bits.{InInt64, value, to_bytes_read}

-- The sum cut to the range of an `int64_t`.
abbrev pub clamp64 : ℤ → ℤ
clamp64 x = if leb_ℤ x int64_min then int64_min else if leb_ℤ int64_max x then int64_max else x

-- The sum is formed without overflow: it is the exact sum, cut to the range.
pub add_dither-eq-clamp64 : (h t : ℤ) → InInt64 h → InInt64 t → add_dither h t ≡ clamp64 (h +ℤ t)
unfolding add_dither
add_dither-eq-clamp64 (pos h) (pos t) ih it = ground arith
add_dither-eq-clamp64 (pos h) (negsuc t) ih it = ground arith
add_dither-eq-clamp64 (negsuc h) (pos t) ih it = ground arith
add_dither-eq-clamp64 (negsuc h) (negsuc t) ih it = ground arith

-- At most one step of the output apart.
abbrev pub IsNear : ℤ → ℤ → Type 0
IsNear x y =
    (pos_part x + neg_part y ≤ pos_part y + neg_part x + 1)
    × (pos_part y + neg_part x ≤ pos_part x + neg_part y + 1)

abbrev Small : ℕ → ℤ → Type 0
Small k t = (pos_part t < 2 ^ k) × (neg_part t < 2 ^ k)

abbrev Near : ℕ → ℤ → ℤ → Type 0
Near k h t = IsNear (shift_right (add_dither h t) k) (shift_right h k) × InInt64 (add_dither h t)

near32 : (h t : ℤ) → InInt64 h → Small 32 t → Near 32 h t
unfolding add_dither shift_right
near32 (pos h) (pos t) ih it = ground arith
near32 (pos h) (negsuc t) ih it = ground arith
near32 (negsuc h) (pos t) ih it = ground arith
near32 (negsuc h) (negsuc t) ih it = ground arith

near40 : (h t : ℤ) → InInt64 h → Small 40 t → Near 40 h t
unfolding add_dither shift_right
near40 (pos h) (pos t) ih it = ground arith
near40 (pos h) (negsuc t) ih it = ground arith
near40 (negsuc h) (pos t) ih it = ground arith
near40 (negsuc h) (negsuc t) ih it = ground arith

near48 : (h t : ℤ) → InInt64 h → Small 48 t → Near 48 h t
unfolding add_dither shift_right
near48 (pos h) (pos t) ih it = ground arith
near48 (pos h) (negsuc t) ih it = ground arith
near48 (negsuc h) (pos t) ih it = ground arith
near48 (negsuc h) (negsuc t) ih it = ground arith

near56 : (h t : ℤ) → InInt64 h → Small 56 t → Near 56 h t
unfolding add_dither shift_right
near56 (pos h) (pos t) ih it = ground arith
near56 (pos h) (negsuc t) ih it = ground arith
near56 (negsuc h) (pos t) ih it = ground arith
near56 (negsuc h) (negsuc t) ih it = ground arith

abbrev NearAt : ℕ → Type 0
NearAt w = (h t : ℤ) → InInt64 h → Small (64 - w) t → Near (64 - w) h t

-- The widths that there are.
near : (f : SpsFormat) {w : ℕ} → width f ≡ some w → NearAt w
unfolding width
near s32 e = subst NearAt (some_inj e) near32
near s32_le e = subst NearAt (some_inj e) near32
near s32_be e = subst NearAt (some_inj e) near32
near s24 e = subst NearAt (some_inj e) near40
near s24_le e = subst NearAt (some_inj e) near40
near s24_be e = subst NearAt (some_inj e) near40
near s24_3le e = subst NearAt (some_inj e) near40
near s24_3be e = subst NearAt (some_inj e) near40
near s16 e = subst NearAt (some_inj e) near48
near s16_le e = subst NearAt (some_inj e) near48
near s16_be e = subst NearAt (some_inj e) near48
near s8 e = subst NearAt (some_inj e) near56
near u8 e = subst NearAt (some_inj e) near56
near unknown e = absurd (none≢some e)
near auto e = absurd (none≢some e)
near invalid e = absurd (none≢some e)

pow-pos : (k : ℕ) → 0 < 2 ^ k
pow-pos zero = omega arith
pow-pos (suc k) = omega (arith, pow-pos k)

mod-lt_pow : (r k : ℕ) → r % 2 ^ k < 2 ^ k
mod-lt_pow r k = omega (arith, pow-pos k)

tpdf-Small : (w r p : ℕ) → Small (64 - w) (tpdf w r p)
unfolding tpdf
tpdf-Small w r p = ground (arith, mod-lt_pow r (64 - w), mod-lt_pow p (64 - w))

-- A sample, an `int32_t`.
abbrev pub InInt32 : ℤ → Type 0
InInt32 x = (pos_part x < 2 ^ 31) × (neg_part x ≤ 2 ^ 31)

product-le : (a b c d : ℕ) → a ≤ c → b ≤ d → a * b ≤ c * d
product-le a b c d p q = grind arith

pub scale-InInt64 :
    (loudness : Bool) (volume : ℕ) (x : ℤ)
    → InInt32 x
    → volume ≤ 2 ^ 16
    → InInt64 (scale loudness volume x)
unfolding scale
scale-InInt64 true v (pos n) h hv = ground arith
scale-InInt64 true v (negsuc n) h hv = ground arith
scale-InInt64 false v (pos n) h hv =
    ground (arith, product-le n (v * 2 ^ 16) (2 ^ 31 - 1) (2 ^ 32) (omega arith) (omega arith))
scale-InInt64 false v (negsuc n) h hv =
    ground (arith, product-le (suc n) (v * 2 ^ 16) (2 ^ 31) (2 ^ 32) (omega arith) (omega arith))

module _ (l : Bool) (s : Settings) (x : ℤ) (n : Noise) where
  abbrev scaled : ℤ
  scaled = scale s.loudness s.volume x

  -- What `process_sample` puts out, with dither or without: the bytes, and the noise after.
  abbrev Puts : Bool → List ℕ → Noise → Type 0
  Puts b bs n' = process_sample l (record s { dither = b }) x n ≡ some (bs, n')

  plain-Puts :
      (w : ℕ) (bs : List ℕ)
      → width s.format ≡ some w
      → to_bytes l s.format scaled ≡ some bs
      → Puts false bs n
  unfolding process_sample
  plain-Puts w bs hw hb = ground arith

  dithered-Puts :
      (w : ℕ) (bs : List ℕ)
      → width s.format ≡ some w
      → to_bytes l s.format (dithered w scaled n).0 ≡ some bs
      → Puts true bs (dithered w scaled n).1
  unfolding process_sample
  dithered-Puts w bs hw hb = ground arith

  dithered-Near :
      {w : ℕ}
      → width s.format ≡ some w
      → InInt64 scaled
      → IsNear (shift_right (dithered w scaled n).0 (64 - w)) (shift_right scaled (64 - w))
        × InInt64 (dithered w scaled n).0
  unfolding dithered
  dithered-Near {w} hw i =
      near s.format hw scaled (tpdf w (r64i n.ctx).0 n.previous_random_number) i
        (tpdf-Small w (r64i n.ctx).0 n.previous_random_number)

  -- For a format that has a width, an `int32_t` and a volume of at most 65536, `process_sample`
  -- without dither puts out bytes that are read as the scaled sample cut to the width, and leaves
  -- the noise. With dither it puts out bytes that are read as a sample at most one step away from
  -- that: clipping never wraps.
  pub process_sample-IsNear :
      {w : ℕ}
      → width s.format ≡ some w
      → InInt32 x
      → s.volume ≤ 2 ^ 16
      → (plain noisy : List ℕ) × (n' : Noise) × Puts false plain n
        × (value l s.format plain ≡ shift_right scaled (64 - w))
        × Puts true noisy n'
        × IsNear (value l s.format noisy) (value l s.format plain)
  process_sample-IsNear {w} hw hx hv =
      let i = scale-InInt64 s.loudness s.volume x hx hv in
      let (d, i') = dithered-Near hw i in
      let (plain, p, pv) = to_bytes_read l s.format scaled i hw in
      let (noisy, q, qv) = to_bytes_read l s.format (dithered w scaled n).0 i' hw in
      (
        plain,
        noisy,
        (dithered w scaled n).1,
        plain-Puts w plain hw p,
        pv,
        dithered-Puts w noisy hw q,
        rw (pv, qv) d,
      )
