-- ===== src/Player/Sample/Tests.antt =====
-- One sample in some formats.
use shairport_sync_for_openw.Prelude.{ℕ, ◌≡◌, refl, arith, List, true, false, some, [], ◌∷◌}
use shairport_sync_for_openw.Prelude.Int.{pos, negsuc}
use shairport_sync_for_openw.Player.Sample.{
  Noise, Settings, s24_3be, u8, width, shift_right, scale, process_sample, to_bytes,
}
use shairport_sync_for_openw.Player.Sample.Bits.{value}
use shairport_sync_for_openw.Player.Sample.Dither.{process_sample-IsNear, IsNear}

abbrev noise : Noise
noise = record { ctx = record { a = 1; b = 2; c = 3; d = 4 }; previous_random_number = 7 }

abbrev half : Settings
half = record { format = s24_3be; loudness = false; volume = 32768; dither = false }

abbrev width_24 : width s24_3be ≡ some 24
unfolding width
width_24 = refl

negative_sample : process_sample true half (negsuc 511) noise ≡ some (255 ∷ 255 ∷ 255 ∷ [], noise)
unfolding process_sample width scale to_bytes shift_right
negative_sample = refl

silence_in_u8 : to_bytes true u8 (pos 0) ≡ some (128 ∷ [])
unfolding to_bytes shift_right
silence_in_u8 = refl

process_sample-IsNear_example :
    (plain noisy : List ℕ) × (n' : Noise) × (process_sample true half (negsuc 511) noise
      ≡ some (plain, noise))
    × (value true s24_3be plain ≡ shift_right (scale false 32768 (negsuc 511)) 40)
    × (process_sample true (record half { dither = true }) (negsuc 511) noise ≡ some (noisy, n'))
    × IsNear (value true s24_3be noisy) (value true s24_3be plain)
process_sample-IsNear_example =
    process_sample-IsNear true half (negsuc 511) noise width_24 (omega arith) (omega arith)
