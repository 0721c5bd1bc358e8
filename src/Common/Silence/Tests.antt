-- ===== src/Common/Silence/Tests.antt =====
-- Silence in 16 bits, from a generator whose state is given.
use shairport_sync_for_openw.Prelude.{◌≡◌, refl, arith, true, false, some, replicate}
use shairport_sync_for_openw.Prelude.Int.{pos}
use shairport_sync_for_openw.Common.Silence.{generate_zero_frames}
use shairport_sync_for_openw.Common.Silence.Laws.{generate_zero_frames-eq}
use shairport_sync_for_openw.Player.Sample.{Noise, s16_le, width, process_samples}

abbrev noise : Noise
noise = record { ctx = record { a = 1; b = 2; c = 3; d = 4 }; previous_random_number = 7 }

abbrev width_16 : width s16_le ≡ some 16
unfolding width
width_16 = refl

generate_zero_frames-eq_example :
    generate_zero_frames true 2 s16_le true noise
    ≡ process_samples true
        (record { format = s16_le; loudness = false; volume = 65536; dither = true })
        (replicate 4 (pos 0))
        noise
generate_zero_frames-eq_example =
    generate_zero_frames-eq true s16_le width_16 false 65536 2 noise (omega arith)
