-- ===== src/Player/Stuff/Tests.antt =====
-- A buffer of a hundred frames, from which one is left out.
use shairport_sync_for_openw.Prelude.{ℕ, ◌+◌, ◌*◌, ◌≤◌, ◌<◌, ◌≡◌, refl, arith, true, false, length}
use shairport_sync_for_openw.Prelude.Int.{ℤ, pos, negsuc, ◌+ℤ◌, ◌*ℤ◌}
use shairport_sync_for_openw.Player.Sample.{Noise, Settings, s16_le, process_samples}
use shairport_sync_for_openw.Player.Stuff.{
  mean_32, stuff_amount, stuff_place, stuff_buffer_basic_32,
}
use shairport_sync_for_openw.Player.Stuff.Output.{with_frames}
use shairport_sync_for_openw.Player.Stuff.Laws.{stuffed, stuff_buffer_basic_32_lem}

abbrev noise : Noise
noise = record { ctx = record { a = 1; b = 2; c = 3; d = 4 }; previous_random_number = 7 }

abbrev settings : Settings
settings = record { format = s16_le; loudness = false; volume = 65536; dither = false }

abbrev ramp : ℕ → ℤ
ramp i = pos (65536 * i)

mean_of_signs : mean_32 (pos 8) (negsuc 3) ≡ pos 2
unfolding mean_32
mean_of_signs = refl

too_short : stuff_amount (pos 1) 99 ≡ pos 0
unfolding stuff_amount
too_short = refl

stuff_buffer_basic_32_lem_example :
    (stuff_buffer_basic_32 true settings ramp 100 (negsuc 0) 1000 noise
      ≡ with_frames
          (process_samples true settings
            (stuffed ramp 100 (stuff_amount (negsuc 0) 100) (stuff_place 100 1000))
            noise)
          (pos 100 +ℤ stuff_amount (negsuc 0) 100))
    × (pos (length (stuffed ramp 100 (stuff_amount (negsuc 0) 100) (stuff_place 100 1000)))
        ≡ pos 2 *ℤ (pos 100 +ℤ stuff_amount (negsuc 0) 100))
    × (1 ≤ stuff_place 100 1000)
    × (stuff_place 100 1000 + 1 < 100)
stuff_buffer_basic_32_lem_example =
    stuff_buffer_basic_32_lem true settings ramp 100 (negsuc 0) 1000 noise (omega arith)
