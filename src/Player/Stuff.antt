-- ===== src/Player/Stuff.antt =====
-- `mean_32` and `stuff_buffer_basic_32` of src/player.c: a buffer of interleaved stereo samples is
-- put out with one frame more or less. What `rand` gives is an argument.
mod Output
pub mod Laws
mod Tests
use shairport_sync_for_openw.Prelude.{
  ℕ, zero, suc, ◌+◌, ◌-◌, ◌*◌, ◌%◌, ◌^◌, Bool, true, false, ◌||◌, Option, none, some, List, [], ◌∷◌,
  ◌++◌, ltb, ◌==◌, if◌then◌else◌, ◌>>=◌,
}
use shairport_sync_for_openw.Prelude.Int.{ℤ, pos, negsuc, ◌+ℤ◌, ltb_ℤ, div_ℤ, signed32, unsigned}
use shairport_sync_for_openw.Player.Sample.{Noise, Settings, process_sample}

pub mean_32 : ℤ → ℤ → ℤ
mean_32 a b = signed32 (unsigned (2 ^ 32) (div_ℤ (a +ℤ b) 2))

-- `tstuff`.
pub stuff_amount : ℤ → ℕ → ℤ
stuff_amount stuff length =
    if ltb_ℤ (pos 1) stuff || (ltb_ℤ stuff (negsuc 0) || ltb length 100) then pos 0 else stuff

-- Where the frame is added or left out: after the first frame, and before the last.
pub stuff_place : ℕ → ℕ → ℕ
stuff_place length r = r % (length - 2) + 1

abbrev pub is_zero : ℤ → Bool
is_zero (pos zero) = true
is_zero (pos (suc n)) = false
is_zero (negsuc n) = false

module _ (little_endian : Bool) (s : Settings) (inptr : ℕ → ℤ) where
  -- Two samples are put out.
  pub put_frame : ℤ → ℤ → Noise → Option (List ℕ × Noise)
  put_frame x y n = do
    (b, n') ← process_sample little_endian s x n
    (c, n'') ← process_sample little_endian s y n'
    some (b ++ c, n'')

  -- `frames` rounds of the loop, from the sample at `p` on.
  pub put_frames : ℕ → ℕ → Noise → Option (List ℕ × Noise)
  put_frames zero p n = some ([], n)
  put_frames (suc frames) p n = do
    (b, n') ← put_frame (inptr p) (inptr (p + 1)) n
    (c, n'') ← put_frames frames (p + 2) n'
    some (b ++ c, n'')

  -- What stands between the two loops, with the pointer after it.
  pub put_stuff : ℤ → ℕ → Noise → Option (List ℕ × Noise × ℕ)
  put_stuff (pos (suc zero)) p n = do
    (b, n') ←
        put_frame (mean_32 (inptr (p - 2)) (inptr p)) (mean_32 (inptr (p - 1)) (inptr (p + 1))) n
    some (b, n', p)
  put_stuff (negsuc zero) p n = some ([], n, p + 2)
  put_stuff t p n = some ([], n, p)

  pub remainder : ℕ → ℤ → ℕ
  remainder length (negsuc n) = length - suc n
  remainder length (pos n) = length

  pub stuff_at : ℕ → ℤ → ℕ → Noise → Option (List ℕ × Noise)
  stuff_at length tstuff place n = do
    (b, n') ← put_frames place 0 n
    (c, n'', p) ← put_stuff tstuff (2 * place) n'
    (d, n''') ← put_frames (remainder length tstuff - place) p n''
    some (b ++ (c ++ d), n''')

  -- The bytes, the noise after them, and the frames that are said to be put out. `none` is where
  -- the function dies.
  pub stuff_buffer_basic_32 : ℕ → ℤ → ℕ → Noise → Option (List ℕ × Noise × ℤ)
  stuff_buffer_basic_32 length stuff r n = if ltb length 3 then none else (do
    let tstuff = stuff_amount stuff length
    (b, n') ←
        if is_zero tstuff
        then put_frames length 0 n
        else stuff_at length tstuff (stuff_place length r) n
    some (b, n', pos length +ℤ tstuff))
