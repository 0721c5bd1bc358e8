-- ===== src/Player/Stuff/Laws.antt =====
-- What `stuff_buffer_basic_32` puts out, as a list of samples.
use mathlib.Core.Path.{ap₂}
use native.Mathlib.Nat.{mod-lt}
use shairport_sync_for_openw.Prelude.{
  ℕ, zero, suc, ◌+◌, ◌-◌, ◌*◌, ◌^◌, ◌≤◌, ◌<◌, ◌≡◌, refl, sym, ap, fun_ext, ◌∙◌, arith, Bool, false,
  some, List, [], ◌∷◌, ◌++◌, length, take, drop, length-append, length-take, length-drop, ltb,
  if◌then◌else◌, ◌⊎◌,
}
use shairport_sync_for_openw.Prelude.Int.{ℤ, pos, negsuc, ◌+ℤ◌, ◌*ℤ◌, pos_part, neg_part}
use shairport_sync_for_openw.Window.{slice, length-slice}
use shairport_sync_for_openw.Player.Sample.{Noise, Settings, process_sample, process_samples}
use shairport_sync_for_openw.Player.Stuff.{
  mean_32, stuff_amount, stuff_place, put_frame, put_frames, put_stuff, remainder, stuff_at,
  is_zero, stuff_buffer_basic_32,
}
use shairport_sync_for_openw.Player.Stuff.Output.{
  prepend-nil, then_put-nil, then_put, with_frames, join, take-slice, drop-slice,
  process_samples-append, process_samples_three,
}

-- The mean of two 32-bit samples lies between them.
mean_32_bounds :
    (a b : ℤ)
    → (pos_part a < 2 ^ 31)
    → (neg_part a ≤ 2 ^ 31)
    → (pos_part b < 2 ^ 31)
    → (neg_part b ≤ 2 ^ 31)
    → pos_part a + neg_part b ≤ pos_part b + neg_part a
    → (pos_part a + neg_part (mean_32 a b) ≤ pos_part (mean_32 a b) + neg_part a)
      × (pos_part (mean_32 a b) + neg_part b ≤ pos_part b + neg_part (mean_32 a b))
unfolding mean_32
mean_32_bounds (pos a) (pos b) h i j k o = ground arith
mean_32_bounds (pos a) (negsuc b) h i j k o = ground arith
mean_32_bounds (negsuc a) (pos b) h i j k o = ground arith
mean_32_bounds (negsuc a) (negsuc b) h i j k o = ground arith

module _ (inptr : ℕ → ℤ) where
  -- The buffer of `frames` frames.
  abbrev pub buffer : ℕ → List ℤ
  buffer frames = slice inptr 0 (2 * frames)

  -- The mean of the frames on both sides of sample `p`.
  abbrev pub mean_frame : ℕ → List ℤ
  mean_frame p = mean_32 (inptr (p - 2)) (inptr p) ∷ mean_32 (inptr (p - 1)) (inptr (p + 1)) ∷ []

  -- The buffer with a frame added after `place` frames, or with the frame there left out.
  abbrev pub stuffed : ℕ → ℤ → ℕ → List ℤ
  stuffed frames (pos (suc zero)) place =
      take (2 * place) (buffer frames)
      ++ (mean_frame (2 * place) ++ drop (2 * place) (buffer frames))
  stuffed frames (negsuc zero) place =
      take (2 * place) (buffer frames) ++ drop (2 * place + 2) (buffer frames)
  stuffed frames t place = buffer frames

module _ (l : Bool) (s : Settings) where
  module _ (inptr : ℕ → ℤ) where
    put_frame-eq :
        (x y : ℤ) (n : Noise) → put_frame l s inptr x y n ≡ process_samples l s (x ∷ y ∷ []) n
    unfolding put_frame process_samples
    put_frame-eq x y n =
        ap (then_put (process_sample l s x n))
          (fun_ext (λ m. sym (then_put-nil (process_sample l s y m))))

    put_frames-eq :
        (frames p : ℕ) (n : Noise)
        → put_frames l s inptr frames p n ≡ process_samples l s (slice inptr p (2 * frames)) n
    unfolding put_frames slice process_samples
    put_frames-eq zero p n = refl
    put_frames-eq (suc frames) p n =
        let e : 2 * suc frames ≡ suc (suc (2 * frames)) = omega arith in
        let q : p + 1 + 1 ≡ p + 2 = omega arith in
        rw (e, q)
          (ap₂ then_put (put_frame-eq (inptr p) (inptr (p + 1)) n)
              (fun_ext (put_frames-eq frames (p + 2)))
            ∙ sym (
                process_samples-append l s (inptr p ∷ inptr (p + 1) ∷ [])
                  (slice inptr (p + 2) (2 * frames)) n))

    stuff_at_more :
        (frames place : ℕ) (n : Noise)
        → place ≤ frames
        → stuff_at l s inptr frames (pos 1) place n
          ≡ process_samples l s (stuffed inptr frames (pos 1) place) n
    unfolding stuff_at put_stuff remainder
    stuff_at_more frames place n h =
        let x = mean_32 (inptr (2 * place - 2)) (inptr (2 * place)) in
        let y = mean_32 (inptr (2 * place - 1)) (inptr (2 * place + 1)) in
        join (put_frames l s inptr place 0 n) (2 * place) (put_frame l s inptr x y)
          (put_frames l s inptr (frames - place))
        ∙ (ap₂ then_put (put_frames-eq place 0 n) (
              fun_ext (λ m.
                ap₂ then_put (put_frame-eq x y m)
                  (fun_ext (put_frames-eq (frames - place) (2 * place)))))
            ∙ (process_samples_three l s (slice inptr 0 (2 * place)) (x ∷ y ∷ [])
                  (slice inptr (2 * place) (2 * (frames - place))) n
                ∙ ap₂ (λ xs zs. process_samples l s (xs ++ (x ∷ y ∷ zs)) n)
                    (sym (take-slice inptr 0 (2 * place) (2 * frames) (omega arith)))
                    (ap₂ (slice inptr) (omega arith) (omega arith)
                      ∙ sym (drop-slice inptr 0 (2 * place) (2 * frames) (omega arith)))))

    stuff_at_less :
        (frames place : ℕ) (n : Noise)
        → place < frames
        → stuff_at l s inptr frames (negsuc 0) place n
          ≡ process_samples l s (stuffed inptr frames (negsuc 0) place) n
    unfolding stuff_at put_stuff remainder
    stuff_at_less frames place n h =
        join (put_frames l s inptr place 0 n) (2 * place + 2) (λ m. some ([], m))
          (put_frames l s inptr (frames - 1 - place))
        ∙ (ap₂ then_put (put_frames-eq place 0 n)
              (fun_ext (λ m. prepend-nil _ ∙ put_frames-eq (frames - 1 - place) (2 * place + 2) m))
            ∙ (sym (
                  process_samples-append l s (slice inptr 0 (2 * place))
                    (slice inptr (2 * place + 2) (2 * (frames - 1 - place))) n)
                ∙ ap₂ (λ xs zs. process_samples l s (xs ++ zs) n)
                    (sym (take-slice inptr 0 (2 * place) (2 * frames) (omega arith)))
                    (ap₂ (slice inptr) (omega arith) (omega arith)
                      ∙ sym (drop-slice inptr 0 (2 * place + 2) (2 * frames) (omega arith)))))

    -- Nothing is added or left out, a frame is added, or one is left out.
    abbrev IsAmount : ℕ → ℤ → Type 0
    IsAmount frames t =
        (t ≡ pos 0) ⊎ ((t ≡ pos 1) × (100 ≤ frames) ⊎ (t ≡ negsuc 0) × (100 ≤ frames))

    stuff_amount-IsAmount : (stuff : ℤ) (frames : ℕ) → IsAmount frames (stuff_amount stuff frames)
    unfolding stuff_amount
    stuff_amount-IsAmount (pos n) frames = ground arith
    stuff_amount-IsAmount (negsuc n) frames = ground arith

    stuff_place_bounds :
        (frames r : ℕ)
        → 3 ≤ frames
        → (1 ≤ stuff_place frames r) × (stuff_place frames r + 1 < frames)
    unfolding stuff_place
    stuff_place_bounds frames r h = omega (arith, mod-lt r {m = frames - 2} (omega arith))

    length-buffer : (frames : ℕ) → length (buffer inptr frames) ≡ 2 * frames
    length-buffer frames = length-slice inptr 0 (2 * frames)

    -- Twice the frames that are said to be put out.
    length-stuffed :
        (frames : ℕ) (t : ℤ) (place : ℕ)
        → IsAmount frames t
        → place < frames
        → pos (length (stuffed inptr frames t place)) ≡ pos 2 *ℤ (pos frames +ℤ t)
    length-stuffed frames (pos zero) place a h = ground (arith, length-buffer frames)
    length-stuffed frames (pos (suc zero)) place a h = ground (
      arith,
      length-buffer frames,
      length-take (2 * place) (buffer inptr frames),
      length-drop (2 * place) (buffer inptr frames),
      length-append (take (2 * place) (buffer inptr frames))
          (mean_frame inptr (2 * place) ++ drop (2 * place) (buffer inptr frames)),
    )
    length-stuffed frames (pos (suc (suc t))) place a h = absurd (ground arith)
    length-stuffed frames (negsuc zero) place a h = ground (
      arith,
      length-buffer frames,
      length-take (2 * place) (buffer inptr frames),
      length-drop (2 * place + 2) (buffer inptr frames),
      length-append (take (2 * place) (buffer inptr frames))
          (drop (2 * place + 2) (buffer inptr frames)),
    )
    length-stuffed frames (negsuc (suc t)) place a h = absurd (ground arith)

    stuff_buffer_at :
        (frames : ℕ) (t : ℤ) (place : ℕ) (n : Noise)
        → IsAmount frames t
        → place < frames
        → (if is_zero t
            then put_frames l s inptr frames 0 n
            else stuff_at l s inptr frames t place n)
          ≡ process_samples l s (stuffed inptr frames t place) n
    stuff_buffer_at frames (pos zero) place n a h = put_frames-eq frames 0 n
    stuff_buffer_at frames (pos (suc zero)) place n a h = stuff_at_more frames place n (omega arith)
    stuff_buffer_at frames (pos (suc (suc t))) place n a h = absurd (ground arith)
    stuff_buffer_at frames (negsuc zero) place n a h = stuff_at_less frames place n h
    stuff_buffer_at frames (negsuc (suc t)) place n a h = absurd (ground arith)

    -- With three frames or more, `stuff_buffer_basic_32` puts out the samples of the buffer with
    -- the mean frame added, with a frame left out, or as they are, by the amount that it stuffs;
    -- the place is after the first frame and before the last. The frames that it returns are the
    -- frames that it put out.
    pub stuff_buffer_basic_32_lem :
        (frames : ℕ) (stuff : ℤ) (r : ℕ) (n : Noise)
        → 3 ≤ frames
        → (stuff_buffer_basic_32 l s inptr frames stuff r n
            ≡ with_frames
                (process_samples l s
                  (stuffed inptr frames (stuff_amount stuff frames) (stuff_place frames r))
                  n)
                (pos frames +ℤ stuff_amount stuff frames))
          × (pos (length (stuffed inptr frames (stuff_amount stuff frames) (stuff_place frames r)))
              ≡ pos 2 *ℤ (pos frames +ℤ stuff_amount stuff frames))
          × (1 ≤ stuff_place frames r)
          × (stuff_place frames r + 1 < frames)
    unfolding stuff_buffer_basic_32
    stuff_buffer_basic_32_lem frames stuff r n h =
        let a = stuff_amount-IsAmount stuff frames in
        let (lo, hi) = stuff_place_bounds frames r h in
        let place = stuff_place frames r in
        let t = stuff_amount stuff frames in
        let big : ltb frames 3 ≡ false = ground arith in
        (
          rw big (
              ap (λ o. with_frames o (pos frames +ℤ t))
                (stuff_buffer_at frames t place n a (omega arith))),
          length-stuffed frames t place a (omega arith),
          lo,
          hi,
        )
