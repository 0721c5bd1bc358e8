-- ===== src/Player/GetFrame/Clock.antt =====
-- What `buffer_get_frame` uses of the timing functions of src/rtp.c, at one moment: whether there is
-- timing information, and the two conversions between frames and local time.
use shairport_sync_for_openw.Prelude.{ℕ, Bool}

pub record Clock : Type 0 where
  pub have_timing : Bool
  pub frame_to_local_time : ℕ → ℕ
  pub local_time_to_frame : ℕ → ℕ
