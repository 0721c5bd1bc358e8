-- ===== src/Rtp/Pings/Accuracy.antt =====
-- How far the difference of the clocks of src/rtp.c can be from the true one.
use shairport_sync_for_openw.Prelude.{ℕ, ◌+◌, ◌/◌, ◌^◌, ◌≤◌, ◌<◌, ◌≡◌}
use shairport_sync_for_openw.Rtp.Pings.{Ping}

-- The difference of the two times of a ping is within half its dispersion of `d`.
abbrev pub IsNear : ℕ → Ping → Type 0
IsNear d p =
    (p.local_time + d ≤ p.remote_time + (p.dispersion + 1) / 2)
    × (p.remote_time ≤ p.local_time + d + p.dispersion / 2)

-- A request and its reply with a clock that is ahead of ours by `d`: the times that they took on the
-- way, and between them.
pub record Exchange (d departure arrival receive transmit : ℕ) : Type 0 where
  pub there : ℕ
  pub processing : ℕ
  pub back : ℕ
  pub received : receive ≡ departure + there + d
  pub replied : transmit ≡ receive + processing
  pub arrived : arrival ≡ departure + there + processing + back
  pub takes_time : 0 < there + back
  pub is_short : there + processing + back < 200000000
  pub no_overflow : arrival + d < 2 ^ 63
