-- ===== src/Rtp/Pings/Tests.antt =====
-- The theorem on the pings of src/rtp.c at a reply that came back faster than the request went.
use shairport_sync_for_openw.Prelude.{ℕ, false, List, [], ◌∷◌}
use shairport_sync_for_openw.Rtp.Pings.{State}

-- It gives 100.5 seconds for both of its times.
abbrev reply : List ℕ
reply =
    128 ∷ 211 ∷ 0 ∷ 7 ∷ 0 ∷ 0 ∷ 0 ∷ 0 ∷ 0 ∷ 0 ∷ 0 ∷ 0 ∷ 0 ∷ 0 ∷ 0 ∷ 0 ∷ 0 ∷ 0 ∷ 0 ∷ 100 ∷ 128 ∷ 0
    ∷ 0 ∷ 0 ∷ 0 ∷ 0 ∷ 0 ∷ 100 ∷ 128 ∷ 0 ∷ 0 ∷ 0 ∷ []

-- The clock is 100 seconds ahead.
abbrev ahead : ℕ
ahead = 100000000000

abbrev start : State
start = record {
  time_pings =
      record {
        dispersion = 2000;
        local_time = 100000;
        remote_time = 100000100500;
        sequence_number = 0;
        chosen = false;
      }
      ∷ [];
  sequence_number = 1;
  local_to_remote_time_difference = 100000000500;
  measurement_time = 100000;
}
