-- ===== src/Rtsp/FlushRequests/Tests.antt =====
-- The order of flush requests of src/rtsp.c at a concrete list.
use shairport_sync_for_openw.Prelude.{ℕ, ◌+◌, refl, true, false, [], ◌∷◌}
use shairport_sync_for_openw.Rtsp.FlushRequests.{FlushRequest, goes_before}
use shairport_sync_for_openw.Rtsp.FlushRequests.Order.{IsSorted}

abbrev from : ℕ → FlushRequest
from n = record {
  flush_now = false;
  flush_from_seq = n;
  flush_from_ts = 100;
  flush_until_seq = n + 10;
  flush_until_ts = 200;
}

abbrev now : FlushRequest
now = record (from 0) { flush_now = true; flush_from_ts = 0 }

now_first : IsSorted (now ∷ from 9 ∷ [])
unfolding goes_before
now_first = (refl, (tt, tt))
