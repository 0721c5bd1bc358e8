-- ===== src/Rtsp/Watchdog/Tests.antt =====
-- The watchdog of src/rtsp.c on a silent session.
use shairport_sync_for_openw.Prelude.{ℕ, true, false, List, [], ◌∷◌}
use shairport_sync_for_openw.Rtsp.Watchdog.{Settings, State}

abbrev two_minutes : Settings
two_minutes = record {
  dont_check_timeout = false;
  timeout = 120;
  is_ap_1 = true;
  has_cmd_unfixable = false;
}

abbrev fresh : State
fresh = record {
  watchdog_bark_time = 1;
  watchdog_barks = 0;
  stop = false;
  unfixable_error_reported = false;
}

-- Every two seconds, from the second minute on.
abbrev times : List ℕ
times = 119000000001 ∷ 121000000001 ∷ 123000000001 ∷ 125000000001 ∷ []
