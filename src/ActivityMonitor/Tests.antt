-- ===== src/ActivityMonitor/Tests.antt =====
-- The activity monitor at concrete moves.
use shairport_sync_for_openw.Prelude.{◌≡◌, true, false, [], ◌∷◌}
use shairport_sync_for_openw.ActivityMonitor.{am_inactive, am_active, going_active, signify, run}
use shairport_sync_for_openw.ActivityMonitor.Laws.{monitor, idle, wake_ups, monitor_stays_active}

monitor_stays_active_example :
    run (signify true ∷ signify false ∷ wake_ups (true ∷ false ∷ [])) (idle [])
    ≡ monitor am_active false am_inactive false (going_active ∷ [])
monitor_stays_active_example = monitor_stays_active (true ∷ false ∷ []) []
