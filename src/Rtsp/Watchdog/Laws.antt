-- ===== src/Rtsp/Watchdog/Laws.antt =====
-- What the watchdog does to a silent session.
use shairport_sync_for_openw.Prelude.{ℕ, ◌≡◌, ◌⊎◌, List, [], ◌∷◌}
use shairport_sync_for_openw.Rtsp.Watchdog.{Settings, State, Action, run_unfixable, die, run}

abbrev pub actions : Settings → List ℕ → State → List Action
actions e ts s = (run e ts s).1

-- At the third bark the error is reported, by the command or by the end of the program.
abbrev pub IsReport : List Action → Type 0
IsReport a = (a ≡ run_unfixable ∷ []) ⊎ (a ≡ die ∷ [])
