-- ===== src/Rtsp/Watchdog.antt =====
-- `player_watchdog_thread_code` of src/rtsp.c.
pub mod Laws
mod Tests
use shairport_sync_for_openw.Prelude.{
  ℕ, zero, suc, ◌+◌, ◌/◌, Bool, true, false, ◌&&◌, not, List, [], ◌∷◌, ◌++◌, leb, ◌==◌,
  if◌then◌else◌, sub64,
}

-- What does not change while the thread runs. `is_ap_1` is true in a build without AirPlay 2.
pub record Settings : Type 0 where
  pub dont_check_timeout : Bool
  pub timeout : ℕ
  pub is_ap_1 : Bool
  pub has_cmd_unfixable : Bool

pub record State : Type 0 where
  pub watchdog_bark_time : ℕ
  pub watchdog_barks : ℕ
  pub stop : Bool
  pub unfixable_error_reported : Bool

pub data Action : Type 0 where
  cancel_thread run_unfixable die : Action

-- The actions of one more bark.
bark : Settings → State → State × List Action
bark e s =
    let n = s.watchdog_barks + 1 in
    let t = record s { watchdog_barks = n } in
    if n == 1
    then (record t { stop = true }, cancel_thread ∷ [])
    else if n == 3
    then (if e.has_cmd_unfixable && not s.unfixable_error_reported
        then (record t { unfixable_error_reported = true }, run_unfixable ∷ [])
        else (t, die ∷ []))
    else (t, [])

-- The session has been silent for the time that is allowed.
pub is_silent : Settings → ℕ → State → Bool
is_silent e now s =
    (not e.dont_check_timeout && (not (e.timeout == 0) && e.is_ap_1))
    && (not (s.watchdog_bark_time == 0)
        && leb e.timeout (sub64 now s.watchdog_bark_time / 1000000000))

-- One round of the loop.
pub check : Settings → ℕ → State → State × List Action
unfolding bark
check e now s = if is_silent e now s then bark e s else (s, [])

-- The rounds at these times.
pub run : Settings → List ℕ → State → State × List Action
run e [] s = (s, [])
run e (t ∷ ts) s = let (s', a) = check e t s in let (s'', b) = run e ts s' in (s'', a ++ b)
