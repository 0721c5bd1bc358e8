-- ===== src/ActivityMonitor.antt =====
-- The activity monitor of src/activity_monitor.c. Each hold of the mutex is one step: a call of
-- `activity_monitor_signify_activity`, or the thread waking up. The hooks run after the mutex is let
-- go, so `log` has the changes of state in their order, the last one first.
pub mod Laws
mod Tests
use shairport_sync_for_openw.Prelude.{Bool, true, false, ◌&&◌, not, List, [], ◌∷◌, if◌then◌else◌}

pub data AmState : Type 0 where
  am_inactive am_active am_timing_out : AmState

-- `going_active` or `going_inactive` is called.
pub data Hook : Type 0 where
  going_active going_inactive : Hook

-- `waits_in` is the case of the `switch` that the thread waits in, and `player_active` the player's
-- state. `no_timeout` says that `active_state_timeout` is 0.
pub record Monitor : Type 0 where
  pub state : AmState
  pub player_active : Bool
  pub waits_in : AmState
  pub no_timeout : Bool
  pub log : List Hook

pub start : Bool → Monitor
start no_timeout = record {
  state = am_inactive;
  player_active = false;
  waits_in = am_inactive;
  no_timeout = no_timeout;
  log = [];
}

go_active : Monitor → Monitor
go_active m = record m { state = am_active; log = going_active ∷ m.log }

go_inactive : Monitor → Monitor
go_inactive m = record m { state = am_inactive; log = going_inactive ∷ m.log }

-- The state at the call is given first.
signify_in : AmState → Bool → Monitor → Monitor
signify_in am_inactive active m = if active then go_active m else m
signify_in am_active active m = if not active && m.no_timeout then go_inactive m else m
signify_in am_timing_out active m = m

pub signify_activity : Bool → Monitor → Monitor
signify_activity active m = signify_in m.state active (record m { player_active = active })

-- The thread starts to time out, unless the state is inactive already.
leave_active : AmState → Monitor → Monitor
leave_active am_inactive m = record m { waits_in = am_inactive }
leave_active _ m = record m { state = am_timing_out; waits_in = am_timing_out }

-- The thread wakes up in the case that it waits in.
wake_in : AmState → Bool → Monitor → Monitor
wake_in am_inactive timed_out m = if m.player_active then record m { waits_in = m.state } else m
wake_in am_active timed_out m = if m.player_active then m else leave_active m.state m
wake_in am_timing_out timed_out m =
    if m.player_active
    then record m { state = am_active; waits_in = am_active }
    else if timed_out
    then go_inactive (record m { waits_in = am_inactive })
    else m

-- `timed_out` says that the time of a timed wait is over.
pub wake : Bool → Monitor → Monitor
wake timed_out m = wake_in m.waits_in timed_out m

pub data Move : Type 0 where
  signify wakes : Bool → Move

pub move : Move → Monitor → Monitor
move (signify active) m = signify_activity active m
move (wakes timed_out) m = wake timed_out m

pub run : List Move → Monitor → Monitor
run [] m = m
run (x ∷ xs) m = run xs (move x m)
