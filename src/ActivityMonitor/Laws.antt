-- ===== src/ActivityMonitor/Laws.antt =====
-- What the activity monitor keeps, and when it does not come to time out.
use shairport_sync_for_openw.Prelude.{ℕ, zero, suc, ◌≡◌, refl, ap, Bool, true, false, List, [], ◌∷◌}
use shairport_sync_for_openw.ActivityMonitor.{
  AmState, am_inactive, am_active, am_timing_out, Hook, going_active, going_inactive, Monitor,
  start, go_active, go_inactive, signify_in, signify_activity, leave_active, wake_in, wake, Move,
  signify, wakes, move, run,
}

-- Hooks that alternate, the last one first, up to one that leaves the state active or not.
abbrev pub IsLog : Bool → List Hook → Type 0
IsLog false [] = Unit
IsLog true [] = ⊥
IsLog true (going_active ∷ l) = IsLog false l
IsLog false (going_active ∷ l) = ⊥
IsLog false (going_inactive ∷ l) = IsLog true l
IsLog true (going_inactive ∷ l) = ⊥

abbrev pub is_active : AmState → Bool
is_active am_inactive = false
is_active _ = true

-- The pairs of a state and the case the thread waits in that can be.
abbrev Waits : AmState → AmState → Type 0
Waits am_timing_out am_timing_out = Unit
Waits am_timing_out _ = ⊥
Waits _ am_timing_out = ⊥
Waits _ _ = Unit

pub record IsValid (m : Monitor) : Type 0 where
  pub logged : IsLog (is_active m.state) m.log
  pub idle : m.state ≡ am_inactive → m.player_active ≡ false
  pub waits : Waits m.state m.waits_in

abbrev pub monitor : AmState → Bool → AmState → Bool → List Hook → Monitor
monitor s p w z l = record { state = s; player_active = p; waits_in = w; no_timeout = z; log = l }

pub start-IsValid : (no_timeout : Bool) → IsValid (start no_timeout)
unfolding start
start-IsValid z = record { logged = tt; idle = λ e. refl; waits = tt }

-- The thread wakes up a number of times.
abbrev pub wake_ups : List Bool → List Move
wake_ups [] = []
wake_ups (t ∷ ts) = wakes t ∷ wake_ups ts

asleep :
    (ts : List Bool) (s : AmState) (z : Bool) (l : List Hook)
    → run (wake_ups ts) (monitor s false am_inactive z l) ≡ monitor s false am_inactive z l
unfolding run move wake wake_in
asleep [] s z l = refl
asleep (t ∷ ts) s z l = asleep ts s z l

-- With a timeout set, the player inactive and the thread waiting for it to go active.
abbrev pub idle : List Hook → Monitor
idle l = monitor am_inactive false am_inactive false l

-- When the player goes active and inactive again before the thread wakes up, with a timeout set, the
-- state stays active however often the thread wakes up after that, for it waits for the player to go
-- active.
pub monitor_stays_active :
    (ts : List Bool) (l : List Hook)
    → run (signify true ∷ signify false ∷ wake_ups ts) (idle l)
      ≡ monitor am_active false am_inactive false (going_active ∷ l)
unfolding run move signify_activity signify_in go_active
monitor_stays_active ts l = asleep ts am_active false (going_active ∷ l)

-- Wake-ups before the time is over.
abbrev pub rounds : ℕ → List Move
rounds zero = []
rounds (suc n) = wakes false ∷ rounds n

timing_out :
    (n : ℕ) (z : Bool) (l : List Hook)
    → run (rounds n) (monitor am_timing_out false am_timing_out z l)
      ≡ monitor am_timing_out false am_timing_out z l
unfolding run move wake wake_in
timing_out zero z l = refl
timing_out (suc n) z l = timing_out n z l

-- When the player goes inactive while the thread waits for that, with a timeout set, the state times
-- out: it is not inactive before the time is over, however often the thread wakes up, and it is
-- inactive, with the hook called, after that.
pub monitor_times_out :
    (n : ℕ) (t : Bool) (l : List Hook)
    → let busy = monitor am_active true am_active false l in
      (run (signify false ∷ wakes t ∷ rounds n) busy
        ≡ monitor am_timing_out false am_timing_out false l)
      × (run (wakes true ∷ []) (run (signify false ∷ wakes t ∷ rounds n) busy)
          ≡ monitor am_inactive false am_inactive false (going_inactive ∷ l))
unfolding run move signify_activity signify_in wake wake_in leave_active go_inactive
monitor_times_out n t l = let e = timing_out n false l in (e, ap (wake true) e)
