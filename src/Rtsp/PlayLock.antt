-- ===== src/Rtsp/PlayLock.antt =====
-- The play lock of src/rtsp.c: `playing_conn` and the functions that take and release it. A
-- connection is a number, and `none` is `NULL`.
pub mod Laws
pub mod Tests
use shairport_sync_for_openw.Prelude.{
  ℕ, zero, suc, Bool, true, false, ◌&&◌, not, Option, none, some, List, [], ◌∷◌, ◌==◌,
  if◌then◌else◌, update,
}
use shairport_sync_for_openw.Prelude.Int.{ℤ, pos, negsuc}

-- `stop` is that field of each connection; `cancelled` holds the connections whose thread was asked
-- to exit, the last one first.
pub record Lock : Type 0 where
  pub playing_conn : Option ℕ
  pub stop : ℕ → Bool
  pub cancelled : List ℕ

same_conn : Option ℕ → Option ℕ → Bool
same_conn none none = true
same_conn (some a) (some b) = a == b
same_conn _ _ = false

pub have_play_lock : Option ℕ → Lock → Bool
have_play_lock conn s = same_conn s.playing_conn conn

pub release_play_lock : Option ℕ → Lock → Lock
release_play_lock conn s =
    if same_conn s.playing_conn conn then record s { playing_conn = none } else s

pub data Look : Type 0 where
  have_it : Look
  wait_for_stop interrupt : Look
  refused : Look
  null_dereferenced : Look

interrupt_conn : ℕ → Lock → Lock
interrupt_conn p s = record s { stop = update s.stop p true; cancelled = p ∷ s.cancelled }

another_plays : Option ℕ → Bool → ℕ → Lock → Lock × Look
another_plays conn allow p s =
    if s.stop p
    then (s, elim conn [ none ↦ null_dereferenced | some c ↦ wait_for_stop ])
    else if allow
    then (interrupt_conn p s, interrupt)
    else (s, refused)

look_at : Option ℕ → Option ℕ → Bool → Lock → Lock × Look
look_at none conn allow s = (record s { playing_conn = conn }, have_it)
look_at (some p) conn allow s =
    if same_conn (some p) conn then (s, have_it) else another_plays conn allow p s

-- The first attempt. A message names the number of `conn` when the other connection has been told to
-- stop, which reads through `NULL`.
first_look : Option ℕ → Bool → Lock → Lock × Look
first_look conn allow s = look_at s.playing_conn conn allow s

try_lock : Option ℕ → Option ℕ → Lock → Option Lock
try_lock none conn s = some (record s { playing_conn = conn })
try_lock (some p) conn s = none

-- One attempt, with what the rest of the loop comes to.
attempt : Option Lock → Lock × Bool → Lock × Bool
attempt (some s) rest = (s, true)
attempt none rest = rest

-- The loop that tries every tenth of a second. `others n` is what the other threads do before the
-- attempt with `n` attempts left after it. The second part says whether the player was had.
pub wait_loop : ℕ → (ℕ → Lock → Lock) → Option ℕ → Lock → Lock × Bool
wait_loop zero others conn s = (s, false)
wait_loop (suc n) others conn s =
    let s' = others n s in
    let rest = wait_loop n others conn s' in attempt (try_lock s'.playing_conn conn s') rest

-- 3 seconds, in steps of a tenth.
abbrev pub attempts : ℕ
attempts = 30

-- The end of the waiting: a failure is reported with the number of `conn`.
answer : Option ℕ → ℤ → Lock × Bool → Option (Lock × ℤ)
answer conn response (s, true) = some (s, response)
answer none response (s, false) = none
answer (some c) response (s, false) = some (s, negsuc 0)

respond : Option ℕ → (ℕ → Lock → Lock) → Lock × Look → Option (Lock × ℤ)
respond conn others (s, have_it) = some (s, pos 0)
respond conn others (s, wait_for_stop) = answer conn (pos 0) (wait_loop attempts others conn s)
respond conn others (s, interrupt) = answer conn (pos 1) (wait_loop attempts others conn s)
respond conn others (s, refused) = some (s, pos 0)
respond conn others (s, null_dereferenced) = none

-- The response and the lock; absent if `NULL` is dereferenced.
pub get_play_lock : Option ℕ → Bool → (ℕ → Lock → Lock) → Lock → Option (Lock × ℤ)
get_play_lock conn allow_session_interruption others s =
    respond conn others (first_look conn allow_session_interruption s)
