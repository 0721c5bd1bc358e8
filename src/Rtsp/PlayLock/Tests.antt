-- ===== src/Rtsp/PlayLock/Tests.antt =====
-- The theorems on the play lock of src/rtsp.c at concrete locks.
use shairport_sync_for_openw.Prelude.{ℕ, ◌≡◌, refl, true, false, none, some, []}
use shairport_sync_for_openw.Prelude.Int.{pos}
use shairport_sync_for_openw.Rtsp.PlayLock.{
  Lock, have_play_lock, same_conn, get_play_lock, first_look, look_at, respond,
}
use shairport_sync_for_openw.Rtsp.PlayLock.Laws.{get_play_lock_sound}

abbrev pub free : Lock
free = record { playing_conn = none; stop = λ c. false; cancelled = [] }

abbrev pub played : Lock
played = record free { playing_conn = some 1 }

abbrev stopping : Lock
stopping = record played { stop = λ c. true }

pub first_plays : have_play_lock (some 1) played ≡ true
unfolding have_play_lock same_conn
first_plays = refl

-- The playing connection lets the player go.
abbrev lets_go : ℕ → Lock → Lock
lets_go n s = record s { playing_conn = none }

taken :
    get_play_lock (some 2) true lets_go free ≡ some (record free { playing_conn = some 2 }, pos 0)
unfolding get_play_lock first_look look_at respond
taken = refl

get_play_lock_sound_example : Lock.playing_conn (record free { playing_conn = some 2 }) ≡ some 2
get_play_lock_sound_example =
    get_play_lock_sound (some 2) lets_go free (record free { playing_conn = some 2 }) 0 taken
