-- ===== src/Audio/Pa/Tests.antt =====
-- A buffer of eight bytes, of which three wait across its end.
use shairport_sync_for_openw.Prelude.{
  ℕ, ◌≡◌, refl, inr, arith, true, false, some, List, [], ◌∷◌, ◌++◌, ltb, if◌then◌else◌,
}
use shairport_sync_for_openw.Window.{slice}
use shairport_sync_for_openw.Audio.Pa.{
  PaBuffer, play, flush, copy_out, ask, Reply, room, Written, write_loop, stream_write_cb,
}
use shairport_sync_for_openw.Audio.Pa.Laws.{IsValid, queued, play_then_flush}
use shairport_sync_for_openw.Audio.Pa.Callback.{Serves, Ends, stream_write_cb-Ends}

abbrev across : PaBuffer
across = record {
  audio = λ i. i;
  audio_size = 8;
  audio_toq = 6;
  audio_eoq = 1;
  audio_occupancy = 3;
  corked = true;
}

across-IsValid : IsValid across
across-IsValid = omega arith

-- Two bytes at most in a round.
abbrev pairs : ℕ → ℕ → Reply
pairs k a = room (if ltb 2 a then 2 else a) true

pairs-Serves : Serves pairs
pairs-Serves k a h = inr ((if ltb 2 a then 2 else a), true, refl, ground arith, ground arith)

all_three :
    stream_write_cb 9 pairs 8 across
    ≡ some (record {
      bytes = 6 ∷ 7 ∷ 0 ∷ [];
      wanted = 5;
      failed = false;
      after = record across { audio_toq = 1; audio_occupancy = 0 };
    })
unfolding stream_write_cb write_loop ask copy_out slice
all_three = refl

stream_write_cb-Ends_example :
    (w : Written) × (stream_write_cb 9 pairs 8 across ≡ some w) × Ends [] 8 across w
stream_write_cb-Ends_example =
    stream_write_cb-Ends pairs pairs-Serves 9 8 across across-IsValid (omega arith)

play_then_flush_example :
    IsValid (play across (11 ∷ 12 ∷ []))
    × (queued (play across (11 ∷ 12 ∷ [])) ≡ queued across ++ 11 ∷ 12 ∷ [])
    × IsValid (flush across)
    × (queued (flush across) ≡ [])
play_then_flush_example = play_then_flush across (11 ∷ 12 ∷ []) across-IsValid (omega arith)

abbrev six : List ℕ
six = 1 ∷ 2 ∷ 3 ∷ 4 ∷ 5 ∷ 6 ∷ []
