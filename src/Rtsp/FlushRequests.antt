-- ===== src/Rtsp/FlushRequests.antt =====
-- `flush_request_t` of src/player.h and `add_flush_request` of src/rtsp.c.
pub mod Order
mod Tests
use shairport_sync_for_openw.Prelude.{
  ℕ, Bool, true, false, ◌&&◌, ◌||◌, not, List, [], ◌∷◌, ltb, ◌==◌, if◌then◌else◌,
}

pub record FlushRequest : Type 0 where
  pub flush_now : Bool
  pub flush_from_seq : ℕ
  pub flush_from_ts : ℕ
  pub flush_until_seq : ℕ
  pub flush_until_ts : ℕ

-- The new request `n` is put in front of `u`.
pub goes_before : FlushRequest → FlushRequest → Bool
goes_before n u =
    (not u.flush_now && n.flush_now)
    || (ltb n.flush_from_seq u.flush_from_seq
        || (n.flush_from_seq == u.flush_from_seq && ltb n.flush_from_ts u.flush_from_ts))

pub add_flush_request : FlushRequest → List FlushRequest → List FlushRequest
add_flush_request n [] = n ∷ []
add_flush_request n (u ∷ us) =
    let rest = add_flush_request n us in if goes_before n u then n ∷ u ∷ us else u ∷ rest
