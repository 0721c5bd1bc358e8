-- ===== src/Rtp/FlushMode/Window.antt =====
-- Which blocks a request of `handle_flushbuffered` of src/rtsp.c flushes in src/rtp.c.
use shairport_sync_for_openw.Prelude.{
  ℕ, ◌^◌, ◌≤◌, ◌<◌, ◌≡◌, Bool, true, ◌&&◌, List, [], ◌∷◌, map, ltb, leb,
}
use shairport_sync_for_openw.Rtp.FlushMode.{FlushConn}

-- The blocks come in order from `n` on, and are numbered below 2 ^ 31.
abbrev pub IsOrdered : ℕ → List ℕ → Type 0
IsOrdered n [] = Unit
IsOrdered n (x ∷ xs) = (n ≤ x) × (x < 2 ^ 31) × IsOrdered x xs

-- A pending request from the block `from` up to the block before `until`.
abbrev pub IsRequest : ℕ → ℕ → FlushConn → Type 0
IsRequest from until c =
    (c.ap2_flush_requested ≡ true)
    × (c.ap2_flush_from_valid ≡ true)
    × (c.ap2_flush_from_sequence_number ≡ from)
    × (c.ap2_flush_until_sequence_number ≡ until)

abbrev pub in_window : ℕ → ℕ → ℕ → Bool
in_window from until n = leb from n && ltb n until

abbrev flags_of : ℕ → ℕ → List ℕ → List Bool
flags_of from until ns = map (in_window from until) ns
