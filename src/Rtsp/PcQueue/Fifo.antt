-- ===== src/Rtsp/PcQueue/Fifo.antt =====
-- The contract of the metadata queue: a list of at most `capacity` items, oldest first.
use shairport_sync_for_openw.Prelude.{
  ℕ, Bool, ◌&&◌, not, List, [], ◌∷◌, ◌++◌, ltb, length, if◌then◌else◌,
}
use shairport_sync_for_openw.Rtsp.PcQueue.{Response, ok, ebusy, ewouldblock}

pub data Call {ℓ} (A : Type ℓ) : Type ℓ where
  add : A → Bool → Bool → Call A
  get : Call A

-- What a thread sees of a call: the response of an addition; the item taken, or that it waits.
pub data Seen {ℓ} (A : Type ℓ) : Type ℓ where
  response : Response → Seen A
  item : A → Seen A
  waits : Seen A

module _ {ℓ} {A : Type ℓ} (capacity : ℕ) where
  unfoldable pub push : List A → A → Bool → Bool → Response × List A
  push xs x block busy =
      if not block && busy
      then (ebusy, xs)
      else if ltb (length xs) capacity
      then (ok, xs ++ x ∷ [])
      else (ewouldblock, xs)

  unfoldable pub run : List A → List (Call A) → List (Seen A)
  run xs [] = []
  run xs (add x block busy ∷ cs) = let (r, ys) = push xs x block busy in response r ∷ run ys cs
  run [] (get ∷ cs) = waits ∷ run [] cs
  run (x ∷ xs) (get ∷ cs) = item x ∷ run xs cs
