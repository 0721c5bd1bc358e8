-- ===== src/Rtsp/SizedBuffer.antt =====
-- `sized_buffer` and `buf_add`, `buf_drain` and `buf_remove` of src/rtsp.c. Memory that is asked for
-- is given.
pub mod Laws
use shairport_sync_for_openw.Prelude.{
  ℕ, zero, suc, ◌+◌, ◌-◌, Bool, true, false, Option, none, some, List, [], ◌∷◌, ◌++◌, ltb, leb,
  if◌then◌else◌, take, drop, length,
}
use shairport_sync_for_openw.Prelude.Int.{ℤ, pos, negsuc}

-- `contents` are the first `length` bytes of `data`, which has room for `size`.
pub record SizedBuffer : Type 0 where
  pub contents : List ℕ
  pub size : ℕ

pub buf_add : SizedBuffer → List ℕ → SizedBuffer
buf_add b new = record {
  contents = b.contents ++ new;
  size =
      if ltb b.size (length b.contents + length new)
      then length b.contents + length new + 2048
      else b.size;
}

abbrev pub empty : SizedBuffer
empty = record { contents = []; size = 0 }

pub buf_drain : SizedBuffer → ℤ → SizedBuffer
buf_drain b (negsuc n) = empty
buf_drain b (pos n) =
    if leb (length b.contents) n then empty else record b { contents = drop n b.contents }

-- The bytes that are taken out, and what is left.
pub buf_remove : SizedBuffer → ℕ → List ℕ × SizedBuffer
buf_remove b out_len =
    let bytes : ℕ = if ltb out_len (length b.contents) then out_len else length b.contents in
    (take bytes b.contents, buf_drain b (pos bytes))
