-- ===== src/Rtp/TcpBuffer/Tests.antt =====
-- The theorems on the ring of src/rtp.c at concrete buffers.
use shairport_sync_for_openw.Prelude.{◌+◌, ◌≡◌, refl, true, false, none, some, [], ◌∷◌, arith}
use shairport_sync_for_openw.Window.{window}
use shairport_sync_for_openw.Rtp.TcpBuffer.{
  TcpBuffer, bytes, request, reader_waits, received, lread_sized_block,
}
use shairport_sync_for_openw.Rtp.TcpBuffer.Laws.{IsValid}
use shairport_sync_for_openw.Rtp.TcpBuffer.Threads.{
  System, Step, ask, arrive, here, next, Inv, Reach-Inv,
}
use shairport_sync_for_openw.Rtp.TcpBuffer.ReadBlock.{
  Gives, lread_sized_block-Gives, lread_sized_block_spins,
}

abbrev empty_ring : TcpBuffer
empty_ring = record {
  buffer = λ i. 0;
  buffer_max_size = 4;
  toq = 3;
  eoq = 3;
  buffer_occupancy = 0;
  error_code = 0;
  closed = false;
}

abbrev start : System
start = record { desc = empty_ring; pending = none; came_in = []; given_out = [] }

start-Inv : Inv start
start-Inv = record {
  valid = record {
    toq_in = omega arith;
    eoq_in = omega arith;
    occupied = omega arith;
    eoq_at = refl;
  };
  fits = λ k h. absurd cc;
  stream = unfold window in refl;
}

-- The reader asks for the one byte up to the top, and it arrives.
abbrev asked : System
asked = record start { pending = some 1 }

abbrev arrived : System
arrived = record start { desc = received empty_ring (bytes (7 ∷ [])); came_in = 7 ∷ [] }

asks : Step start asked
unfolding request reader_waits
asks = ask start empty_ring 1 refl refl

arrives : Step asked arrived
arrives = arrive asked 1 (7 ∷ []) refl (omega arith)

Reach-Inv_example : Inv arrived
Reach-Inv_example = Reach-Inv start-Inv (next (next here asks) arrives)

abbrev three_bytes : TcpBuffer
three_bytes = record {
  buffer = λ i. i + 10;
  buffer_max_size = 4;
  toq = 2;
  eoq = 1;
  buffer_occupancy = 3;
  error_code = 0;
  closed = false;
}

three_bytes-IsValid : IsValid three_bytes
three_bytes-IsValid = record {
  toq_in = omega arith;
  eoq_in = omega arith;
  occupied = omega arith;
  eoq_at = refl;
}

-- The three bytes lie on both sides of the top.
lread_sized_block-Gives_example : Gives three_bytes [] 3 (lread_sized_block 3 three_bytes 3)
lread_sized_block-Gives_example =
    lread_sized_block-Gives 3 three_bytes 3 three_bytes-IsValid (omega arith) (omega arith)
      (omega arith)

abbrev reset_ring : TcpBuffer
reset_ring = record empty_ring { error_code = 104 }

lread_sized_block_spins_example :
    (lread_sized_block 1000 reset_ring 2 ≡ none) × (reader_waits reset_ring ≡ true)
lread_sized_block_spins_example = lread_sized_block_spins 1000 reset_ring 2 (omega arith) refl refl
