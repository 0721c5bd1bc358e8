-- ===== src/Rtsp/PcQueue/Tests.antt =====
-- The refinement of the metadata queue of src/rtsp.c at a concrete queue.
use shairport_sync_for_openw.Prelude.{ℕ, ◌+◌, ◌≡◌, refl, true, false, List, [], ◌∷◌, arith}
use shairport_sync_for_openw.Rtsp.PcQueue.{PcQueue}
use shairport_sync_for_openw.Rtsp.PcQueue.Fifo
use shairport_sync_for_openw.Rtsp.PcQueue.Fifo.{Call, add, get}
use shairport_sync_for_openw.Rtsp.PcQueue.Laws.{IsValid, contents, run, run_refines}

-- One item in the last of two slots.
abbrev one_item : PcQueue ℕ
one_item = record { items = λ i. i + 5; count = 1; capacity = 2; toq = 1; eoq = 0 }

one_item-IsValid : IsValid one_item
one_item-IsValid = record {
  small = omega arith;
  counted = omega arith;
  toq_in = omega arith;
  eoq_at = refl;
}

abbrev calls : List (Call ℕ)
calls = add 8 true false ∷ add 9 true false ∷ get ∷ get ∷ get ∷ []

run_refines_example : run one_item calls ≡ Fifo.run 2 (contents one_item) calls
run_refines_example = run_refines calls one_item one_item-IsValid
