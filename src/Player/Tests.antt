-- ===== src/Player/Tests.antt =====
-- The theorems on the player's buffer at concrete buffers.
use shairport_sync_for_openw.Prelude.{
  ℕ, length, List, ◌≤◌, ◌/◌, ◌+◌, ◌*◌, ◌≡◌, ◌⊎◌, refl, true, false, none, some, [], ◌∷◌, ◌==◌,
  if◌then◌else◌, u16, All, arith,
}
use shairport_sync_for_openw.Player.Buffer.{Slot, Conn, bufidx}
use shairport_sync_for_openw.Player.PutPacket.{Packet, received_slot, fill_slot, store_packet}
use shairport_sync_for_openw.Player.PutPacket.Place.{IsPlaced, store_ahead_wrapped}
use shairport_sync_for_openw.Player.PutPacket.Scan.{scan_from, run_scan}
use shairport_sync_for_openw.Player.PutPacket.Scan.First.{AllReady, run_scan_finds}
use shairport_sync_for_openw.Player.PutPacket.Scan.Keeps.{SameData, IsAsked, run_scan_keeps}
use shairport_sync_for_openw.Player.GetFrame.Release.{take_frame}
use shairport_sync_for_openw.Player.Flow.{put_then_take}
use shairport_sync_for_openw.Player.Decode.{audio_packet_decode, decoded}
use shairport_sync_for_openw.Player.Decode.Uncompressed.{decode_uncompressed}
use shairport_sync_for_openw.Player.Samples.{no_packet, slots_5_to_7, playing, settings, packet}

-- The packet 6 is missing.
abbrev one_missing : ℕ → Slot
one_missing i = if i == 6 then no_packet else slots_5_to_7 i

run_scan_finds_example :
    (y : ℕ) × ((run_scan settings.limits 2000 5 8 one_missing (some 5)).first_missing ≡ some y)
    × AllReady one_missing (scan_from 5 8 (some 5)) y
    × ((y ≡ 8) ⊎ ((one_missing (bufidx y)).ready ≡ false))
run_scan_finds_example =
    run_scan_finds settings.limits 2000 5 8 one_missing (some 5) (omega arith) (omega arith)
      (λ y h. (let e : 5 ≡ y = ground arith in omega (arith, e)))

run_scan_keeps_example :
    ((run_scan settings.limits 2000 5 8 one_missing none).x ≡ 8)
    × ((i : ℕ)
        → SameData (one_missing i) ((run_scan settings.limits 2000 5 8 one_missing none).slots i))
    × All (IsAsked one_missing) (run_scan settings.limits 2000 5 8 one_missing none).requests
run_scan_keeps_example =
    run_scan_keeps settings.limits 2000 5 8 one_missing none (omega arith) (omega arith)
      (λ y h. absurd (ground arith))

-- The packets 65535 to 2 are skipped when 3 arrives.
abbrev near_the_end : Conn
near_the_end = record playing { ab_read = 65530; ab_write = 65535 }

store_ahead_wrapped_example :
    IsPlaced settings (packet 3) 3 slots_5_to_7 (store_packet settings (packet 3) near_the_end)
    × ((store_packet settings (packet 3) near_the_end).ab_write ≡ u16 (3 + 1))
store_ahead_wrapped_example =
    store_ahead_wrapped settings (packet 3) near_the_end refl refl refl (omega arith)

-- A flush to the second frame of the packet 6.
abbrev flushing : Conn
flushing = record playing { flush_requested = true; flush_rtp_timestamp = 113 }

-- A packet that is already decoded, put into an empty buffer.
abbrev decoded_packet : Packet
decoded_packet = record (packet 0) { original_format = false; len = 1 }

abbrev drained : Conn
drained = record playing { ab_read = 8 }

stored_slot : Slot
stored_slot = fill_slot settings decoded_packet 8 no_packet

stored_slot-ready : stored_slot.ready ≡ true
unfolding stored_slot fill_slot received_slot
stored_slot-ready = refl

put_then_take_example :
    ((take_frame (store_packet settings decoded_packet drained)).1
      ≡ record stored_slot { ready = false })
    × ((take_frame (store_packet settings decoded_packet drained)).0.ab_read
        ≡ (take_frame (store_packet settings decoded_packet drained)).0.ab_write)
    × ((take_frame (store_packet settings decoded_packet drained)).0.missing_packets
        ≡ (store_packet settings decoded_packet drained).missing_packets)
unfolding stored_slot
put_then_take_example =
    put_then_take settings decoded_packet drained 8 refl refl refl refl stored_slot-ready

decode_uncompressed_example :
    (out : List ℕ) × (n : ℕ) × (audio_packet_decode settings.stream 4 352 (1 ∷ 2 ∷ 3 ∷ 4 ∷ [])
      ≡ decoded true out n)
    × (length out ≤ 4 * 352)
    × (4 ≤ 4 * 352 → (out ≡ 2 ∷ 1 ∷ 4 ∷ 3 ∷ []) × (n ≡ 4 / 4))
decode_uncompressed_example =
    decode_uncompressed settings.stream 4 352 ((1, 2) ∷ (3, 4) ∷ []) refl refl (omega arith)
      (omega arith)
