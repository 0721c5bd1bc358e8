-- ===== src/Player/Decode.antt =====
-- `unencrypted_packet_decode` and `audio_packet_decode` of src/player.c. The ALAC decoders and the
-- AES routine are other projects' code: each is a function from bytes to bytes. The machine is
-- little-endian, so `ntohs` swaps two bytes.
pub mod Uncompressed
use shairport_sync_for_openw.Prelude.{
  ℕ, ◌-◌, ◌*◌, ◌/◌, ◌%◌, Bool, true, false, List, [], ◌∷◌, ◌++◌, ltb, ◌==◌, if◌then◌else◌, take,
  drop, length,
}

pub data StreamType : Type 0 where
  unknown uncompressed apple_lossless : StreamType

-- The decoder is called with the packet and gives the bytes that it writes and the size it reports.
pub record Stream : Type 0 where
  pub kind : StreamType
  pub encrypted : Bool
  pub decrypt : List ℕ → List ℕ
  pub alac : List ℕ → List ℕ × ℕ

abbrev pub max_packet : ℕ
max_packet = 2048

pub swap_pairs : List ℕ → List ℕ
swap_pairs [] = []
swap_pairs (a ∷ []) = []
swap_pairs (a ∷ b ∷ r) = b ∷ a ∷ swap_pairs r

-- The bytes written to the destination, and `*outsize`.
pub unencrypted_packet_decode : Stream → List ℕ → ℕ → ℕ → List ℕ × ℕ
unencrypted_packet_decode s packet outsize size_limit = elim s.kind [
  | apple_lossless ↦ s.alac packet
  | uncompressed ↦
      let n : ℕ = if ltb size_limit (length packet) then size_limit else length packet in
      (swap_pairs (take n packet), n)
  | unknown ↦ ([], outsize)
]

-- The bytes written, the number of frames, and whether the reply is 0. `died` is the call of `die`.
pub data Decoded : Type 0 where
  decoded : Bool → List ℕ → ℕ → Decoded
  died : Decoded

decrypt_packet : Stream → List ℕ → List ℕ
decrypt_packet s buf =
    let aeslen = length buf - length buf % 16 in
    if s.encrypted then s.decrypt (take aeslen buf) ++ drop aeslen buf else buf

pub audio_packet_decode : Stream → ℕ → ℕ → List ℕ → Decoded
unfolding decrypt_packet
audio_packet_decode s bytes_per_frame destlen buf =
    if ltb max_packet (length buf)
    then decoded false [] destlen
    else (let limit = bytes_per_frame * destlen in
        let (out, outsize) = unencrypted_packet_decode s (decrypt_packet s buf) limit limit in
        if bytes_per_frame == 0
        then died
        else decoded (if ltb limit outsize then false else true) out (outsize / bytes_per_frame))
