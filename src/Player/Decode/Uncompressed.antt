-- ===== src/Player/Decode/Uncompressed.antt =====
-- Packets that are not compressed.
use shairport_sync_for_openw.Prelude.{
  ℕ, zero, suc, ◌*◌, ◌/◌, ◌<◌, ◌≤◌, ◌≡◌, refl, ap, ◌∙◌, true, false, List, [], ◌∷◌, ltb, ◌==◌,
  if◌then◌else◌, take, length, length-take, arith,
}
use shairport_sync_for_openw.Player.Decode.{
  uncompressed, Stream, max_packet, swap_pairs, unencrypted_packet_decode, decoded, decrypt_packet,
  audio_packet_decode,
}

length-swap_pairs : (xs : List ℕ) → length (swap_pairs xs) ≤ length xs
unfolding swap_pairs
length-swap_pairs [] = omega arith
length-swap_pairs (a ∷ []) = omega arith
length-swap_pairs (a ∷ b ∷ r) = omega (arith, length-swap_pairs r)

-- Samples of two bytes each, in network order.
abbrev pub network : List (ℕ × ℕ) → List ℕ
network [] = []
network ((high, low) ∷ r) = high ∷ low ∷ network r

abbrev pub host : List (ℕ × ℕ) → List ℕ
host [] = []
host ((high, low) ∷ r) = low ∷ high ∷ host r

swap_pairs-network : (xs : List (ℕ × ℕ)) → swap_pairs (network xs) ≡ host xs
unfolding swap_pairs
swap_pairs-network [] = refl
swap_pairs-network ((h, l) ∷ r) = ap (λ z. l ∷ h ∷ z) (swap_pairs-network r)

take-whole : (n : ℕ) (xs : List ℕ) → length xs ≤ n → take n xs ≡ xs
take-whole zero [] h = refl
take-whole zero (x ∷ xs) h = absurd (omega arith)
take-whole (suc n) [] h = refl
take-whole (suc n) (x ∷ xs) h = ap (λ z. x ∷ z) (take-whole n xs (omega arith))

abbrev used : ℕ → List ℕ → ℕ
used limit buf = if ltb limit (length buf) then limit else length buf

used-bound : (limit : ℕ) (buf : List ℕ) → used limit buf ≤ limit
used-bound limit buf = ground arith

unencrypted-uncompressed :
    (s : Stream) (buf : List ℕ) (outsize limit : ℕ)
    → s.kind ≡ uncompressed
    → unencrypted_packet_decode s buf outsize limit
      ≡ (swap_pairs (take (used limit buf) buf), used limit buf)
unfolding unencrypted_packet_decode
unencrypted-uncompressed s buf outsize limit k = rw k refl

decrypt_packet-plain :
    (s : Stream) (buf : List ℕ) → s.encrypted ≡ false → decrypt_packet s buf ≡ buf
unfolding decrypt_packet
decrypt_packet-plain s buf e = rw e refl

decode-plain :
    (s : Stream) (b destlen : ℕ) (buf : List ℕ)
    → s.kind ≡ uncompressed
    → s.encrypted ≡ false
    → length buf ≤ max_packet
    → 0 < b
    → audio_packet_decode s b destlen buf
      ≡ decoded true (swap_pairs (take (used (b * destlen) buf) buf)) (used (b * destlen) buf / b)
unfolding audio_packet_decode
decode-plain s b destlen buf k e l p =
    let t : ltb max_packet (length buf) ≡ false = ground arith in
    let z : (b == 0) ≡ false = ground arith in
    let w : ltb (b * destlen) (used (b * destlen) buf) ≡ false = ground arith in
    rw
      (
        t,
        decrypt_packet-plain s buf e,
        unencrypted-uncompressed s buf (b * destlen) (b * destlen) k,
        z,
        w,
      )
      refl

-- An uncompressed packet that is not encrypted and not too large is accepted, and no more bytes are
-- written than the destination holds; if it fits, its samples are written in host order and its
-- frames counted.
pub decode_uncompressed :
    (s : Stream) (b destlen : ℕ) (xs : List (ℕ × ℕ))
    → s.kind ≡ uncompressed
    → s.encrypted ≡ false
    → length (network xs) ≤ max_packet
    → 0 < b
    → (out : List ℕ) × (n : ℕ) × (audio_packet_decode s b destlen (network xs) ≡ decoded true out n)
      × (length out ≤ b * destlen)
      × (length (network xs) ≤ b * destlen → (out ≡ host xs) × (n ≡ length (network xs) / b))
decode_uncompressed s b destlen xs k e l p =
    let buf = network xs in
    let u = used (b * destlen) buf in
    (
      swap_pairs (take u buf),
      u / b,
      decode-plain s b destlen buf k e l p,
      omega
          (arith, length-swap_pairs (take u buf), length-take u buf, used-bound (b * destlen) buf),
      λ h.
          (let q : u ≡ length buf = ground arith in
            (
              ap (λ z. swap_pairs (take z buf)) q
                  ∙ ap swap_pairs (take-whole (length buf) buf (omega arith))
                  ∙ swap_pairs-network xs,
              ap (λ z. z / b) q,
            )),
    )
