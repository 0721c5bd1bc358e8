-- ===== src/Rtp/Receivers/Delivery.antt =====
-- Packets of audio on their way through the receivers of src/rtp.c to `player_put_packet`.
use shairport_sync_for_openw.Prelude.{
  ℕ, ◌+◌, ◌-◌, ◌*◌, ◌/◌, ◌%◌, ◌^◌, ◌≤◌, ◌≡◌, refl, sym, ap, ◌∙◌, arith, Bool, true, false, Option,
  some, List, [], ◌∷◌, ◌++◌, map, leb, ◌==◌, if◌then◌else◌, drop, length, get_or, take-all,
  take-append, All,
}
use shairport_sync_for_openw.Rtp.Receivers.Sync.{SyncSettings}
use shairport_sync_for_openw.Common.Bytes.{nctohs, nctohl}
use shairport_sync_for_openw.Rtp.Receivers.{
  Call, datagram, packet_size, bytes_read, audio_packet, unless_dropped, AudioReceiver,
  receive_audio, audio_round, receive_control, add_call, rtp_audio_receiver, ControlReceiver, Link,
  control_round,
}

-- What a sender puts into a packet of audio.
pub record Audio : Type 0 where
  pub flags : ℕ
  pub marker : Bool
  pub sequence : ℕ
  pub timestamp : ℕ
  pub source : ℕ
  pub sound : List ℕ

-- Four bytes in network order.
abbrev pub htonl : ℕ → List ℕ → List ℕ
htonl n rest = n / 2 ^ 24 ∷ n / 2 ^ 16 % 256 ∷ n / 2 ^ 8 % 256 ∷ n % 256 ∷ rest

abbrev pub original : Audio → List ℕ
original a =
    a.flags
    ∷ (if a.marker then 224 else 96)
    ∷ a.sequence / 256
    ∷ a.sequence % 256
    ∷ htonl a.timestamp (htonl a.source a.sound)

-- The same packet, sent again: with a header of four bytes.
abbrev pub resent : ℕ → ℕ → ℕ → Audio → List ℕ
resent b0 b2 b3 a = b0 ∷ 214 ∷ b2 ∷ b3 ∷ original a

-- There is enough sound, and the packet fits even if it is sent again.
abbrev pub IsAudio : Audio → Type 0
IsAudio a = (16 ≤ length a.sound) × (length a.sound ≤ 2032)

abbrev pub call_of : Audio → Call
call_of a = record {
  seqno = a.sequence;
  actual_timestamp = a.timestamp;
  payload = a.sound;
  plen = length a.sound;
}

pub two_bytes : (n : ℕ) → n / 256 * 256 + n % 256 ≡ n
two_bytes n = omega arith

pub four_bytes :
    (n : ℕ) → ((n / 2 ^ 24 * 256 + n / 2 ^ 16 % 256) * 256 + n / 2 ^ 8 % 256) * 256 + n % 256 ≡ n
four_bytes n = omega arith

audio_packet-original :
    (a : Audio) (k nread : ℕ) (packet rest : List ℕ)
    → 16 ≤ length a.sound
    → drop k packet ≡ original a ++ rest
    → nread ≡ k + (12 + length a.sound)
    → audio_packet k packet nread ≡ some (call_of a)
unfolding audio_packet nctohs nctohl
audio_packet-original a k nread packet rest enough at size =
    let long : leb (k + 12 + 16) nread ≡ true = ground arith in
    let sound_size : nread - k - 12 ≡ length a.sound = omega arith in
    rw
      (at, long, sound_size, two_bytes a.sequence, four_bytes a.timestamp, take-append a.sound rest)
      refl

-- A packet as it was first sent, or sent again with three bytes that do not matter.
pub data Sent : Type 0 where
  first_time : Audio → Sent
  again : ℕ → ℕ → ℕ → Audio → Sent

abbrev pub audio_of : Sent → Audio
audio_of (first_time a) = a
audio_of (again b0 b2 b3 a) = a

abbrev pub bytes_of : Sent → List ℕ
bytes_of (first_time a) = original a
bytes_of (again b0 b2 b3 a) = resent b0 b2 b3 a

read_all : (s : Sent) → IsAudio (audio_of s) → bytes_read (bytes_of s) ≡ bytes_of s
read_all (first_time a) (h, k) = take-all packet_size (original a) (omega arith)
read_all (again b0 b2 b3 a) (h, k) = take-all packet_size (resent b0 b2 b3 a) (omega arith)

is_audio : (marker : Bool) → ((if marker then 224 else 96) % 128 == 96) ≡ true
is_audio true = refl
is_audio false = refl

receive_audio_type :
    (packet : List ℕ) (nread : ℕ) (r : AudioReceiver) (call : Option Call)
    → (get_or packet 1 0 % 128 == 96) ≡ true
    → audio_packet 0 packet nread ≡ call
    → (receive_audio false packet nread r).1 ≡ call
unfolding receive_audio unless_dropped
receive_audio_type packet nread r call t found = rw (t, found) refl

receive_audio-sent :
    (s : Sent) (rest : List ℕ) (r : AudioReceiver)
    → IsAudio (audio_of s)
    → (receive_audio false (bytes_of s ++ rest) (length (bytes_of s)) r).1
      ≡ some (call_of (audio_of s))
unfolding receive_audio unless_dropped
receive_audio-sent (first_time a) rest r (h, k) =
    receive_audio_type (original a ++ rest) (length (original a)) r (some (call_of a))
      (is_audio a.marker)
      (audio_packet-original a 0 (length (original a)) (original a ++ rest) rest h refl
        (omega arith))
receive_audio-sent (again b0 b2 b3 a) rest r (h, k) =
    audio_packet-original a 4 (length (resent b0 b2 b3 a)) (resent b0 b2 b3 a ++ rest) rest h refl
      (omega arith)

audio_round-sent :
    (s : Sent) (r : AudioReceiver)
    → IsAudio (audio_of s)
    → (audio_round false (datagram (bytes_of s)) r).1 ≡ some (call_of (audio_of s))
unfolding audio_round
audio_round-sent s r h =
    ap (λ d. (receive_audio false (d ++ drop (length d) r.packet) (length d) r).1) (read_all s h)
    ∙ receive_audio-sent s (drop (length (bytes_of s)) r.packet) r h

-- Every packet with 16 to 2032 bytes of sound that is sent to the audio receiver and not dropped by
-- the diagnostic, for the first time or again, is handed to `player_put_packet` once, in the order in
-- which they arrive, with its sequence number, its timestamp and exactly its sound, whatever was in
-- the receiver's buffer.
pub receiver_delivers :
    (ss : List Sent) (r : AudioReceiver)
    → All (λ s. IsAudio (audio_of s)) ss
    → rtp_audio_receiver (map (λ s. (false, datagram (bytes_of s))) ss) r
      ≡ map (λ s. call_of (audio_of s)) ss
unfolding rtp_audio_receiver add_call
receiver_delivers [] r h = refl
receiver_delivers (s ∷ ss) r (h, hs) = rw (audio_round-sent s r h) (
    ap (λ calls. call_of (audio_of s) ∷ calls)
      (receiver_delivers ss (audio_round false (datagram (bytes_of s)) r).0 hs))

-- A packet with 16 to 2032 bytes of sound that is sent again to the control port, while the link is
-- not idle and the diagnostic does not drop it, leads to the same call of `player_put_packet` as when
-- it was first sent to the audio port.
pub control_round-again :
    (e : SyncSettings) (l : Link) (c : ControlReceiver) (r : AudioReceiver) (b0 b2 b3 : ℕ)
    (a : Audio)
    → IsAudio a
    → l.rtsp_link_is_idle ≡ false
    → l.dropped ≡ false
    → (control_round e l (datagram (resent b0 b2 b3 a)) c).1
      ≡ (audio_round false (datagram (original a)) r).1
unfolding control_round receive_control
control_round-again e l c r b0 b2 b3 a h busy kept =
    let d = resent b0 b2 b3 a in
    let rest = drop (length d) c.packet in
    let found = audio_packet-original a 4 (length d) (d ++ rest) rest h.0 refl (omega arith) in
    (ap (λ t. (receive_control e l (t ++ drop (length t) c.packet) (length t) c).1)
        (read_all (again b0 b2 b3 a) h)
      ∙ rw (busy, kept) found)
    ∙ sym (audio_round-sent (first_time a) r h)
