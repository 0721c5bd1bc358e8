-- ===== src/Rtp/Receivers.antt =====
-- `rtp_audio_receiver` and `rtp_control_receiver` of src/rtp.c, one round of the loop for each packet.
-- `recv` is a parameter: it gives a packet, cut to the size of the buffer, or an error. The statistics
-- on the intervals are left out.
pub mod Sync
pub mod Delivery
mod Tests
use shairport_sync_for_openw.Prelude.{
  ℕ, ◌+◌, ◌-◌, ◌*◌, ◌%◌, ◌^◌, Bool, true, false, ◌&&◌, ◌||◌, not, Option, none, some, List, [], ◌∷◌,
  ◌++◌, ltb, leb, ◌==◌, if◌then◌else◌, take, drop, length, get_or,
}
use shairport_sync_for_openw.Prelude.Int.{ℤ, pos, negsuc}
use shairport_sync_for_openw.Common.Bytes.{nctohs, nctohl}
use Sync.{SyncSettings, SyncState, handle_sync}

-- What `player_put_packet` is called with, the packet being in its original format.
pub record Call : Type 0 where
  pub seqno : ℕ
  pub actual_timestamp : ℕ
  pub payload : List ℕ
  pub plen : ℕ

pub data Recv : Type 0 where
  datagram : List ℕ → Recv
  failed : Recv

abbrev pub packet_size : ℕ
packet_size = 2048

-- The bytes read, and the buffer with them, which keeps the rest of earlier packets.
abbrev pub bytes_read : List ℕ → List ℕ
bytes_read d = take packet_size d

abbrev pub overwrite : List ℕ → List ℕ → List ℕ
overwrite d packet = bytes_read d ++ drop (length (bytes_read d)) packet

-- The packet that starts at the offset `k`, if it has at least 16 bytes after its header of 12.
pub audio_packet : ℕ → List ℕ → ℕ → Option Call
audio_packet k packet nread =
    let pktp = drop k packet in
    let plen = nread - k - 12 in
    if leb (k + 12 + 16) nread
    then some (record {
      seqno = nctohs 2 pktp;
      actual_timestamp = nctohl 4 pktp;
      payload = take plen (drop 12 pktp);
      plen = plen;
    })
    else none

-- With the diagnostic that drops packets at random, a packet may be left out.
pub unless_dropped : Bool → Option Call → Option Call
unless_dropped true call = none
unless_dropped false call = call

pub record AudioReceiver : Type 0 where
  pub packet : List ℕ
  pub last_seqno : ℤ

-- The type is the second byte without its marker. A resent packet has four bytes in front.
pub receive_audio : Bool → List ℕ → ℕ → AudioReceiver → AudioReceiver × Option Call
receive_audio dropped packet nread r =
    let type = get_or packet 1 0 % 128 in
    if type == 96
    then (
      record { packet = packet; last_seqno = pos (nctohs 2 packet) },
      unless_dropped dropped (audio_packet 0 packet nread),
    )
    else if type == 86
    then (record r { packet = packet }, unless_dropped dropped (audio_packet 4 packet nread))
    else (record r { packet = packet }, none)

pub audio_round : Bool → Recv → AudioReceiver → AudioReceiver × Option Call
audio_round dropped failed r = (r, none)
audio_round dropped (datagram d) r =
    receive_audio dropped (overwrite d r.packet) (length (bytes_read d)) r

add_call : Option Call → List Call → List Call
add_call none calls = calls
add_call (some call) calls = call ∷ calls

-- The calls of `player_put_packet` for what `recv` gives.
pub rtp_audio_receiver : List (Bool × Recv) → AudioReceiver → List Call
rtp_audio_receiver [] r = []
rtp_audio_receiver ((dropped, i) ∷ is) r =
    let (r', call) = audio_round dropped i r in add_call call (rtp_audio_receiver is r')

pub record ControlReceiver : Type 0 where
  pub packet : List ℕ
  pub sync : SyncState

-- What other threads have set when a packet arrives: whether the link is idle, whether a time packet
-- has been interchanged, and how many packets of audio there were since the last flush.
pub record Link : Type 0 where
  pub rtsp_link_is_idle : Bool
  pub dropped : Bool
  pub time_is_known : Bool
  pub packet_count_since_flush : ℕ

-- A packet is a sync packet, a resent packet of audio, or of no interest.
pub receive_control :
    SyncSettings → Link → List ℕ → ℕ → ControlReceiver → ControlReceiver × Option Call
receive_control e l packet nread r =
    let r' = record r { packet = packet } in
    if l.rtsp_link_is_idle || l.dropped
    then (r', none)
    else if get_or packet 1 0 == 212
    then (
      if l.time_is_known
          then record r' { sync = handle_sync e l.packet_count_since_flush packet r.sync }
          else r',
      none,
    )
    else if get_or packet 1 0 == 214
    then (r', audio_packet 4 packet nread)
    else (r', none)

pub control_round : SyncSettings → Link → Recv → ControlReceiver → ControlReceiver × Option Call
control_round e l failed r = (r, none)
control_round e l (datagram d) r =
    receive_control e l (overwrite d r.packet) (length (bytes_read d)) r

pub control_loop : SyncSettings → List (Link × Recv) → ControlReceiver → ControlReceiver × List Call
control_loop e [] r = (r, [])
control_loop e ((l, i) ∷ is) r =
    let (r', call) = control_round e l i r in
    let (end, calls) = control_loop e is r' in (end, add_call call calls)

-- At the start, the frame of the anchor is forgotten.
pub rtp_control_receiver :
    SyncSettings → List (Link × Recv) → ControlReceiver → ControlReceiver × List Call
rtp_control_receiver e is r =
    control_loop e is (record r {
      sync = record (r.sync) { anchor = record (r.sync.anchor) { anchor_rtptime = 0 } };
    })
