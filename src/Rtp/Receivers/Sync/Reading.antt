-- ===== src/Rtp/Receivers/Sync/Reading.antt =====
-- The anchor that a sync packet gives to the control receiver of src/rtp.c.
use shairport_sync_for_openw.Prelude.{
  ℕ, ◌+◌, ◌*◌, ◌/◌, ◌%◌, ◌^◌, ◌<◌, ◌≡◌, refl, ap, ◌∙◌, arith, true, false, some, List, [], ◌∷◌,
  ◌++◌, drop, u64, sub32, sub64,
}
use shairport_sync_for_openw.Common.Bytes.{nctohs, nctohl}
use shairport_sync_for_openw.Rtp.Ntp.{frame_to_ntp_local_time}
use shairport_sync_for_openw.Rtp.Receivers.Sync.{
  SyncSettings, SyncState, new_latency, remote_time, handle_sync,
}
use shairport_sync_for_openw.Rtp.Receivers.Delivery.{htonl, two_bytes, four_bytes}
use shairport_sync_for_openw.Rtp.Receivers.{
  datagram, bytes_read, ControlReceiver, Link, receive_control, control_round,
}

-- A sync packet: its flags, the frame less the latency, the time in seconds and a fraction, and the
-- frame that belongs to it.
pub record SyncPacket : Type 0 where
  pub first : ℕ
  pub flags : ℕ
  pub less_latency : ℕ
  pub seconds : ℕ
  pub fraction : ℕ
  pub frame : ℕ

abbrev pub sync_bytes : SyncPacket → List ℕ
sync_bytes p =
    p.first
    ∷ 212
    ∷ p.flags / 256
    ∷ p.flags % 256
    ∷ htonl p.less_latency (htonl p.seconds (htonl p.fraction (htonl p.frame [])))

-- The time of the packet in nanoseconds.
abbrev pub sync_time : SyncPacket → ℕ
sync_time p = p.seconds * 1000000000 + p.fraction * 1000000000 / 2 ^ 32

module _ (p : SyncPacket) (rest : List ℕ) where
  flags_read : nctohs 2 (sync_bytes p ++ rest) ≡ p.flags
  unfolding nctohs
  flags_read = two_bytes p.flags

  less_latency_read : nctohl 4 (sync_bytes p ++ rest) ≡ p.less_latency
  unfolding nctohl
  less_latency_read = four_bytes p.less_latency

  seconds_read : nctohl 8 (sync_bytes p ++ rest) ≡ p.seconds
  unfolding nctohl
  seconds_read = four_bytes p.seconds

  fraction_read : nctohl 12 (sync_bytes p ++ rest) ≡ p.fraction
  unfolding nctohl
  fraction_read = four_bytes p.fraction

  frame_read : nctohl 16 (sync_bytes p ++ rest) ≡ p.frame
  unfolding nctohl
  frame_read = four_bytes p.frame

at_anchor :
    (difference frame time : ℕ)
    → frame_to_ntp_local_time difference frame
        (record { anchor_remote_info_is_valid = true; anchor_rtptime = frame; anchor_time = time })
      ≡ some (sub64 (u64 time) difference)
unfolding frame_to_ntp_local_time
at_anchor difference frame time =
    let none_left : sub32 frame frame ≡ 0 = omega arith in
    rw none_left (ap (λ t. some (sub64 (u64 t) difference)) (omega arith))

remote_time-read :
    (p : SyncPacket) (rest : List ℕ)
    → p.seconds < 2 ^ 32
    → p.fraction < 2 ^ 32
    → remote_time (sync_bytes p ++ rest) ≡ sync_time p
unfolding remote_time
remote_time-read p rest h k = rw (seconds_read p rest, fraction_read p rest) (omega arith)

sync_read : (p : SyncPacket) → bytes_read (sync_bytes p) ≡ sync_bytes p
sync_read p = refl

module _ (e : SyncSettings) (n : ℕ) (p : SyncPacket) (rest : List ℕ) (s : SyncState) where
  latency_read :
      (handle_sync e n (sync_bytes p ++ rest) s).latency
      ≡ new_latency e p.flags (sub32 p.frame p.less_latency) s.latency
  unfolding handle_sync
  latency_read = rw (flags_read p rest, less_latency_read p rest, frame_read p rest) refl

  anchor_read : (handle_sync e n (sync_bytes p ++ rest) s).anchor ≡ record {
    anchor_remote_info_is_valid = true;
    anchor_rtptime = sub32 p.frame (handle_sync e n (sync_bytes p ++ rest) s).latency;
    anchor_time = remote_time (sync_bytes p ++ rest);
  }
  unfolding handle_sync
  anchor_read = rw (frame_read p rest) refl

-- A sync packet that arrives when the link is not idle, the diagnostic does not drop it and a time
-- packet has been interchanged sets the latency from the difference of its two frames, and from then
-- on its frame, less the latency, is played at its time, converted to local time.
pub sync_packet_read :
    (e : SyncSettings) (l : Link) (c : ControlReceiver) (p : SyncPacket) (difference : ℕ)
    → l.rtsp_link_is_idle ≡ false
    → l.dropped ≡ false
    → l.time_is_known ≡ true
    → p.seconds < 2 ^ 32
    → p.fraction < 2 ^ 32
    → let s = (control_round e l (datagram (sync_bytes p)) c).0.sync in
      (s.latency ≡ new_latency e p.flags (sub32 p.frame p.less_latency) c.sync.latency)
      × (frame_to_ntp_local_time difference (sub32 p.frame s.latency) s.anchor
          ≡ some (sub64 (sync_time p) difference))
unfolding control_round receive_control
sync_packet_read e l c p difference busy kept known h k =
    let rest = drop 20 c.packet in
    let n = l.packet_count_since_flush in
    let time : u64 (remote_time (sync_bytes p ++ rest)) ≡ sync_time p =
      rw (remote_time-read p rest h k) (omega arith) in
    rw (busy, kept, known)
      (
        latency_read e n p rest c.sync,
        ap
              (frame_to_ntp_local_time difference
                (sub32 p.frame (handle_sync e n (sync_bytes p ++ rest) c.sync).latency))
              (anchor_read e n p rest c.sync)
            ∙ (at_anchor difference
                  (sub32 p.frame (handle_sync e n (sync_bytes p ++ rest) c.sync).latency)
                  (remote_time (sync_bytes p ++ rest))
                ∙ ap (λ t. some (sub64 t difference)) time),
      )
