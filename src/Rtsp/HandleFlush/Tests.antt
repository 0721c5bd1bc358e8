-- ===== src/Rtsp/HandleFlush/Tests.antt =====
-- The theorems on the FLUSH request of src/rtsp.c at a playing connection.
use shairport_sync_for_openw.Prelude.{
  ℕ, ◌≡◌, ◌≢◌, true, false, some, List, [], ◌∷◌, ◌++◌, arith, All,
}
use shairport_sync_for_openw.Prelude.Int.{pos}
use shairport_sync_for_openw.Player.Buffer.{bufidx}
use shairport_sync_for_openw.Player.GetFrame.Flush.{flush_decision, apply_decision}
use shairport_sync_for_openw.Player.Samples.{playing}
use shairport_sync_for_openw.Rtsp.Message.{Message, message, msg_add_header}
use shairport_sync_for_openw.Rtsp.Message.Tests.{only_found, nothing_found}
use shairport_sync_for_openw.Rtsp.PlayLock.Tests.{played, first_plays}
use shairport_sync_for_openw.Rtsp.Response.{print_int}
use shairport_sync_for_openw.Rtsp.HandleFlush.{rtp_info, rtptime, handle_flush}
use shairport_sync_for_openw.Rtsp.HandleFlush.Laws.{letter_r, handle_flush_frame, handle_flush_all}

-- "seq=7;".
abbrev seq_7 : List ℕ
seq_7 = 115 ∷ 101 ∷ 113 ∷ 61 ∷ 55 ∷ 59 ∷ []

-- A request to flush up to the frame 3000000000.
abbrev flush_to_frame : Message
flush_to_frame =
    msg_add_header rtp_info (seq_7 ++ (rtptime ++ print_int (pos 3000000000))) (message [] [])

seq_7_plain : All (λ x. x ≢ letter_r) seq_7
seq_7_plain = (
  (λ e. omega arith),
  (
    (λ e. omega arith),
    ((λ e. omega arith), ((λ e. omega arith), ((λ e. omega arith), ((λ e. omega arith), tt)))),
  ),
)

handle_flush_frame_example :
    let h = handle_flush (some 1) played flush_to_frame playing in
    (h.respcode ≡ 200) × (h.conn.flush_requested ≡ true) × (h.conn.flush_rtp_timestamp ≡ 3000000000)
handle_flush_frame_example =
    handle_flush_frame (some 1) played flush_to_frame playing seq_7 3000000000 first_plays
      (only_found rtp_info (seq_7 ++ (rtptime ++ print_int (pos 3000000000)))) seq_7_plain
      (omega arith)

handle_flush_all_example :
    let h = handle_flush (some 1) played (message [] []) playing in
    let d = apply_decision (flush_decision 1 h.conn) in
    (h.respcode ≡ 200)
    × (d.ab_synced ≡ false)
    × (d.ab_buffering ≡ true)
    × (d.first_packet_timestamp ≡ 0)
    × (d.flush_requested ≡ false)
    × ((i : ℕ) → (d.audio_buffer (bufidx i)).ready ≡ false)
handle_flush_all_example =
    handle_flush_all (some 1) played (message [] []) playing 1 first_plays (nothing_found rtp_info)
