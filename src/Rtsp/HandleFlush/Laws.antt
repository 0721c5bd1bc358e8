-- ===== src/Rtsp/HandleFlush/Laws.antt =====
-- What a FLUSH request of src/rtsp.c does to the player's buffer.
use shairport_sync_for_openw.Prelude.{
  ℕ, ◌^◌, ◌<◌, ◌≡◌, ◌≢◌, refl, arith, true, false, Option, none, some, List, [], ◌∷◌, ◌++◌, ◌==◌,
  All,
}
use shairport_sync_for_openw.Prelude.Int.{pos}
use shairport_sync_for_openw.Rtsp.Message.{Message, msg_get_header}
use shairport_sync_for_openw.Rtsp.PlayLock.{Lock, have_play_lock}
use shairport_sync_for_openw.Rtsp.Response.{print_int}
use shairport_sync_for_openw.Rtsp.Response.Decimal.{atoi-print_int}
use shairport_sync_for_openw.Rtsp.HandleFlush.{
  rtp_info, rtptime, is_prefix, strstr, strchr, uatoi, rtptime_text, time_of, handle_flush,
}
use shairport_sync_for_openw.Player.Buffer.{
  Conn, bufidx, player_flush, do_flush, reset_input_flow_metrics,
}
use shairport_sync_for_openw.Player.Flow.{player_flush_all}
use shairport_sync_for_openw.Player.GetFrame.Flush.{flush_decision, apply_decision}

-- The letter that "rtptime=" starts with.
abbrev pub letter_r : ℕ
letter_r = 114

strstr_found :
    (before after : List ℕ)
    → All (λ x. x ≢ letter_r) before
    → strstr (before ++ (rtptime ++ after)) rtptime ≡ some (rtptime ++ after)
unfolding strstr is_prefix
strstr_found [] after h = refl
strstr_found (x ∷ before) after (p, h) =
    let other : (letter_r == x) ≡ false = ground arith in rw other (strstr_found before after h)

after_equals : (after : List ℕ) → strchr (rtptime ++ after) 61 ≡ some (61 ∷ after)
unfolding strchr
after_equals after = refl

rtptime_text-written :
    (req : Message) (before after : List ℕ)
    → msg_get_header rtp_info req ≡ some (before ++ (rtptime ++ after))
    → All (λ x. x ≢ letter_r) before
    → rtptime_text req ≡ some after
unfolding rtptime_text
rtptime_text-written req before after h k =
    rw (h, strstr_found before after k, after_equals after) refl

uatoi-print_int : (n : ℕ) → n < 2 ^ 32 → uatoi (print_int (pos n)) ≡ n
unfolding uatoi
uatoi-print_int n h = rw (atoi-print_int n (omega arith)) (omega arith)

module _ (me : Option ℕ) (lock : Lock) (req : Message) (conn : Conn) where
  -- From the connection that has the player, a FLUSH request whose RTP-Info header has a frame number
  -- of 32 bits after "rtptime=", with no letter r before that, is answered with 200, and asks the
  -- player for a flush up to exactly that frame.
  pub handle_flush_frame :
      (before : List ℕ) (n : ℕ)
      → have_play_lock me lock ≡ true
      → msg_get_header rtp_info req ≡ some (before ++ (rtptime ++ print_int (pos n)))
      → All (λ x. x ≢ letter_r) before
      → n < 2 ^ 32
      → let h = handle_flush me lock req conn in
        (h.respcode ≡ 200) × (h.conn.flush_requested ≡ true) × (h.conn.flush_rtp_timestamp ≡ n)
  unfolding handle_flush time_of player_flush do_flush reset_input_flow_metrics
  handle_flush_frame before n holds written plain small =
      rw (holds, rtptime_text-written req before (print_int (pos n)) written plain)
        (refl, refl, uatoi-print_int n small)

  -- From the connection that has the player, a FLUSH request without an RTP-Info header is answered
  -- with 200, and when the player next decides on the request, its buffer becomes empty, it is not
  -- synchronised and has no first packet, and the request is done.
  pub handle_flush_all :
      (b : ℕ)
      → have_play_lock me lock ≡ true
      → msg_get_header rtp_info req ≡ none
      → let h = handle_flush me lock req conn in
        let d = apply_decision (flush_decision b h.conn) in
        (h.respcode ≡ 200)
        × (d.ab_synced ≡ false)
        × (d.ab_buffering ≡ true)
        × (d.first_packet_timestamp ≡ 0)
        × (d.flush_requested ≡ false)
        × ((i : ℕ) → (d.audio_buffer (bufidx i)).ready ≡ false)
  unfolding handle_flush time_of rtptime_text
  handle_flush_all b holds no_info =
      let (synced, buffering, first, requested, empty) = player_flush_all b conn in
      rw (holds, no_info) (refl, synced, buffering, first, requested, empty)

  -- From any other connection it is answered with 451 and changes nothing.
  handle_flush_refused :
      have_play_lock me lock ≡ false
      → let h = handle_flush me lock req conn in
        (h.respcode ≡ 451) × (h.conn ≡ conn) × (h.flsr ≡ [])
  unfolding handle_flush
  handle_flush_refused other = rw other (refl, refl, refl)
