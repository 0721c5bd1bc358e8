-- ===== src/Rtp/Resend/Laws.antt =====
-- What is sent, and when nothing is.
use shairport_sync_for_openw.Prelude.{
  ℕ, ◌+◌, ◌*◌, ◌^◌, ◌<◌, ◌≤◌, ◌≡◌, ◌≢◌, ◌⊎◌, inl, inr, refl, true, false, ◌&&◌, not, none, some,
  List, get_or, length, Bool-cases, arith,
}
use shairport_sync_for_openw.Rtp.Resend.{
  Call, resend_packet, backoff_time, may_send, rtp_request_resend,
}

-- A 16-bit number read from two bytes in network order.
abbrev pub ntohs_at : List ℕ → ℕ → ℕ
ntohs_at bs i = get_or bs i 0 * 256 + get_or bs (i + 1) 0

-- A request has 8 bytes, and the first sequence number and the count can be read back from it.
pub resend_packet_lem :
    (first count : ℕ)
    → first < 2 ^ 16
    → count < 2 ^ 16
    → (length (resend_packet first count) ≡ 8)
      × (ntohs_at (resend_packet first count) 4 ≡ first)
      × (ntohs_at (resend_packet first count) 6 ≡ count)
unfolding resend_packet
resend_packet_lem first count h l = (refl, omega arith, omega arith)

paused :
    (c : Call) (last_error : ℕ)
    → last_error ≢ 0
    → last_error ≤ c.time_of_sending
    → c.time_of_sending ≤ last_error + backoff_time
    → c.time_of_sending < 2 ^ 64
    → may_send c last_error ≡ false
unfolding may_send
paused c last_error n h l b = ground arith

-- For 0.3 seconds after an error nothing is sent, and the time of the error is kept.
pub resend_pause :
    (c : Call) (first count last_error : ℕ)
    → last_error ≢ 0
    → last_error ≤ c.time_of_sending
    → c.time_of_sending ≤ last_error + backoff_time
    → c.time_of_sending < 2 ^ 64
    → rtp_request_resend c first count last_error ≡ (last_error, none)
unfolding rtp_request_resend
resend_pause c first count last_error n h l b =
    let p = paused c last_error n h l b in
    elim (Bool-cases c.rtp_running) [
      | inl r ↦ elim (Bool-cases (c.is_ap_2 && not c.has_remote_socket)) [
        | inl s ↦ simp (r, s)
        | inr s ↦ simp (r, s, p)
      ]
      | inr r ↦ simp r
    ]

-- The time of the error is 0 after a call exactly if there was no error and none happened in it, or
-- the request was sent in it.
pub resend_error :
    (c : Call) (first count last_error : ℕ)
    → c.time_of_sending ≢ 0
    → (rtp_request_resend c first count last_error).0 ≡ 0
    → (last_error ≡ 0)
      ⊎ ((c.sent ≡ true)
          × ((rtp_request_resend c first count last_error).1 ≡ some (resend_packet first count)))
unfolding rtp_request_resend
resend_error c first count last_error n h = ground arith
