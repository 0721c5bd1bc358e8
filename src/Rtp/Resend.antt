-- ===== src/Rtp/Resend.antt =====
-- `rtp_request_resend` of src/rtp.c: the request for missing packets and the pause after an error.
pub mod Laws
mod Tests
use shairport_sync_for_openw.Prelude.{
  ℕ, ◌+◌, ◌*◌, ◌/◌, ◌%◌, ◌^◌, Bool, true, false, ◌&&◌, ◌||◌, not, Option, none, some, List, [], ◌∷◌,
  ltb, ◌==◌, if◌then◌else◌, u16, sub64,
}

-- What the call finds. `dropped` is the outcome of the diagnostic that drops packets at random, and
-- `sent` whether `sendto` succeeds.
pub record Call : Type 0 where
  pub rtp_running : Bool
  pub is_ap_2 : Bool
  pub has_remote_socket : Bool
  pub time_of_sending : ℕ
  pub dropped : Bool
  pub sent : Bool

-- Two bytes in network order.
abbrev pub htons : ℕ → List ℕ → List ℕ
htons n rest = u16 n / 256 ∷ u16 n % 256 ∷ rest

-- The second byte is the same for both protocols.
pub resend_packet : ℕ → ℕ → List ℕ
resend_packet first count = 128 ∷ 213 ∷ htons 1 (htons first (htons count []))

abbrev pub backoff_time : ℕ
backoff_time = 300000000

pub may_send : Call → ℕ → Bool
may_send c last_error = last_error == 0 || ltb backoff_time (sub64 c.time_of_sending last_error)

-- The time of the last error after the call, and the packet that is given to `sendto`, if any.
pub rtp_request_resend : Call → ℕ → ℕ → ℕ → ℕ × Option (List ℕ)
rtp_request_resend c first count last_error =
    if not c.rtp_running
    then (last_error, none)
    else if c.is_ap_2 && not c.has_remote_socket
    then (last_error, none)
    else if not (may_send c last_error)
    then (last_error, none)
    else if c.dropped
    then (c.time_of_sending, none)
    else (if c.sent then 0 else c.time_of_sending, some (resend_packet first count))
