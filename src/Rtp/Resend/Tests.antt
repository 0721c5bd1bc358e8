-- ===== src/Rtp/Resend/Tests.antt =====
-- The theorems on resend requests of src/rtp.c at concrete calls.
use shairport_sync_for_openw.Prelude.{true, false}
use shairport_sync_for_openw.Rtp.Resend.{Call}

abbrev soon_after : Call
soon_after = record {
  rtp_running = true;
  is_ap_2 = false;
  has_remote_socket = false;
  time_of_sending = 1200000000;
  dropped = false;
  sent = true;
}
