-- ===== src/Player/PutPacket/Scan/Tests.antt =====
-- The merged run of the resend checks at three missing frames.
use shairport_sync_for_openw.Prelude.{
  ℕ, ◌+◌, ◌≡◌, refl, false, none, [], ◌∷◌, ◌==◌, if◌then◌else◌, arith,
}
use shairport_sync_for_openw.Player.Buffer.{Slot, bufidx}
use shairport_sync_for_openw.Player.PutPacket.Scan.{
  Limits, is_due, too_late, too_early, too_soon, run_scan,
}
use shairport_sync_for_openw.Player.PutPacket.Scan.Merge.{IsBroken, run_scan_merges}

abbrev limits : Limits
limits = record {
  minimum_wait_time = 100;
  resend_repeat_interval = 250;
  minimum_remaining_time = 100;
  latency = 1;
  input_rate = 1000000;
  disable_resend_requests = false;
}

abbrev missing : Slot
missing = record {
  ready = false;
  status = 1;
  resend_request_number = 0;
  samples = [];
  sequence_number = 0;
  initialisation_time = 4500;
  resend_time = 0;
  given_timestamp = 0;
  length = 0;
}

-- The second of the frames was asked for a moment ago.
abbrev slots : ℕ → Slot
slots i = if i == 11 then record missing { resend_time = 4900 } else missing

broken : IsBroken limits 5000 slots 10
unfolding is_due too_late too_early too_soon
broken = record {
  missing0 = refl;
  missing1 = refl;
  missing2 = refl;
  due0 = refl;
  due1 = refl;
  due2 = refl;
}

run_scan_merges_example :
    ((run_scan limits 5000 10 (10 + 3) slots none).requests ≡ (10, 2) ∷ [])
    × (((run_scan limits 5000 10 (10 + 3) slots none).slots (bufidx (10 + 2))).resend_time ≡ 5000)
run_scan_merges_example = run_scan_merges limits 5000 10 slots (omega arith) refl broken
