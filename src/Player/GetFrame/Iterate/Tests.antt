-- ===== src/Player/GetFrame/Iterate/Tests.antt =====
-- The loop of `buffer_get_frame` at a buffer of three packets.
use shairport_sync_for_openw.Prelude.{ℕ, ◌≡◌, refl, Bool, true, false, none, some, List, [], ◌∷◌}
use shairport_sync_for_openw.Prelude.Int.{pos}
use shairport_sync_for_openw.Player.Buffer.{Conn}
use shairport_sync_for_openw.Player.Samples.{playing, clock}
use shairport_sync_for_openw.Player.GetFrame.LeadIn.{Locals}
use shairport_sync_for_openw.Player.GetFrame.Iterate.{Moment, loop, get_frame, wakeup_ns}

abbrev moment : ℕ → Bool → Moment
moment now on = record {
  clock = clock;
  now = now;
  state_to_output = on;
  backend = some true;
  has_flush = true;
  output = record {
    delay = none;
    silent_lead_in_auto = true;
    silent_lead_in_ns = pos 0;
    output_rate = 44100;
    desired_buffer_frames = pos 100;
    max_frames_per_packet = 352;
    unfixable_error_reported = false;
    has_cmd_unfixable = false;
  };
  bytes_per_frame = 1;
  latency_offset = 0;
}

abbrev fresh : Locals
fresh = record { have_sent_prefiller_silence = false; notified_buffer_empty = false }

-- The loop waits for the first packet, which is due at 1100, and then lets it go.
abbrev moments : List (Moment × (Conn → Conn))
moments = (moment 1090 true, λ c. c) ∷ (moment 1100 true, λ c. c) ∷ []

-- At 44100 frames a second the wait is for about 1408 frames, four packets of 352.
wait_time : wakeup_ns 44100 ≡ some 31926400
unfolding wakeup_ns
wait_time = refl

nothing_yet : get_frame [] playing ≡ none
unfolding get_frame loop
nothing_yet = refl
