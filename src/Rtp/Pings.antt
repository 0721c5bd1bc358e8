-- ===== src/Rtp/Pings.antt =====
-- The timing replies of `rtp_timing_receiver` of src/rtp.c: the history of pings, and the difference of
-- the clocks, which goes by the ping with the least dispersion. The factor by which dispersions age is
-- computed with floating-point numbers, and so is the drift, which is left out.
pub mod Accuracy
mod Tests
use shairport_sync_for_openw.Prelude.{
  ℕ, ◌+◌, ◌-◌, ◌*◌, ◌/◌, ◌^◌, Bool, true, false, List, [], ◌∷◌, map, ltb, leb, ◌==◌, if◌then◌else◌,
  take, set, get_or, u64, sub64,
}
use shairport_sync_for_openw.Common.Bytes.{nctohl}

-- `time_ping_record`.
pub record Ping : Type 0 where
  pub dispersion : ℕ
  pub local_time : ℕ
  pub remote_time : ℕ
  pub sequence_number : ℕ
  pub chosen : Bool

-- The part of the connection that the receiver uses. The list holds the first `time_ping_count`
-- entries of the array; no others are used.
pub record State : Type 0 where
  pub time_pings : List Ping
  pub sequence_number : ℕ
  pub local_to_remote_time_difference : ℕ
  pub measurement_time : ℕ

abbrev pub time_ping_history : ℕ
time_ping_history = 128

-- Seconds and a fraction, in nanoseconds.
pub time_at : ℕ → List ℕ → ℕ
time_at i packet =
    u64 (u64 (nctohl i packet * 1000000000) + nctohl (i + 4) packet * 1000000000 / 2 ^ 32)

-- The dispersion ages by a factor in hundredths, unless that would overflow.
pub age : ℕ → Ping → Ping
age factor p =
    if ltb ((2 ^ 64 - 1) / factor) p.dispersion
    then p
    else record p { dispersion = p.dispersion * factor / 100 }

-- The older pings, moved on by one place; the oldest is lost when the history is full.
pub aged : ℕ → List Ping → List Ping
aged factor ps = take (time_ping_history - 1) (map (age factor) ps)

-- The loop that looks for less dispersion, with the index and the ping chosen so far.
pub least : ℕ → Ping → ℕ → List Ping → ℕ × Ping
least chosen p cc [] = (chosen, p)
least chosen p cc (q ∷ qs) =
    if ltb q.dispersion p.dispersion then least cc q (cc + 1) qs else least chosen p (cc + 1) qs

-- The time that the request and the reply were on their way.
pub return_time : ℕ → ℕ → ℕ → ℕ
return_time total receive transmit =
    let processing = if leb receive transmit then transmit - receive else 0 in
    if ltb processing total then total - processing else total

pub new_ping : ℕ → ℕ → ℕ → ℕ → Ping
new_ping sequence_number arrival transmit back = record {
  dispersion = back;
  local_time = arrival;
  remote_time = u64 (transmit + back / 2);
  sequence_number = sequence_number;
  chosen = false;
}

-- The new ping is put in front, and the one with the least dispersion gives the difference.
pub take_ping : ℕ → Ping → State → State
take_ping factor p s =
    let older = aged factor s.time_pings in
    let (chosen, q) = least 0 p 1 older in
    record {
      time_pings = set (p ∷ older) chosen (record q { chosen = true });
      sequence_number = s.sequence_number + 1;
      local_to_remote_time_difference = sub64 q.remote_time q.local_time;
      measurement_time = q.local_time;
    }

-- A packet that has arrived. Of timing replies only those count that took less than 0.2 seconds.
pub timing_round : ℕ → ℕ → ℕ → List ℕ → State → State
timing_round factor departure arrival packet s =
    let total = sub64 arrival departure in
    if get_or packet 1 0 == 211
    then (if ltb total 200000000
        then take_ping factor
            (new_ping s.sequence_number arrival (time_at 24 packet)
              (return_time total (time_at 16 packet) (time_at 24 packet)))
            s
        else s)
    else s
