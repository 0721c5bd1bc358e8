-- ===== src/Player/PutPacket/Scan.antt =====
-- The resend checks at the end of `player_put_packet` of src/player.c. No other thread is taken to
-- change the buffer while the lock is let go for the sending of a request.
pub mod Loop
pub mod Keeps
pub mod First
pub mod Merge
mod Tests
use Prim.Native.Nat.{bit_and, bit_or}
use shairport_sync_for_openw.Prelude.{
  ℕ, zero, suc, ◌+◌, ◌-◌, ◌*◌, ◌/◌, ◌^◌, Bool, true, false, ◌&&◌, ◌||◌, not, Option, none, some,
  List, [], ◌∷◌, ◌++◌, ltb, ◌==◌, if◌then◌else◌, u16, u64, sub16, sub64, update,
}
use shairport_sync_for_openw.Player.Buffer.{Slot, bufidx}

-- The settings, a floating-point number of seconds already turned into nanoseconds.
pub record Limits : Type 0 where
  pub minimum_wait_time : ℕ
  pub resend_repeat_interval : ℕ
  pub minimum_remaining_time : ℕ
  pub latency : ℕ
  pub input_rate : ℕ
  pub disable_resend_requests : Bool

abbrev latency_time : Limits → ℕ
latency_time l = u64 (l.latency * 1000000000) / l.input_rate

-- The variables of the loop: the frame looked at, the slots, the first missing frame, the current
-- run of missing frames, the number missing, and the requests made so far.
pub record Scan : Type 0 where
  pub x : ℕ
  pub slots : ℕ → Slot
  pub first_missing : Option ℕ
  pub run_start : Option ℕ
  pub run_count : ℕ
  pub missing : ℕ
  pub requests : List (ℕ × ℕ)

abbrev pub or_else : Option ℕ → ℕ → Option ℕ
or_else none x = some x
or_else (some y) x = some y

abbrev put_flag : Bool → ℕ → ℕ → ℕ
put_flag on mask status = if on then bit_or status mask else bit_and status (255 - mask)

module _ (l : Limits) (time_now : ℕ) where
  pub too_late : Slot → Bool
  too_late s =
      let cutoff = sub64 time_now (latency_time l) in
      ltb s.initialisation_time cutoff
      || ltb (sub64 s.initialisation_time cutoff) l.minimum_remaining_time

  pub too_early : Slot → Bool
  too_early s = ltb (sub64 time_now s.initialisation_time) l.minimum_wait_time

  pub too_soon : Slot → Bool
  too_soon s =
      not (s.resend_time == 0) && ltb (sub64 time_now s.resend_time) l.resend_repeat_interval

  -- A missing frame is asked for if it is none of the three.
  pub is_due : Slot → Bool
  is_due s = not (too_soon s) && (not (too_late s) && not (too_early s))

  pub flag_slot : Slot → Slot
  flag_slot s = record s {
    status = put_flag (too_soon s) 16 (put_flag (too_early s) 8 (put_flag (too_late s) 4 s.status));
  }

  pub mark_slot : Slot → Slot
  unfolding flag_slot
  mark_slot s =
      let t = flag_slot s in
      if is_due s
      then record t {
        resend_time = time_now;
        resend_request_number = u16 (s.resend_request_number + 1);
      }
      else t

  -- The part of the body that looks at the frame.
  pub look : Scan → Scan
  look s =
      let b = s.slots (bufidx s.x) in
      if b.ready then s else record s {
        slots = update s.slots (bufidx s.x) (mark_slot b);
        first_missing = or_else s.first_missing s.x;
        missing = s.missing + 1;
        run_start = if is_due b then or_else s.run_start s.x else s.run_start;
        run_count =
            if is_due b
            then elim s.run_start [ none ↦ 1 | some _ ↦ s.run_count + 1 ]
            else s.run_count;
      }

  -- The part that moves on and makes a request at the end of a run.
  pub advance : ℕ → Scan → Scan
  advance ab_write s =
      let x' = u16 (s.x + 1) in
      if ((s.slots (bufidx s.x)).ready || x' == ab_write) && ltb 0 s.run_count
      then record s {
        x = x';
        run_start = none;
        run_count = 0;
        requests = if l.disable_resend_requests then s.requests else elim s.run_start [
          | some first ↦ s.requests ++ (first, s.run_count) ∷ []
          | none ↦ s.requests
        ];
      }
      else record s { x = x' }

  pub scan : ℕ → ℕ → Scan → Option Scan
  scan zero ab_write s = none
  scan (suc fuel) ab_write s =
      let rest = scan fuel ab_write (advance ab_write (look s)) in
      if s.x == ab_write then some s else rest

-- Where the scan starts.
pub scan_from : ℕ → ℕ → Option ℕ → ℕ
scan_from ab_read ab_write none = ab_read
scan_from ab_read ab_write (some f) =
    let buffer_size = sub16 ab_write ab_read in
    let position = sub16 f ab_read in
    if ltb buffer_size (2 ^ 15) && (ltb position (2 ^ 15) && ltb position buffer_size)
    then f
    else ab_read

abbrev pub scan_fuel : ℕ
scan_fuel = 2 ^ 16 + 1

abbrev pub start_scan : ℕ → (ℕ → Slot) → Scan
start_scan x slots = record {
  x = x;
  slots = slots;
  first_missing = none;
  run_start = none;
  run_count = 0;
  missing = 0;
  requests = [];
}

-- What the scan leaves behind; 65537 rounds are enough, so the last case does not arise.
pub finish : ℕ → Scan → Option Scan → Scan
finish ab_write start (some s) =
    if s.missing == 0 then record s { first_missing = some ab_write } else s
finish ab_write start none = start

pub run_scan : Limits → ℕ → ℕ → ℕ → (ℕ → Slot) → Option ℕ → Scan
run_scan l time_now ab_read ab_write slots first_missing =
    let start = start_scan (scan_from ab_read ab_write first_missing) slots in
    finish ab_write start (scan l time_now scan_fuel ab_write start)
