-- ===== src/Rtp/Ptp/Master.antt =====
-- The local anchor while the master clock stays, changes, or is lost.
use shairport_sync_for_openw.Prelude.{
  ℕ, ◌+◌, ◌^◌, ◌<◌, ◌≡◌, ◌≢◌, refl, ap, ◌∙◌, Bool, true, false, none, some, if◌then◌else◌, u64,
  sub64, arith, ◌==◌,
}
use shairport_sync_for_openw.Rtp.Ptp.{
  clock_ok, clock_no_anchor_info, clock_not_valid, Anchor, ClockInfo, info, is_over_five_seconds,
  set_ptp_anchor_info, reset_ptp_anchor_info, same_master, new_master, with_clock, ask_clock,
  get_ptp_anchor_local_time_info,
}

with_clock-same :
    (now later : ℕ) (i : ClockInfo) (a : Anchor)
    → a.anchor_remote_info_is_valid ≡ true
    → i.clock_id ≡ a.anchor_clock
    → with_clock now later i a ≡ (same_master now i a, clock_ok)
unfolding with_clock
with_clock-same now later i a v e =
    let t : (i.clock_id == a.anchor_clock) ≡ true = ground arith in simp (v, t)

-- While the clock of the anchor is the master, the local anchor is the anchor's frame with its time
-- less the offset of the clock, whatever was known before.
pub get_same_master :
    (now later : ℕ) (i : ClockInfo) (a : Anchor)
    → a.anchor_remote_info_is_valid ≡ true
    → i.clock_id ≡ a.anchor_clock
    → (get_ptp_anchor_local_time_info false (info i) now later a).1 ≡ clock_ok
      × ((get_ptp_anchor_local_time_info false (info i) now later a).2
          ≡ some (a.anchor_rtptime, sub64 a.anchor_time i.offset))
unfolding get_ptp_anchor_local_time_info ask_clock
get_same_master now later i a v e =
    rw (with_clock-same now later i a v e) (refl, unfold same_master in refl)

-- An anchor that is set is the one that is used, once its clock is the master.
pub set_then_get :
    (set_time clock rtptime networktime now later : ℕ) (i : ClockInfo) (a : Anchor)
    → i.clock_id ≡ clock
    → let b = set_ptp_anchor_info set_time clock rtptime networktime a in
      ((get_ptp_anchor_local_time_info false (info i) now later b).1 ≡ clock_ok)
      × ((get_ptp_anchor_local_time_info false (info i) now later b).2
          ≡ some (rtptime, sub64 networktime i.offset))
unfolding set_ptp_anchor_info
set_then_get set_time clock rtptime networktime now later i a e =
    get_same_master now later i (set_ptp_anchor_info set_time clock rtptime networktime a) refl e

-- After a reset there is no local anchor and no valid response, whatever clock there is.
pub reset_then_get :
    (idle : Bool) (now later : ℕ) (i : ClockInfo) (a : Anchor)
    → let r = get_ptp_anchor_local_time_info idle (info i) now later (reset_ptp_anchor_info a) in
      (r.2 ≡ none) × (r.1 ≡ (if idle then clock_not_valid else clock_no_anchor_info))
unfolding get_ptp_anchor_local_time_info ask_clock with_clock reset_ptp_anchor_info
reset_then_get true now later i a = (refl, refl)
reset_then_get false now later i a = (refl, refl)

-- Another clock has been the master, and the anchor was last brought up to date over five seconds
-- ago.
pub record HasNewMaster (later : ℕ) (i : ClockInfo) (a : Anchor) : Type 0 where
  pub remote : a.anchor_remote_info_is_valid ≡ true
  pub last : a.last_anchor_info_is_valid ≡ true
  pub other : i.clock_id ≢ a.anchor_clock
  pub old : is_over_five_seconds (sub64 later a.last_anchor_time_of_update) ≡ true

with_clock-new :
    (now later : ℕ) (i : ClockInfo) (a : Anchor)
    → HasNewMaster later i a
    → with_clock now later i a ≡ (new_master i a, clock_ok)
unfolding with_clock
with_clock-new now later i a h =
    let t : (i.clock_id == a.anchor_clock) ≡ false = ground (arith, h.other) in
    simp (h.remote, t, h.last, h.old)

get-new :
    (now later : ℕ) (i : ClockInfo) (a : Anchor)
    → HasNewMaster later i a
    → get_ptp_anchor_local_time_info false (info i) now later a ≡ (
      record (new_master i a) { clock_status = clock_ok },
      clock_ok,
      some (a.last_anchor_rtptime, a.last_anchor_local_time),
    )
unfolding get_ptp_anchor_local_time_info ask_clock new_master
get-new now later i a h = simp (with_clock-new now later i a h, h.last)

moved :
    (now later : ℕ) (i : ClockInfo) (a : Anchor)
    → a.anchor_remote_info_is_valid ≡ true
    → a.last_anchor_local_time < 2 ^ 64
    → i.offset < 2 ^ 64
    → (get_ptp_anchor_local_time_info false
        (info i)
        now
        later
        (record (new_master i a) { clock_status = clock_ok })).2
      ≡ some (a.anchor_rtptime, a.last_anchor_local_time)
unfolding new_master
moved now later i a v l o =
    let b = record (new_master i a) { clock_status = clock_ok } in
    let z : sub64 (u64 (a.last_anchor_local_time + i.offset)) i.offset ≡ a.last_anchor_local_time =
      omega arith in
    (get_same_master now later i b v refl).1 ∙ ap (λ t. some (a.anchor_rtptime, t)) z

-- When the anchor is moved to a new master clock, that call still gives the last local anchor, and
-- the next call pairs its time with the frame of the anchor: nothing jumps if the anchor's frame is
-- still the one of the last local anchor, and otherwise the frame of one anchor gets the time of
-- another.
pub get_new_master :
    (now later now' later' : ℕ) (i : ClockInfo) (a : Anchor)
    → HasNewMaster later i a
    → a.last_anchor_local_time < 2 ^ 64
    → i.offset < 2 ^ 64
    → let r = get_ptp_anchor_local_time_info false (info i) now later a in
      (r.1 ≡ clock_ok)
      × (r.2 ≡ some (a.last_anchor_rtptime, a.last_anchor_local_time))
      × ((get_ptp_anchor_local_time_info false (info i) now' later' r.0).2
          ≡ some (a.anchor_rtptime, a.last_anchor_local_time))
get_new_master now later now' later' i a h l o =
    let e = get-new now later i a h in
    let b = record (new_master i a) { clock_status = clock_ok } in
    let g : (get_ptp_anchor_local_time_info false (info i) now' later' b).2
        ≡ some (a.anchor_rtptime, a.last_anchor_local_time) =
      moved now' later' i a h.remote l o in
    rw e (refl, refl, g)
