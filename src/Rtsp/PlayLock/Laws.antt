-- ===== src/Rtsp/PlayLock/Laws.antt =====
-- What the answer of `get_play_lock` says of the lock.
use shairport_sync_for_openw.Prelude.{
  ℕ, zero, suc, ◌≡◌, ◌≢◌, inl, inr, refl, sym, ap, ◌∙◌, Bool, true, false, Option, none, some,
  arith, Bool-cases, Option-cases, none≢some, some_inj,
}
use shairport_sync_for_openw.Prelude.Int.{pos, negsuc}
use shairport_sync_for_openw.Rtsp.PlayLock.{
  Lock, same_conn, have_play_lock, release_play_lock, Look, have_it, wait_for_stop, interrupt,
  refused, null_dereferenced, another_plays, look_at, first_look, try_lock, attempt, wait_loop,
  attempts, answer, respond, get_play_lock,
}

wait_loop_taken :
    (n : ℕ) (others : ℕ → Lock → Lock) (conn : Option ℕ) (s : Lock)
    → (others n s).playing_conn ≡ none
    → wait_loop (suc n) others conn s ≡ (record (others n s) { playing_conn = conn }, true)
unfolding wait_loop try_lock attempt
wait_loop_taken n others conn s h =
    ap (λ o. attempt (try_lock o conn (others n s)) (wait_loop n others conn (others n s))) h

wait_loop_busy :
    (n p : ℕ) (others : ℕ → Lock → Lock) (conn : Option ℕ) (s : Lock)
    → (others n s).playing_conn ≡ some p
    → wait_loop (suc n) others conn s ≡ wait_loop n others conn (others n s)
unfolding wait_loop try_lock attempt
wait_loop_busy n p others conn s h =
    ap (λ o. attempt (try_lock o conn (others n s)) (wait_loop n others conn (others n s))) h

-- A successful wait ends with the lock taken.
wait_loop_sound :
    (n : ℕ) (others : ℕ → Lock → Lock) (conn : Option ℕ) (s : Lock)
    → (wait_loop n others conn s).1 ≡ true
    → (wait_loop n others conn s).0.playing_conn ≡ conn
wait_loop_sound zero others conn s h = unfold wait_loop in ground arith
wait_loop_sound (suc n) others conn s h = elim (Option-cases (others n s).playing_conn) [
  | inl e ↦ rw (wait_loop_taken n others conn s e) refl
  | inr (p, e) ↦
      let b = wait_loop_busy n p others conn s e in
      rw b (wait_loop_sound n others conn (others n s) (sym (ap (λ x. x.1) b) ∙ h))
]

answer_sound :
    (conn : Option ℕ) (n m : ℕ) (w : Lock × Bool) (t : Lock)
    → answer conn (pos m) w ≡ some (t, pos n)
    → (w.1 ≡ true) × (w.0 ≡ t)
unfolding answer
answer_sound conn n m (s, true) t h = (refl, ap (λ x. x.0) (some_inj h))
answer_sound none n m (s, false) t h = absurd (none≢some h)
answer_sound (some c) n m (s, false) t h =
    let e : negsuc 0 ≡ pos n = ap (λ x. x.1) (some_inj h) in absurd (ground arith)

wait_sound :
    (conn : Option ℕ) (others : ℕ → Lock → Lock) (n m : ℕ) (s t : Lock)
    → answer conn (pos m) (wait_loop attempts others conn s) ≡ some (t, pos n)
    → t.playing_conn ≡ conn
wait_sound conn others n m s t h =
    let (g, e) = answer_sound conn n m (wait_loop attempts others conn s) t h in
    ap (λ x. x.playing_conn) (sym e) ∙ wait_loop_sound attempts others conn s g

respond_sound :
    (conn : Option ℕ) (others : ℕ → Lock → Lock) (l : Lock × Look) (t : Lock) (n : ℕ)
    → respond conn others l ≡ some (t, pos n)
    → l.1 ≢ refused
    → (l.1 ≡ have_it → l.0.playing_conn ≡ conn)
    → t.playing_conn ≡ conn
unfolding respond
respond_sound conn others (s, have_it) t n h r g =
    ap (λ x. x.0.playing_conn) (sym (some_inj h)) ∙ g refl
respond_sound conn others (s, wait_for_stop) t n h r g = wait_sound conn others n 0 s t h
respond_sound conn others (s, interrupt) t n h r g = wait_sound conn others n 1 s t h
respond_sound conn others (s, refused) t n h r g = absurd (r refl)
respond_sound conn others (s, null_dereferenced) t n h r g = absurd (none≢some h)

same_conn-≡ : (a b : Option ℕ) → same_conn a b ≡ true → a ≡ b
unfolding same_conn
same_conn-≡ none none h = refl
same_conn-≡ none (some b) h = absurd (ground arith)
same_conn-≡ (some a) none h = absurd (ground arith)
same_conn-≡ (some a) (some b) h = let e : a ≡ b = ground arith in ap some e

another_plays_waits :
    (conn : Option ℕ) (p : ℕ) (s : Lock)
    → ((another_plays conn true p s).1 ≢ refused) × ((another_plays conn true p s).1 ≢ have_it)
unfolding another_plays
another_plays_waits conn p s = elim (Bool-cases (s.stop p)) [
  | inl t ↦ rw t (elim conn [
    | none ↦ (λ e. ground arith, λ e. ground arith)
    | some c ↦ (λ e. ground arith, λ e. ground arith)
  ])
  | inr t ↦ rw t (λ e. ground arith, λ e. ground arith)
]

look_at_sound :
    (o conn : Option ℕ) (s : Lock)
    → s.playing_conn ≡ o
    → ((look_at o conn true s).1 ≢ refused)
      × ((look_at o conn true s).1 ≡ have_it → (look_at o conn true s).0.playing_conn ≡ conn)
unfolding look_at
look_at_sound none conn s e = (λ h. ground arith, λ h. refl)
look_at_sound (some p) conn s e = elim (Bool-cases (same_conn (some p) conn)) [
  | inl t ↦ rw t (λ h. ground arith, λ h. e ∙ same_conn-≡ (some p) conn t)
  | inr t ↦ let (r, w) = another_plays_waits conn p s in rw t (r, λ h. absurd (w h))
]

-- Where interruption is allowed, an answer that is not negative means that the connection has the
-- player, whatever the other threads do.
pub get_play_lock_sound :
    (conn : Option ℕ) (others : ℕ → Lock → Lock) (s t : Lock) (n : ℕ)
    → get_play_lock conn true others s ≡ some (t, pos n)
    → t.playing_conn ≡ conn
unfolding get_play_lock first_look
get_play_lock_sound conn others s t n h =
    let (r, g) = look_at_sound s.playing_conn conn s refl in
    respond_sound conn others (look_at s.playing_conn conn true s) t n h r g

not_same : (p c : ℕ) → p ≢ c → same_conn (some p) (some c) ≡ false
unfolding same_conn
not_same p c h = ground arith

look_refused :
    (c p : ℕ) (s : Lock)
    → p ≢ c
    → s.stop p ≡ false
    → look_at (some p) (some c) false s ≡ (s, refused)
unfolding look_at another_plays
look_refused c p s d t = rw (not_same p c d, t) refl

-- With another connection playing that has not been told to stop, and interruption not allowed, the
-- answer is 0 although the connection does not have the player.
pub get_play_lock_refused :
    (c p : ℕ) (others : ℕ → Lock → Lock) (s : Lock)
    → s.playing_conn ≡ some p
    → p ≢ c
    → s.stop p ≡ false
    → (get_play_lock (some c) false others s ≡ some (s, pos 0))
      × (have_play_lock (some c) s ≡ false)
unfolding get_play_lock first_look respond have_play_lock
get_play_lock_refused c p others s e d t = (
  ap (λ o. respond (some c) others (look_at o (some c) false s)) e
      ∙ ap (respond (some c) others) (look_refused c p s d t),
  ap (λ o. same_conn o (some c)) e ∙ not_same p c d,
)

look_null :
    (p : ℕ) (allow : Bool) (s : Lock)
    → s.stop p ≡ true
    → look_at (some p) none allow s ≡ (s, null_dereferenced)
unfolding look_at another_plays same_conn
look_null p allow s t = rw t refl

-- A request by `NULL` while the playing connection has been told to stop reads through `NULL`.
pub get_play_lock_null :
    (p : ℕ) (allow : Bool) (others : ℕ → Lock → Lock) (s : Lock)
    → s.playing_conn ≡ some p
    → s.stop p ≡ true
    → get_play_lock none allow others s ≡ none
unfolding get_play_lock first_look respond
get_play_lock_null p allow others s e t =
    ap (λ o. respond none others (look_at o none allow s)) e
    ∙ ap (respond none others) (look_null p allow s t)

-- Releasing the lock lets the player go if the connection has it, and otherwise changes nothing;
-- afterwards the connection does not have it.
pub release_play_lock_lem :
    (c : ℕ) (s : Lock)
    → (have_play_lock (some c) (release_play_lock (some c) s) ≡ false)
      × (have_play_lock (some c) s ≡ false → release_play_lock (some c) s ≡ s)
      × (have_play_lock (some c) s ≡ true → (release_play_lock (some c) s).playing_conn ≡ none)
unfolding release_play_lock have_play_lock
release_play_lock_lem c s = elim (Bool-cases (same_conn s.playing_conn (some c))) [
  | inl t ↦ (rw t (unfold same_conn in refl), λ h. absurd (ground arith), λ h. rw t refl)
  | inr t ↦ (rw t t, λ h. rw t refl, λ h. absurd (ground arith))
]
