-- ===== src/Rtp/TcpBuffer/Threads.antt =====
-- The reader thread and the consumer on one buffer, interleaved. The reader's `recv` runs without
-- the mutex, so calls of `buffered_read` may come between its request and its arrival.
use mathlib.Core.List.{append_assoc}
use shairport_sync_for_openw.Prelude.{
  ℕ, ◌≤◌, ◌≡◌, ap, ◌∙◌, sym, Option, none, some, List, ◌++◌, arith, length,
}
use shairport_sync_for_openw.Rtp.TcpBuffer.{
  TcpBuffer, moved, buffered_read, request, error, bytes, received,
}
use shairport_sync_for_openw.Rtp.TcpBuffer.Laws.{
  IsValid, contents, Fits, Moves, buffered_read-Moves, request_lem, received-bytes,
  received-IsValid_of_error,
}

-- The descriptor, the request that is under way, and what has passed through so far.
pub record System : Type 0 where
  pub desc : TcpBuffer
  pub pending : Option ℕ
  pub came_in : List ℕ
  pub given_out : List ℕ

pub data Step : System → System → Type 0 where
  ask :
      (s : System) (d : TcpBuffer) (k : ℕ)
      → s.pending ≡ none
      → request s.desc ≡ some (d, k)
      → Step s (record s { desc = d; pending = some k })
  arrive :
      (s : System) (k : ℕ) (xs : List ℕ)
      → s.pending ≡ some k
      → length xs ≤ k
      → Step s (record s {
        desc = received s.desc (bytes xs);
        pending = none;
        came_in = s.came_in ++ xs;
      })
  fail :
      (s : System) (k errno : ℕ)
      → s.pending ≡ some k
      → Step s (record s { desc = received s.desc (error errno); pending = none })
  read :
      (s : System) (count : ℕ) (xs : List ℕ) (r : ℕ) (d : TcpBuffer)
      → buffered_read s.desc count ≡ moved xs r d
      → Step s (record s { desc = d; given_out = s.given_out ++ xs })

pub data Reach (s : System) : System → Type 0 where
  here : Reach s s
  next : {t u : System} → Reach s t → Step t u → Reach s u

pub record Inv (s : System) : Type 0 where
  pub valid : IsValid s.desc
  pub fits : (k : ℕ) → s.pending ≡ some k → Fits s.desc k
  pub stream : s.came_in ≡ s.given_out ++ contents s.desc

none-ne-some : {A : Type 0} {o : Option A} {a : A} → o ≡ none → o ≡ some a → ⊥
none-ne-some p q = cc

Fits-Moves :
    {d d' : TcpBuffer} {count r : ℕ} {xs : List ℕ} (k : ℕ)
    → Moves d count xs r d'
    → Fits d k
    → Fits d' k
Fits-Moves k m h = let e = m.same_eoq in let z = m.same_size in let t = m.taken in omega arith

Step-Inv : {s t : System} → Step s t → Inv s → Inv t
Step-Inv (ask s d k p e) v =
    let q = request_lem s.desc d k v.valid e in
    record {
      valid = q.0;
      fits = λ j h. (let g : k ≡ j = ground arith in rw (← g) q.1);
      stream = v.stream ∙ ap (λ l. s.given_out ++ l) (sym q.4);
    }
Step-Inv (arrive s k xs p h) v =
    let f = v.fits k p in
    let q = received-bytes s.desc xs v.valid (omega (arith, f.0), omega (arith, f.1)) in
    record {
      valid = q.0;
      fits = λ j g. absurd (cc);
      stream =
          ap (λ l. l ++ xs) v.stream
          ∙ (append_assoc s.given_out (contents s.desc) xs ∙ ap (λ l. s.given_out ++ l) (sym q.1));
    }
Step-Inv (fail s k errno p) v = record {
  valid = received-IsValid_of_error s.desc errno v.valid;
  fits = λ j g. absurd (cc);
  stream = unfold received in v.stream;
}
Step-Inv (read s count xs r d e) v =
    let m = buffered_read-Moves s.desc count xs r d v.valid e in
    record {
      valid = m.valid;
      fits = λ k p. Fits-Moves k m (v.fits k p);
      stream =
          v.stream
          ∙ (ap (λ l. s.given_out ++ l) m.split ∙ sym (append_assoc s.given_out xs (contents d)));
    }

-- However the two threads interleave, the ring stays valid, no arrival overruns it, and the bytes
-- that came in are those given out followed by those in the ring: none lost, doubled or reordered.
pub Reach-Inv : {s t : System} → Inv s → Reach s t → Inv t
Reach-Inv v here = v
Reach-Inv v (next r st) = Step-Inv st (Reach-Inv v r)
