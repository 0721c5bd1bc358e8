-- ===== src/Audio/Pa/Callback.antt =====
-- What `stream_write_cb` hands over.
use mathlib.Core.List.{append_assoc}
use shairport_sync_for_openw.Prelude.{
  ℕ, zero, suc, ◌+◌, ◌-◌, ◌≤◌, ◌<◌, ◌≡◌, refl, sym, ap, ◌∙◌, ◌⊎◌, inl, inr, arith, Bool, true,
  false, ◌&&◌, some, List, [], ◌++◌, ltb, length, length-append, Bool-cases,
}
use shairport_sync_for_openw.Audio.Pa.{
  PaBuffer, copy_out, Reply, begin_fails, room, ask, Written, write_loop, stream_write_cb,
}
use shairport_sync_for_openw.Audio.Pa.Laws.{
  IsValid, queued, copy_out-IsValid, queued-copy_out, length-copy_out,
}

-- `pa_stream_begin_write` fails, or it gives room for at least one byte and no more than asked.
abbrev pub Serves : (ℕ → ℕ → Reply) → Type 0
Serves replies =
    (k a : ℕ)
    → 0 < a
    → (replies k a ≡ begin_fails)
      ⊎ ((n : ℕ) × (ok : Bool) × (replies k a ≡ room n ok) × (0 < n) × (n ≤ a))

-- What has been handed over when the callback ends, and why it ends.
pub record Ends (before : List ℕ) (wanted : ℕ) (p : PaBuffer) (w : Written) : Type 0 where
  pub joined : w.bytes ++ queued w.after ≡ before ++ queued p
  pub valid : IsValid w.after
  pub counted : length w.bytes + w.wanted ≡ length before + wanted
  pub finished : w.failed ≡ false → (w.wanted ≡ 0) ⊎ (w.after.audio_occupancy ≡ 0)

ask_lem :
    (p : PaBuffer) (wanted : ℕ)
    → IsValid p
    → 0 < wanted
    → 0 < p.audio_occupancy
    → IsValid (ask p wanted).1
      × (queued (ask p wanted).1 ≡ queued p)
      × ((ask p wanted).1.audio_occupancy ≡ p.audio_occupancy)
      × ((ask p wanted).0 ≤ p.audio_occupancy)
      × ((ask p wanted).0 ≤ wanted)
      × (0 < (ask p wanted).0)
unfolding ask
ask_lem p wanted v h k = elim (Bool-cases (ltb p.audio_occupancy wanted)) [
  | inl few ↦ rw few (v', refl, refl, omega arith, ground arith, k)
  | inr enough ↦ rw enough (v, refl, refl, ground arith, omega arith, h)
]
  where
    v' : IsValid (record p { corked = true })
    v' = omega arith

-- One round in which bytes are handed over.
module _ (before : List ℕ) (wanted n : ℕ) (p q : PaBuffer) (v : IsValid q)
    (same : queued q ≡ queued p) (le : n ≤ q.audio_occupancy) (lw : n ≤ wanted) where
  abbrev handed : List ℕ
  handed = before ++ (copy_out q n).0

  handed-joined : handed ++ queued (copy_out q n).1 ≡ before ++ queued p
  handed-joined =
      append_assoc before (copy_out q n).0 (queued (copy_out q n).1)
      ∙ ap (λ l. before ++ l) (sym (queued-copy_out q n v le) ∙ same)

  handed-counted : length handed + (wanted - n) ≡ length before + wanted
  handed-counted = omega (arith, length-append before (copy_out q n).0, length-copy_out q n v le)

  -- The callback stops since `pa_stream_write` fails, or goes on.
  Ends-last :
      Ends before wanted p
        (record { bytes = handed; wanted = wanted - n; failed = true; after = (copy_out q n).1 })
  Ends-last = record {
    joined = handed-joined;
    valid = copy_out-IsValid q n v le;
    counted = handed-counted;
    finished = λ e. ground arith;
  }

  Ends-next : (w : Written) → Ends handed (wanted - n) (copy_out q n).1 w → Ends before wanted p w
  Ends-next w e = record {
    joined = e.joined ∙ handed-joined;
    valid = e.valid;
    counted = e.counted ∙ handed-counted;
    finished = e.finished;
  }

module _ (replies : ℕ → ℕ → Reply) (serves : Serves replies) where
  loop-Ends :
      (fuel wanted : ℕ) (before : List ℕ) (p : PaBuffer)
      → IsValid p
      → wanted < fuel
      → (w : Written) × (write_loop fuel replies before wanted p ≡ some w) × Ends before wanted p w
  unfolding write_loop
  loop-Ends zero wanted before p v h = elim h [ ]
  loop-Ends (suc fuel) wanted before p v h =
      elim (Bool-cases (ltb 0 wanted && ltb 0 p.audio_occupancy)) [
        | inl more ↦
            let (v', same, occ, lo, lw, some_asked) =
              ask_lem p wanted v (ground arith) (ground arith) in
            let q = (ask p wanted).1 in
            rw more (elim (serves fuel (ask p wanted).0 some_asked) [
              | inl fails ↦ rw fails (
                record { bytes = before; wanted = wanted; failed = true; after = q },
                refl,
                record {
                  joined = ap (λ l. before ++ l) same;
                  valid = v';
                  counted = refl;
                  finished = λ e. ground arith;
                },
              )
              | inr (n, true, given, some_given, le) ↦
                  let ih =
                    loop-Ends fuel (wanted - n) (before ++ (copy_out q n).0) (copy_out q n).1
                      (copy_out-IsValid q n v' (omega arith)) (omega arith) in
                  rw given (
                    ih.0,
                    ih.1,
                    Ends-next before wanted n p q v' same (omega arith) (omega arith) ih.0 ih.2,
                  )
              | inr (n, false, given, some_given, le) ↦
                  rw given
                    (_, refl, Ends-last before wanted n p q v' same (omega arith) (omega arith))
            ])
        | inr done ↦ rw done (
          record { bytes = before; wanted = wanted; failed = false; after = p },
          refl,
          record { joined = refl; valid = v; counted = refl; finished = λ _. ground arith },
        )
      ]

  -- From a valid buffer, with fuel for more rounds than bytes are requested, `stream_write_cb`
  -- ends. What it hands over, with what still waits, is what waited before; the buffer is valid;
  -- and if nothing fails, it has handed over all that was requested or the buffer is empty.
  pub stream_write_cb-Ends :
      (fuel requested_bytes : ℕ) (p : PaBuffer)
      → IsValid p
      → requested_bytes < fuel
      → (w : Written) × (stream_write_cb fuel replies requested_bytes p ≡ some w)
        × Ends [] requested_bytes p w
  unfolding stream_write_cb
  stream_write_cb-Ends fuel requested_bytes p v h = loop-Ends fuel requested_bytes [] p v h
