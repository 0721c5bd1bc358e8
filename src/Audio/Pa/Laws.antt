-- ===== src/Audio/Pa/Laws.antt =====
-- The buffer as a queue of bytes.
use mathlib.Core.List.{append_assoc}
use mathlib.Core.Path.{ap₂}
use shairport_sync_for_openw.Prelude.{
  ℕ, ◌+◌, ◌-◌, ◌≤◌, ◌<◌, ◌≡◌, refl, sym, ap, ◌∙◌, inl, inr, arith, List, [], ◌++◌, ltb, leb, length,
  take, drop, length-take, length-drop, length-append, take-append-drop, Bool-cases,
}
use shairport_sync_for_openw.Window.{
  wrap, window, store, slice, length-slice, window-store, window-add, slice-eq-window,
}
use shairport_sync_for_openw.Audio.Pa.{PaBuffer, copy_in, play, flush, copy_out}

pub record IsValid (p : PaBuffer) : Type 0 where
  pub room : 0 < p.audio_size
  pub toq_in : p.audio_toq ≤ p.audio_size
  pub eoq_in : p.audio_eoq ≤ p.audio_size
  pub occupied : p.audio_occupancy ≤ p.audio_size
  pub eoq_at :
      wrap p.audio_size p.audio_eoq
      ≡ wrap p.audio_size (wrap p.audio_size p.audio_toq + p.audio_occupancy)

-- The bytes that are waiting, in order.
abbrev pub queued : PaBuffer → List ℕ
queued p = window p.audio_size p.audio (wrap p.audio_size p.audio_toq) p.audio_occupancy

-- Bytes written from index `e` on, in one place or in two.
module _ (cap : ℕ) (f : ℕ → ℕ) (xs : List ℕ) (n h e : ℕ) (hc : h < cap) (ec : e ≤ cap)
    (at : wrap cap e ≡ wrap cap (h + n)) where
  window-one_place :
      n + length xs ≤ cap
      → e + length xs ≤ cap
      → window cap (store f e xs) h (n + length xs) ≡ window cap f h n ++ xs
  window-one_place nc fits = window-store cap xs f n h e hc nc fits (λ q. ground arith)

  -- The bytes up to the end, and the others from the start.
  abbrev stored_twice : ℕ → ℕ
  stored_twice = store (store f e (take (cap - e) xs)) 0 (drop (cap - e) xs)

  window-two_places :
      n + length xs ≤ cap
      → cap < e + length xs
      → window cap stored_twice h (n + length xs) ≡ window cap f h n ++ xs
  window-two_places nc over =
      let k : ℕ = cap - e in
      let t : length (take k xs) ≡ k = omega (arith, length-take k xs) in
      let d : length (drop k xs) ≡ length xs - k = length-drop k xs in
      let first =
        window-store cap (take k xs) f n h e hc (omega arith) (omega arith) (λ q. ground arith) in
      ap (window cap stored_twice h) (omega arith)
      ∙ (window-store cap (drop k xs) (store f e (take k xs)) (n + length (take k xs)) h 0 hc
            (omega arith) (omega arith) (λ q. ground arith)
          ∙ (ap (λ l. l ++ drop k xs) first
              ∙ (append_assoc (window cap f h n) (take k xs) (drop k xs)
                  ∙ ap (λ l. window cap f h n ++ l) (take-append-drop k xs))))

-- Bytes read from index `t` on, in one place or in two.
module _ (cap : ℕ) (f : ℕ → ℕ) where
  window_from_one_place :
      (n o t : ℕ)
      → 0 < cap
      → t ≤ cap
      → n ≤ o
      → t + n ≤ cap
      → window cap f (wrap cap t) o ≡ slice f t n ++ window cap f (wrap cap (t + n)) (o - n)
  unfolding slice
  window_from_one_place n o t pos tc some_left fits = elim (Bool-cases (ltb t cap)) [
    | inl inside ↦
        let e : wrap cap t ≡ t = ground arith in
        rw e (
          ap (window cap f t) (omega arith)
          ∙ (window-add cap f n (o - n) t (ground arith) (omega arith)
              ∙ ap (λ l. l ++ window cap f (wrap cap (t + n)) (o - n))
                  (sym (slice-eq-window cap f n t fits))))
    | inr at_end ↦
        let e : n ≡ 0 = ground arith in
        rw e (ap₂ (window cap f) (ap (wrap cap) (omega arith)) (omega arith))
  ]

  window_from_two_places :
      (n o t : ℕ)
      → 0 < cap
      → t ≤ cap
      → n ≤ o
      → o ≤ cap
      → cap < t + n
      → window cap f (wrap cap t) o
        ≡ (slice f t (cap - t) ++ slice f 0 (n - (cap - t)))
          ++ window cap f (wrap cap (n - (cap - t))) (o - n)
  window_from_two_places n o t pos tc some_left oc over =
      let k : ℕ = cap - t in
      let back : wrap cap (t + k) ≡ wrap cap 0 = ground arith in
      window_from_one_place k o t pos tc (omega arith) (omega arith)
      ∙ (ap (λ l. slice f t k ++ l)
            (ap (λ h. window cap f h (o - k)) back
              ∙ (window_from_one_place (n - k) (o - k) 0 pos (omega arith) (omega arith)
                    (omega arith)
                  ∙ ap (λ l. slice f 0 (n - k) ++ l)
                      (ap₂ (window cap f) (ap (wrap cap) (omega arith)) (omega arith))))
          ∙ sym (
              append_assoc (slice f t k) (slice f 0 (n - k))
                (window cap f (wrap cap (n - k)) (o - n))))

module _ (p : PaBuffer) (buf : List ℕ) (v : IsValid p)
    (fits : p.audio_occupancy + length buf ≤ p.audio_size) where
  copy_in-IsValid : IsValid (copy_in p buf)
  unfolding copy_in
  copy_in-IsValid = ground arith

  queued-copy_in : queued (copy_in p buf) ≡ queued p ++ buf
  unfolding copy_in
  queued-copy_in = elim (Bool-cases (leb (length buf) (p.audio_size - p.audio_eoq))) [
    | inl fits_there ↦ rw fits_there (
        window-one_place p.audio_size p.audio buf p.audio_occupancy (wrap p.audio_size p.audio_toq)
          p.audio_eoq (ground arith) v.eoq_in v.eoq_at fits (ground arith))
    | inr in_two ↦ rw in_two (
        window-two_places p.audio_size p.audio buf p.audio_occupancy (wrap p.audio_size p.audio_toq)
          p.audio_eoq (ground arith) v.eoq_in v.eoq_at fits (ground arith))
  ]

pub copy_out-IsValid :
    (p : PaBuffer) (n : ℕ) → IsValid p → n ≤ p.audio_occupancy → IsValid (copy_out p n).1
unfolding copy_out
copy_out-IsValid p n v h = ground arith

pub queued-copy_out :
    (p : PaBuffer) (n : ℕ)
    → IsValid p
    → n ≤ p.audio_occupancy
    → queued p ≡ (copy_out p n).0 ++ queued (copy_out p n).1
unfolding copy_out
queued-copy_out p n v h = elim (Bool-cases (leb n (p.audio_size - p.audio_toq))) [
  | inl there ↦ rw there (
      window_from_one_place p.audio_size p.audio n p.audio_occupancy p.audio_toq v.room v.toq_in h
        (ground arith))
  | inr in_two ↦ rw in_two (
      window_from_two_places p.audio_size p.audio n p.audio_occupancy p.audio_toq v.room v.toq_in h
        v.occupied (ground arith))
]

pub length-copy_out :
    (p : PaBuffer) (n : ℕ) → IsValid p → n ≤ p.audio_occupancy → length (copy_out p n).0 ≡ n
unfolding copy_out
length-copy_out p n v h = elim (Bool-cases (leb n (p.audio_size - p.audio_toq))) [
  | inl there ↦ rw there (length-slice p.audio p.audio_toq n)
  | inr in_two ↦
      let k : ℕ = p.audio_size - p.audio_toq in
      rw in_two (
        ground (
          arith,
          length-append (slice p.audio p.audio_toq k) (slice p.audio 0 (n - k)),
          length-slice p.audio p.audio_toq k,
          length-slice p.audio 0 (n - k),
        ))
]

-- With room for the bytes, `play` puts them behind those that wait, and keeps the buffer valid.
-- `flush` leaves a valid buffer in which nothing waits.
pub play_then_flush :
    (p : PaBuffer) (buf : List ℕ)
    → IsValid p
    → p.audio_occupancy + length buf ≤ p.audio_size
    → IsValid (play p buf)
      × (queued (play p buf) ≡ queued p ++ buf)
      × IsValid (flush p)
      × (queued (flush p) ≡ [])
unfolding play flush window
play_then_flush p buf v fits =
    let w = copy_in-IsValid p buf v fits in
    (
      record {
        room = w.room;
        toq_in = w.toq_in;
        eoq_in = w.eoq_in;
        occupied = w.occupied;
        eoq_at = w.eoq_at;
      },
      queued-copy_in p buf v fits,
      ground arith,
      refl,
    )

-- Without room for them, the bytes are put in all the same, and the count of bytes that wait is
-- more than the buffer holds.
pub play_overflows :
    (p : PaBuffer) (buf : List ℕ)
    → IsValid p
    → p.audio_size < p.audio_occupancy + length buf
    → ¬ (IsValid (play p buf)) × (p.audio_size < (play p buf).audio_occupancy)
unfolding play copy_in
play_overflows p buf v over =
    let more : p.audio_size < (play p buf).audio_occupancy = ground arith in
    let size : (play p buf).audio_size ≡ p.audio_size = ground arith in
    ((λ w. absurd (omega (arith, w.occupied, more, size))), more)
