-- ===== src/Rtp/TcpBuffer/Laws.antt =====
-- The ring's invariant, and the bytes that it holds.
use mathlib.Core.List.{append-nil}
use shairport_sync_for_openw.Prelude.{
  ℕ, ◌+◌, ◌-◌, ◌≤◌, ◌<◌, ◌≡◌, inl, inr, ap, ◌∙◌, refl, true, some, List, [], ◌∷◌, ◌++◌, arith, ltb,
  ◌==◌, if◌then◌else◌, length, Bool-cases, sym,
}
use shairport_sync_for_openw.Window.{
  wrap, window, slice, length-slice, window-store, window-add, slice-eq-window,
}
use shairport_sync_for_openw.Rtp.TcpBuffer.{
  TcpBuffer, moved, bytes_to_move, take_out, buffered_read, request, reader_waits, error, bytes,
  received, standard_packet_size,
}

pub record IsValid (d : TcpBuffer) : Type 0 where
  pub toq_in : d.toq < d.buffer_max_size
  pub eoq_in : d.eoq ≤ d.buffer_max_size
  pub occupied : d.buffer_occupancy ≤ d.buffer_max_size
  pub eoq_at :
      (if d.eoq == d.buffer_max_size then 0 else d.eoq)
      ≡ wrap d.buffer_max_size (d.toq + d.buffer_occupancy)

abbrev pub contents : TcpBuffer → List ℕ
contents d = window d.buffer_max_size d.buffer d.toq d.buffer_occupancy

-- A request that is under way fits the free bytes, and ends before the top of the ring.
abbrev pub Fits : TcpBuffer → ℕ → Type 0
Fits d k = (d.eoq + k ≤ d.buffer_max_size) × (d.buffer_occupancy + k ≤ d.buffer_max_size)

pub take_out-IsValid :
    (d : TcpBuffer) (n : ℕ)
    → IsValid d
    → n ≤ d.buffer_occupancy
    → d.toq + n ≤ d.buffer_max_size
    → IsValid (take_out d n)
unfolding take_out
take_out-IsValid d n v h k = ground arith

pub contents-take_out :
    (d : TcpBuffer) (n : ℕ)
    → IsValid d
    → n ≤ d.buffer_occupancy
    → d.toq + n ≤ d.buffer_max_size
    → contents d ≡ slice d.buffer d.toq n ++ contents (take_out d n)
unfolding take_out
contents-take_out d n v h k =
    let m : ℕ = d.buffer_max_size in
    let e : d.buffer_occupancy ≡ n + (d.buffer_occupancy - n) = omega arith in
    let w : wrap m (d.toq + n) ≡ (if d.toq + n == m then 0 else d.toq + n) = ground arith in
    ap (window m d.buffer d.toq) e
    ∙ (window-add m d.buffer n (d.buffer_occupancy - n) d.toq v.toq_in (omega arith)
        ∙ (ap (λ l. l ++ window m d.buffer (wrap m (d.toq + n)) (d.buffer_occupancy - n))
              (sym (slice-eq-window m d.buffer n d.toq k))
            ∙ ap (λ h. slice d.buffer d.toq n ++ window m d.buffer h (d.buffer_occupancy - n)) w))

bytes_to_move_bounds :
    (d : TcpBuffer) (count : ℕ)
    → IsValid d
    → (bytes_to_move d count ≤ count)
      × (bytes_to_move d count ≤ d.buffer_occupancy)
      × (d.toq + bytes_to_move d count ≤ d.buffer_max_size)
unfolding bytes_to_move
bytes_to_move_bounds d count v = ground arith

pub bytes_to_move_pos :
    (d : TcpBuffer) (count : ℕ)
    → IsValid d
    → 0 < count
    → 0 < d.buffer_occupancy
    → 0 < bytes_to_move d count
unfolding bytes_to_move
bytes_to_move_pos d count v h k = ground arith

-- What a read that moves bytes does.
pub record Moves (d : TcpBuffer) (count : ℕ) (xs : List ℕ) (remaining : ℕ) (d' : TcpBuffer)
    : Type 0 where
  pub valid : IsValid d'
  pub split : contents d ≡ xs ++ contents d'
  pub at_most : length xs ≤ count
  pub left : remaining ≡ d'.buffer_occupancy
  pub taken : d.buffer_occupancy ≡ length xs + d'.buffer_occupancy
  pub same_eoq : d'.eoq ≡ d.eoq
  pub same_size : d'.buffer_max_size ≡ d.buffer_max_size

pub buffered_read_of_pos :
    (d : TcpBuffer) (count : ℕ)
    → 0 < d.buffer_occupancy
    → buffered_read d count
      ≡ moved
          (slice d.buffer d.toq (bytes_to_move d count))
          (d.buffer_occupancy - bytes_to_move d count)
          (take_out d (bytes_to_move d count))
unfolding buffered_read
buffered_read_of_pos d count h = ground arith

pub taken-Moves :
    (d : TcpBuffer) (count : ℕ)
    → IsValid d
    → Moves d count
        (slice d.buffer d.toq (bytes_to_move d count))
        (d.buffer_occupancy - bytes_to_move d count)
        (take_out d (bytes_to_move d count))
taken-Moves d count v =
    let n : ℕ = bytes_to_move d count in
    let b = bytes_to_move_bounds d count v in
    record {
      valid = take_out-IsValid d n v b.1 b.2;
      split = contents-take_out d n v b.1 b.2;
      at_most = omega (arith, length-slice d.buffer d.toq n);
      left = unfold take_out in refl;
      taken = unfold take_out in omega (arith, length-slice d.buffer d.toq n);
      same_eoq = unfold take_out in refl;
      same_size = unfold take_out in refl;
    }

moved-injective :
    {xs ys : List ℕ} {r s : ℕ} {d e : TcpBuffer}
    → moved xs r d ≡ moved ys s e
    → (xs ≡ ys) × (r ≡ s) × (d ≡ e)
moved-injective h = ground arith

-- Whenever `buffered_read` moves bytes out, they are the oldest ones, in order.
pub buffered_read-Moves :
    (d : TcpBuffer) (count : ℕ) (xs : List ℕ) (r : ℕ) (d' : TcpBuffer)
    → IsValid d
    → buffered_read d count ≡ moved xs r d'
    → Moves d count xs r d'
buffered_read-Moves d count xs r d' v h = elim (Bool-cases (ltb 0 d.buffer_occupancy)) [
  | inl p ↦
      let e = moved-injective (sym (buffered_read_of_pos d count (ground arith)) ∙ h) in
      rw (← e.0, ← e.1, ← e.2) (taken-Moves d count v)
  | inr p ↦ absurd (unfold buffered_read in ground arith)
]

-- A request that the reader makes is for at least one byte, and fits.
pub request_lem :
    (d d' : TcpBuffer) (k : ℕ)
    → IsValid d
    → request d ≡ some (d', k)
    → IsValid d' × Fits d' k × (0 < k) × (k ≤ standard_packet_size) × (contents d' ≡ contents d)
unfolding request reader_waits
request_lem d d' k v h = ground arith

pub received-IsValid_of_error :
    (d : TcpBuffer) (errno : ℕ) → IsValid d → IsValid (received d (error errno))
unfolding received
received-IsValid_of_error d errno v = ground arith

closed-IsValid : (d : TcpBuffer) → IsValid d → IsValid (record d { closed = true })
closed-IsValid d v = ground arith

-- Bytes that arrive within a request go behind the others; nothing else is lost or changed.
pub received-bytes :
    (d : TcpBuffer) (xs : List ℕ)
    → IsValid d
    → Fits d (length xs)
    → IsValid (received d (bytes xs)) × (contents (received d (bytes xs)) ≡ contents d ++ xs)
unfolding received
received-bytes d [] v h = (closed-IsValid d v, sym (append-nil (contents d)))
received-bytes d (x ∷ xs) v h = (
  ground arith,
  window-store d.buffer_max_size (x ∷ xs) d.buffer d.buffer_occupancy d.toq d.eoq v.toq_in h.1 h.0
      (λ p. ground arith),
)
