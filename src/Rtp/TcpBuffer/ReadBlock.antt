-- ===== src/Rtp/TcpBuffer/ReadBlock.antt =====
-- The loop of `lread_sized_block`.
use mathlib.Core.List.{append_assoc}
use shairport_sync_for_openw.Prelude.{
  ℕ, zero, suc, ◌+◌, ◌-◌, ◌≤◌, ◌<◌, ◌≡◌, ap, ◌∙◌, refl, sym, true, false, lt→ltb, Option, none,
  some, List, [], ◌∷◌, ◌++◌, arith, length, length-append, ltb, Bool-cases, inl, inr,
}
use shairport_sync_for_openw.Rtp.TcpBuffer.{
  TcpBuffer, moved, failed, buffered_read, bytes_to_move, take_out, Block, full, read_block,
  lread_sized_block, is_transient, reader_waits,
}
use shairport_sync_for_openw.Window.{slice, length-slice}
use shairport_sync_for_openw.Rtp.TcpBuffer.Laws.{
  IsValid, contents, Moves, taken-Moves, buffered_read_of_pos, bytes_to_move_pos,
}

-- The result is a block of the missing bytes, taken from the front of the buffer.
pub record Gives (d : TcpBuffer) (inbuf : List ℕ) (missing : ℕ) (o : Option Block) : Type 0 where
  pub rest : List ℕ
  pub after : TcpBuffer
  pub result : o ≡ some (full (inbuf ++ rest) after)
  pub valid : IsValid after
  pub size : length rest ≡ missing
  pub split : contents d ≡ rest ++ contents after

module _ (fuel : ℕ) (d d' : TcpBuffer) (count r : ℕ) (inbuf : List ℕ) where
  read_block_more :
      (ys : List ℕ)
      → buffered_read d (count - length inbuf) ≡ moved ys r d'
      → 0 < length ys
      → ltb (length (inbuf ++ ys)) count ≡ true
      → read_block (suc fuel) d count inbuf ≡ read_block fuel d' count (inbuf ++ ys)
  unfolding read_block
  read_block_more [] e h t = absurd (omega arith)
  read_block_more (y ∷ ys) e h t = rw (e, read_block) (rw t)

  read_block_done :
      (ys : List ℕ)
      → buffered_read d (count - length inbuf) ≡ moved ys r d'
      → 0 < length ys
      → ltb (length (inbuf ++ ys)) count ≡ false
      → read_block (suc fuel) d count inbuf ≡ some (full (inbuf ++ ys) d')
  unfolding read_block
  read_block_done [] e h t = absurd (omega arith)
  read_block_done (y ∷ ys) e h t = rw (e, read_block) (rw t)

read_block-Gives :
    (fuel : ℕ) (d : TcpBuffer) (count : ℕ) (inbuf : List ℕ)
    → IsValid d
    → length inbuf < count
    → count ≤ length inbuf + d.buffer_occupancy
    → count ≤ length inbuf + fuel
    → Gives d inbuf (count - length inbuf) (read_block fuel d count inbuf)
read_block-Gives zero d count inbuf v h k f = absurd (omega arith)
read_block-Gives (suc fuel) d count inbuf v h k f =
    elim (Bool-cases (ltb (length (inbuf ++ xs)) count)) [
      | inl t ↦
          let g : Gives d' (inbuf ++ xs) (count - length (inbuf ++ xs))
              (read_block fuel d' count (inbuf ++ xs)) =
            read_block-Gives fuel d' count (inbuf ++ xs) m.valid (ground arith)
              (omega (arith, l, m.taken)) (omega (arith, l, some_xs)) in
          record {
            rest = xs ++ g.rest;
            after = g.after;
            result =
                read_block_more fuel d d' count r inbuf xs e some_xs t
                ∙ (g.result ∙ ap (λ z. some (full z g.after)) (append_assoc inbuf xs g.rest));
            valid = g.valid;
            size = omega (arith, length-append xs g.rest, g.size, l, m.at_most);
            split =
                m.split
                ∙ (ap (λ z. xs ++ z) g.split ∙ sym (append_assoc xs g.rest (contents g.after)));
          }
      | inr t ↦ record {
        rest = xs;
        after = d';
        result = read_block_done fuel d d' count r inbuf xs e some_xs t;
        valid = m.valid;
        size = ground (arith, l, m.at_most);
        split = m.split;
      }
    ]
  where
    n : ℕ
    n = bytes_to_move d (count - length inbuf)

    xs : List ℕ
    xs = slice d.buffer d.toq n

    d' : TcpBuffer
    d' = take_out d n

    r : ℕ
    r = d.buffer_occupancy - n

    m : Moves d (count - length inbuf) xs r d'
    m = taken-Moves d (count - length inbuf) v

    e : buffered_read d (count - length inbuf) ≡ moved xs r d'
    e = buffered_read_of_pos d (count - length inbuf) (omega arith)

    l : length (inbuf ++ xs) ≡ length inbuf + length xs
    l = length-append inbuf xs

    some_xs : 0 < length xs
    some_xs = omega (
      arith,
      length-slice d.buffer d.toq n,
      bytes_to_move_pos d (count - length inbuf) v (omega arith) (omega arith),
    )

-- With the whole block in the buffer and fuel for each of its bytes, `lread_sized_block` returns
-- exactly the next `count` bytes, without waiting, and leaves the others.
pub lread_sized_block-Gives :
    (fuel : ℕ) (d : TcpBuffer) (count : ℕ)
    → IsValid d
    → 0 < count
    → count ≤ d.buffer_occupancy
    → count ≤ fuel
    → Gives d [] count (lread_sized_block fuel d count)
unfolding lread_sized_block
lread_sized_block-Gives fuel d count v h k f =
    let e : count - 0 ≡ count = omega arith in
    rw e at (read_block-Gives fuel d count [] v h (omega arith) (omega arith))

read_block_spins :
    (fuel : ℕ) (d : TcpBuffer) (count : ℕ) (inbuf : List ℕ)
    → buffered_read d (count - length inbuf) ≡ failed d.error_code
    → is_transient d.error_code ≡ true
    → length inbuf < count
    → read_block fuel d count inbuf ≡ none
unfolding read_block
read_block_spins zero d count inbuf e t h = refl
read_block_spins (suc fuel) d count inbuf e t h =
    rw (e, read_block) (rw (t, lt→ltb _ _ h) (read_block_spins fuel d count inbuf e t h))

-- An error that the loop takes for transient stays in the descriptor, since the reader waits while
-- it is set: with an empty buffer the loop never returns, however long it runs.
pub lread_sized_block_spins :
    (fuel : ℕ) (d : TcpBuffer) (count : ℕ)
    → 0 < count
    → d.buffer_occupancy ≡ 0
    → is_transient d.error_code ≡ true
    → (lread_sized_block fuel d count ≡ none) × (reader_waits d ≡ true)
unfolding lread_sized_block buffered_read reader_waits
lread_sized_block_spins fuel d count h o t =
    (read_block_spins fuel d count [] (ground arith) t h, ground arith)
