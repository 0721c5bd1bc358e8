-- ===== src/Audio/Pa.antt =====
-- The buffer of src/audio_pa.c between the player and PulseAudio: `play` puts bytes in, and
-- `stream_write_cb` takes them out. Pointers are offsets from `audio_lmb`. The library's calls in
-- the callback are replies that it gives.
pub mod Laws
pub mod Callback
mod Tests
use shairport_sync_for_openw.Prelude.{
  ℕ, zero, suc, ◌+◌, ◌-◌, ◌*◌, ◌/◌, Bool, true, false, ◌&&◌, Option, none, some, List, [], ◌∷◌,
  ◌++◌, ltb, leb, ◌==◌, if◌then◌else◌, length, take, drop,
}
use shairport_sync_for_openw.Window.{store, slice}

pub record PaBuffer : Type 0 where
  pub audio : ℕ → ℕ
  pub audio_size : ℕ
  pub audio_toq : ℕ
  pub audio_eoq : ℕ
  pub audio_occupancy : ℕ
  pub corked : Bool

abbrev pub start_level : ℕ
start_level = 11025 * 2 * 2

-- The bytes are copied in, in two places if they do not fit before the end of the buffer.
pub copy_in : PaBuffer → List ℕ → PaBuffer
copy_in p buf =
    let space_to_end_of_buffer = p.audio_size - p.audio_eoq in
    if leb (length buf) space_to_end_of_buffer
    then record p {
      audio = store p.audio p.audio_eoq buf;
      audio_eoq = p.audio_eoq + length buf;
      audio_occupancy = p.audio_occupancy + length buf;
    }
    else record p {
      audio =
          store (store p.audio p.audio_eoq (take space_to_end_of_buffer buf)) 0
            (drop space_to_end_of_buffer buf);
      audio_eoq = length buf - space_to_end_of_buffer;
      audio_occupancy = p.audio_occupancy + length buf;
    }

pub play : PaBuffer → List ℕ → PaBuffer
play p buf =
    let p' = copy_in p buf in
    record p' {
      corked = if leb start_level p'.audio_occupancy && p'.corked then false else p'.corked;
    }

-- `flush` and `stop` do the same.
pub flush : PaBuffer → PaBuffer
flush p = record p { audio_toq = 0; audio_eoq = 0; audio_occupancy = 0; corked = true }

-- The next `n` bytes, and the buffer after them.
pub copy_out : PaBuffer → ℕ → List ℕ × PaBuffer
copy_out p n =
    let first_portion_to_write = p.audio_size - p.audio_toq in
    if leb n first_portion_to_write
    then (
      slice p.audio p.audio_toq n,
      record p { audio_toq = p.audio_toq + n; audio_occupancy = p.audio_occupancy - n },
    )
    else (
      slice p.audio p.audio_toq first_portion_to_write
          ++ slice p.audio 0 (n - first_portion_to_write),
      record p { audio_toq = n - first_portion_to_write; audio_occupancy = p.audio_occupancy - n },
    )

-- What the library replies in one round: `pa_stream_begin_write` fails, gives no memory, or gives
-- room for so many bytes, and then says if `pa_stream_write` succeeds.
pub data Reply : Type 0 where
  begin_fails : Reply
  no_memory : Reply
  room : ℕ → Bool → Reply

-- The bytes to ask for, and the buffer, which is corked if there are too few.
pub ask : PaBuffer → ℕ → ℕ × PaBuffer
ask p bytes_to_transfer =
    if ltb p.audio_occupancy bytes_to_transfer
    then (p.audio_occupancy, record p { corked = true })
    else (bytes_to_transfer, p)

-- How the callback ends: the bytes that were handed over, those still wanted, and if it failed.
pub record Written : Type 0 where
  pub bytes : List ℕ
  pub wanted : ℕ
  pub failed : Bool
  pub after : PaBuffer

-- The loop, on fuel. The library sees the number that is asked for, and the round.
pub write_loop : ℕ → (ℕ → ℕ → Reply) → List ℕ → ℕ → PaBuffer → Option Written
write_loop zero replies done wanted p = none
write_loop (suc fuel) replies done wanted p =
    let p' = (ask p wanted).1 in
    let rest : Option Written = elim (replies fuel (ask p wanted).0) [
      | begin_fails ↦ some (record { bytes = done; wanted = wanted; failed = true; after = p' })
      | no_memory ↦ write_loop fuel replies done wanted p'
      | room n true ↦
          write_loop fuel replies (done ++ (copy_out p' n).0) (wanted - n) (copy_out p' n).1
      | room n false ↦ some (record {
        bytes = done ++ (copy_out p' n).0;
        wanted = wanted - n;
        failed = true;
        after = (copy_out p' n).1;
      })
    ] in
    if ltb 0 wanted && ltb 0 p.audio_occupancy
    then rest
    else some (record { bytes = done; wanted = wanted; failed = false; after = p })

pub stream_write_cb : ℕ → (ℕ → ℕ → Reply) → ℕ → PaBuffer → Option Written
stream_write_cb fuel replies requested_bytes p = write_loop fuel replies [] requested_bytes p
