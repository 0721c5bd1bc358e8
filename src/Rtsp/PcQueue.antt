-- ===== src/Rtsp/PcQueue.antt =====
-- The metadata queue of src/rtsp.c: `pc_queue_init`, `pc_queue_add_item`, `pc_queue_get_item`.
-- The mutex makes each operation one step; a wait on a condition variable is the result `wait`.
pub mod Laws
pub mod Fifo
mod Tests
use shairport_sync_for_openw.Prelude.{
  ℕ, ◌+◌, ◌-◌, Bool, true, false, ◌&&◌, not, Option, none, some, ltb, ◌==◌, if◌then◌else◌, u32,
  update,
}

pub data Response : Type 0 where
  ok ebusy ewouldblock : Response

-- `pc_queue`. The storage is a function of the slot's index; `count` is unsigned.
pub record PcQueue {ℓ} (A : Type ℓ) : Type ℓ where
  pub items : ℕ → A
  pub count : ℕ
  pub capacity : ℕ
  pub toq : ℕ
  pub eoq : ℕ

-- What `pc_queue_get_item` comes to: a NULL queue gives nothing back, and an empty one waits.
pub data Taken {ℓ} (A : Type ℓ) : Type ℓ where
  null wait : Taken A
  got : A → PcQueue A → Taken A

-- Moves an index on, folding it at the capacity.
abbrev pub fold : ℕ → ℕ → ℕ
fold capacity i = let i' = u32 (i + 1) in if i' == capacity then 0 else i'

module _ {ℓ} {A : Type ℓ} where
  pub init : (ℕ → A) → ℕ → PcQueue A
  init items number_of_items = record {
    items = items;
    count = 0;
    capacity = number_of_items;
    toq = 0;
    eoq = 0;
  }

  pub append_item : PcQueue A → A → PcQueue A
  append_item q stuff = record q {
    items = update q.items q.eoq stuff;
    eoq = fold q.capacity q.eoq;
    count = u32 (q.count + 1);
  }

  -- `busy` says that the timed lock, which is tried if `block` is false, gave up.
  pub add_item : Option (PcQueue A) → A → Bool → Bool → Response × Option (PcQueue A)
  add_item none stuff block busy = (ok, none)
  add_item (some q) stuff block busy =
      if not block && busy
      then (ebusy, some q)
      else if ltb q.count q.capacity
      then (ok, some (append_item q stuff))
      else (ewouldblock, some q)

  pub remove_item : PcQueue A → PcQueue A
  remove_item q = record q { toq = fold q.capacity q.toq; count = q.count - 1 }

  pub get_item : Option (PcQueue A) → Taken A
  get_item none = null
  get_item (some q) = if q.count == 0 then wait else got (q.items q.toq) (remove_item q)
