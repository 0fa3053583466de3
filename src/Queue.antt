-- ===== src/Queue.antt =====
-- queue.c and queue.h: a first-in first-out queue in a ring buffer of fixed capacity.
pub mod Laws
pub mod Full
mod Tests
use malincam.Prelude.{
  ℕ, ℤ, pos, ◌+◌, ◌-◌, ◌%◌, ◌≡◌, Bool, Option, none, some, List, ltb, ◌==◌, if◌then◌else◌, length,
  set, get_elem?,
}
use malincam.Prelude.Outcome.{Outcome, done, fault, ◌>>=◌}
use malincam.Abi.{enomem}
use malincam.Array
use malincam.Array.{Array, Block, null, live, freed}

pub record Queue {ℓ} (A : Type ℓ) : Type ℓ where
  pub array : Array A
  pub front : ℕ

module _ {ℓ} {A : Type ℓ} where
  -- `queueInit`
  unfoldable pub init : ℕ → ℕ → Outcome (Queue A)
  init item_size max_count = do
    array ←
        Array.reserve (record { block = null; size = 0; capacity = 0; item_size = item_size })
          max_count
    done (record { array = array; front = 0 })

  -- `queueFinalize`
  unfoldable pub finalize : Queue A → Outcome (Queue A)
  finalize q = do array ← Array.destroy q.array; done (record q { array = array })

  -- `queueGetSize`
  unfoldable pub get_size : Queue A → ℕ
  get_size q = q.array.size

  -- `queueGetFree`
  unfoldable pub get_free : Queue A → ℕ
  get_free q = q.array.capacity - q.array.size

  -- `memcpy` of an item to a slot, and the read of one.
  abbrev pub write_slot : Block A → ℕ → A → Outcome (Block A)
  write_slot null i x = fault
  write_slot (live slots) i x =
      if ltb i (length slots) then done (live (set slots i (some x))) else fault
  write_slot freed i x = fault

  -- `none` where the slot lies outside the block or was never written.
  abbrev pub read_slot : Block A → ℕ → Option A
  read_slot null i = none
  read_slot (live slots) i = elim (get_elem? slots i) [ none ↦ none | some x ↦ x ]
  read_slot freed i = none

  -- `queuePush`: what it returns, and the queue.
  unfoldable pub push : Queue A → A → Outcome (ℤ × Queue A)
  push q item = if q.array.size == q.array.capacity then done (pos enomem, q) else do
    let slot = (q.front + q.array.size) % q.array.capacity
    block ← write_slot q.array.block slot item
    let size = q.array.size + 1
    done (pos size, record q { array = record q.array { block = block; size = size } })

  -- `queuePop`: the index of the slot that the returned pointer shows (`none` is NULL), and the
  -- queue. It moves `front` and leaves the size as it is.
  unfoldable pub pop : Queue A → Option ℕ × Queue A
  pop q =
      if q.array.size == 0
      then (none, q)
      else (some q.front, record q { front = (q.front + 1) % q.array.capacity })

  -- `queuePeek`: the index of the slot that the returned pointer shows.
  unfoldable pub peek : Queue A → Option ℕ
  peek q = if q.array.size == 0 then none else some q.front
