-- ===== src/Array.antt =====
-- array.h: a growable array of items behind a `void *`.
pub mod Laws
mod Tests
use malincam.Prelude.{
  ℕ, ◌+◌, ◌-◌, ◌*◌, ◌/◌, ◌≤◌, ◌<◌, ◌≡◌, Bool, ◌&&◌, Option, none, some, List, [], ◌++◌, ltb, leb,
  ◌==◌, if◌then◌else◌, length, set, take, drop, replicate,
}
use malincam.Prelude.Outcome.{Outcome, done, fault, ◌>>=◌}

-- `void *data`: NULL, a live block of slots, or a pointer to a block that was freed. A slot that
-- was never written is `none`.
pub data Block {ℓ} (A : Type ℓ) : Type ℓ where
  null : Block A
  live : List (Option A) → Block A
  freed : Block A

pub record Array {ℓ} (A : Type ℓ) : Type ℓ where
  pub block : Block A
  pub size : ℕ
  pub capacity : ℕ
  pub item_size : ℕ

module _ {ℓ} {A : Type ℓ} where
  -- `arrayInit`, with `sizeof(T)` as its argument.
  unfoldable pub init : ℕ → Array A
  init item_size = record { block = null; size = 0; capacity = 0; item_size = item_size }

  -- `arrayResize`, which only ever empties the array.
  unfoldable pub resize : Array A → Array A
  resize a = record a { size = 0 }

  -- `malloc` of `n` slots, then `memcpy` of the first `size` of the old ones and `free`. Following
  -- a freed pointer is a fault.
  abbrev pub reallocate : ℕ → ℕ → Block A → Outcome (Block A)
  reallocate n size null = done (live (replicate n none))
  reallocate n size (live slots) = done (live (take size slots ++ replicate (n - size) none))
  reallocate n size freed = fault

  -- `arrayReserve`. Allocation is taken to succeed, as the source takes it.
  unfoldable pub reserve : Array A → ℕ → Outcome (Array A)
  reserve a capacity = if leb capacity a.capacity then done a else do
    block ← reallocate capacity a.size a.block
    done (record a { block = block; capacity = capacity })

  -- The capacity that `arrayAppend` asks for when the array is full.
  unfoldable pub grown : Array A → ℕ
  grown a =
      let new_capacity =
        if a.capacity == 0 then (16 + a.item_size - 1) / a.item_size else a.capacity * 3 / 2 in
      if ltb a.capacity new_capacity then new_capacity else a.capacity + 1

  -- The growth of `arrayAppend`; the first divides by the size of an item.
  unfoldable pub grow : Array A → Outcome (Array A)
  unfolding reserve grown
  grow a = if a.capacity == 0 && a.item_size == 0 then fault else reserve a (grown a)

  -- `memcpy` of one item, if there is one, to the slot behind the last.
  abbrev pub store : Block A → ℕ → Option A → Outcome (Block A)
  store b i none = done b
  store null i (some x) = fault
  store (live slots) i (some x) =
      if ltb i (length slots) then done (live (set slots i (some x))) else fault
  store freed i (some x) = fault

  -- `arrayAppend`: the index of the new item, and the array.
  unfoldable pub append : Array A → Option A → Outcome (ℕ × Array A)
  unfolding grow
  append a item = do
    b ← if a.size == a.capacity then grow a else done a
    block ← store b.block b.size item
    done (b.size, record b { block = block; size = b.size + 1 })

  -- `arrayDestroy`: the pointer is freed and stays as it is.
  abbrev pub release : Block A → Outcome (Block A)
  release null = done null
  release (live slots) = done freed
  release freed = fault

  unfoldable pub destroy : Array A → Outcome (Array A)
  destroy a = do block ← release a.block; done (record a { block = block; size = 0; capacity = 0 })
