-- ===== src/Array/Laws.antt =====
-- What array.h promises: appending and reserving keep the items and never leave the block.
use malincam.Prelude.{
  ◌&&◌, false, ℕ, ◌+◌, ◌-◌, ◌≤◌, ◌<◌, ◌≡◌, refl, Option, none, some, List, [], ◌∷◌, ◌++◌, arith,
  length, set, take, replicate, length-append, length-set, length-take, length-replicate,
  take-set_end, take-take_append, leb, ◌==◌, Bool-cases, inl, inr, zero, suc, ◌≢◌, if◌then◌else◌,
  ap, ◌∙◌,
}
use malincam.Prelude.Outcome.{done, fault}
use malincam.Array.{
  Block, null, live, freed, Array, reserve, grown, grow, append, destroy, reallocate, store,
}

unsized : (n size : ℕ) → 0 < size → ((n == 0) && (size == 0)) ≡ false
unsized n size sized = ground arith

module _ {ℓ} {A : Type ℓ} where
  -- The block has one slot for each unit of capacity.
  abbrev pub Holds : Block A → ℕ → Type 0
  Holds null n = n ≡ 0
  Holds (live slots) n = length slots ≡ n
  Holds freed n = ⊥

  abbrev pub IsValid : Array A → Type 0
  IsValid a = Holds a.block a.capacity × (a.size ≤ a.capacity) × (0 < a.item_size)

  abbrev pub slots_of : Block A → List (Option A)
  slots_of null = []
  slots_of (live slots) = slots
  slots_of freed = []

  -- The items in use.
  abbrev pub items : Array A → List (Option A)
  items a = take a.size (slots_of a.block)

  reallocate_lem :
      (n size capacity : ℕ) (b : Block A)
      → Holds b capacity
      → size ≤ capacity
      → capacity < n
      → (c : Block A) × (reallocate n size b ≡ done c)
        × Holds c n
        × (take size (slots_of c) ≡ take size (slots_of b))
  reallocate_lem n zero capacity null h s lt =
      (live (replicate n none), refl, length-replicate n none, refl)
  reallocate_lem n (suc size) capacity null h s lt = absurd (omega arith)
  reallocate_lem n size capacity (live slots) h s lt = (
    live (take size slots ++ replicate (n - size) none),
    refl,
    omega (
      arith,
      length-append (take size slots) (replicate (n - size) none),
      length-take size slots,
      length-replicate {A = Option A} (n - size) none,
    ),
    take-take_append size slots (replicate (n - size) none) (omega arith),
  )
  reallocate_lem n size capacity freed h s lt = absurd h

  grown-gt : (a : Array A) → a.capacity < grown a
  unfolding grown
  grown-gt a = ground arith

  -- `arrayReserve` on a valid array returns, keeps the array valid and every item in place, never
  -- shrinks the capacity, and gives room for at least `n` items.
  pub reserve_lem :
      (a : Array A) (n : ℕ)
      → IsValid a
      → (b : Array A) × (reserve a n ≡ done b)
        × IsValid b
        × (items b ≡ items a)
        × (b.size ≡ a.size)
        × (n ≤ b.capacity)
        × (a.capacity ≤ b.capacity)
  unfolding reserve
  reserve_lem a n v = elim (Bool-cases (leb n a.capacity)) [
    | inl fits ↦ (a, rw fits, v, refl, refl, ground arith, omega arith)
    | inr more ↦
        let (block, runs, holds, same) =
          reallocate_lem n a.size a.capacity a.block v.0 v.1 (ground arith) in
        (
          record a { block = block; capacity = n },
          rw (more, runs),
          (holds, ground arith, v.2),
          same,
          refl,
          ground arith,
          ground arith,
        )
  ]

  store_lem :
      (b : Block A) (size capacity : ℕ) (x : A)
      → Holds b capacity
      → size < capacity
      → (c : Block A) × (store b size (some x) ≡ done c)
        × Holds c capacity
        × (take (suc size) (slots_of c) ≡ take size (slots_of b) ++ some x ∷ [])
  store_lem null size capacity x h lt = absurd (omega arith)
  store_lem (live slots) size capacity x h lt = (
    live (set slots size (some x)),
    ground arith,
    omega (arith, length-set slots size (some x)),
    take-set_end size slots (some x) (omega arith),
  )
  store_lem freed size capacity x h lt = absurd h

  grow-reserve : (a : Array A) → 0 < a.item_size → grow a ≡ reserve a (grown a)
  unfolding grow
  grow-reserve a sized = rw (unsized a.capacity a.item_size sized) refl

  make_room :
      (a : Array A)
      → IsValid a
      → (b : Array A) × ((if a.size == a.capacity then grow a else done a) ≡ done b)
        × IsValid b
        × (items b ≡ items a)
        × (b.size ≡ a.size)
        × (b.size < b.capacity)
  make_room a v = elim (Bool-cases (a.size == a.capacity)) [
    | inl full ↦
        let (b, runs, valid, same, size, room, wider) = reserve_lem a (grown a) v in
        (b, rw (full, grow-reserve a v.2) runs, valid, same, size, ground (arith, grown-gt a))
    | inr free ↦ (a, rw free, v, refl, refl, ground arith)
  ]

  -- `arrayAppend` of an item to a valid array, full or not, returns the old size, writes inside the
  -- block, keeps the array valid, and leaves the old items followed by the new one.
  pub append_lem :
      (a : Array A) (x : A)
      → IsValid a
      → (b : Array A) × (append a (some x) ≡ done (a.size, b))
        × IsValid b
        × (items b ≡ items a ++ some x ∷ [])
        × (b.size ≡ a.size + 1)
  unfolding append
  append_lem a x v =
      let (b, room, valid, same, size, lt) = make_room a v in
      let (block, stored, holds, ends) = store_lem b.block b.size b.capacity x valid.0 lt in
      (
        record b { block = block; size = b.size + 1 },
        rw (room, stored, size),
        (holds, omega arith, valid.2),
        ap (λ k. take k (slots_of block)) {y = suc b.size} (omega arith)
            ∙ (ends ∙ ap (λ l. l ++ some x ∷ []) same),
        omega arith,
      )

  -- Once it has returned, `arrayDestroy` leaves a pointer to the freed block: a second
  -- `arrayDestroy` of an array that had a block frees it again, and so does an `arrayReserve` that
  -- has to grow.
  pub destroy-freed :
      (a b : Array A) (n : ℕ)
      → a.block ≢ null
      → destroy a ≡ done b
      → (destroy b ≡ fault) × (reserve b (suc n) ≡ fault)
  unfolding destroy reserve
  destroy-freed a b n h e = ground arith
