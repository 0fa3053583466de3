-- ===== src/Queue/Laws.antt =====
-- What queue.c does, against a plain bounded queue: the items from `front` on, round the ring.
use malincam.Prelude.{
  ℕ, pos, zero, suc, ◌+◌, ◌-◌, ◌%◌, ◌≤◌, ◌<◌, ◌≡◌, refl, sym, ap, ap₂, ◌∙◌, ◌≢◌, Option, none, some,
  List, [], ◌∷◌, ◌++◌, arith, length, set, get_or, get_or-set_self, get_or-set_ne, length-set,
  false, ◌==◌,
}
use native.Mathlib.Nat.{mod-add-mod, mod-eq_of_lt, mod-eq-sub-mod, add-zero}
use native.Mathlib.Decide.{dec_lt}
use malincam.Prelude.Outcome.{done}
use malincam.Abi.{enomem}
use malincam.Array.{Block, null, live, freed}
use malincam.Queue.{Queue, write_slot, push, pop}

-- Fewer than `capacity` steps round the ring do not come back to the start.
mod-ne : (capacity h k : ℕ) → h < capacity → suc k < capacity → (h + suc k) % capacity ≢ h
mod-ne capacity h k hh hk = elim (dec_lt (h + suc k) capacity) [
  | yes p ↦ omega (arith, mod-eq_of_lt p)
  | no p ↦ omega (
    arith,
    mod-eq-sub-mod {n = h + suc k} {m = capacity} (omega arith),
    mod-eq_of_lt {n = h + suc k - capacity} {m = capacity} (omega arith),
  )
]

step-shift : (capacity h n : ℕ) → (h + suc n) % capacity ≡ ((h + 1) % capacity + n) % capacity
step-shift capacity h n = rw mod-add-mod (ap (λ k. k % capacity) (omega arith))

module _ {ℓ} {A : Type ℓ} where
  abbrev pub slots_of : Block A → List (Option A)
  slots_of null = []
  slots_of (live slots) = slots
  slots_of freed = []

  -- The block is live with a slot for each unit of capacity, and `front` lies inside it.
  abbrev pub Holds : Block A → ℕ → Type 0
  Holds null n = ⊥
  Holds (live slots) n = length slots ≡ n
  Holds freed n = ⊥

  abbrev pub IsValid : Queue A → Type 0
  IsValid q =
      Holds q.array.block q.array.capacity
      × (q.array.size ≤ q.array.capacity)
      × (q.front < q.array.capacity)

  -- The `n` slots from index `h` on, going round at `capacity`.
  abbrev pub window : List (Option A) → ℕ → ℕ → ℕ → List (Option A)
  window slots capacity h zero = []
  window slots capacity h (suc n) =
      get_or slots h none ∷ window slots capacity ((h + 1) % capacity) n

  abbrev pub contents : Queue A → List (Option A)
  contents q = window (slots_of q.array.block) q.array.capacity q.front q.array.size

  -- Writing the slot just past a window extends the window by that item.
  window-set :
      (slots : List (Option A)) (capacity : ℕ) (x : Option A) (n h i : ℕ)
      → capacity ≤ length slots
      → h < capacity
      → n < capacity
      → i ≡ (h + n) % capacity
      → window (set slots i x) capacity h (suc n) ≡ window slots capacity h n ++ x ∷ []
  window-set slots capacity x zero h i hs hh hn e =
      rw (e, add-zero, mod-eq_of_lt hh, get_or-set_self slots h x none (omega arith))
  window-set slots capacity x (suc n) h i hs hh hn e =
      ap₂ ◌∷◌ (get_or-set_ne slots x none (rw e (mod-ne capacity h n hh hn))) (
        window-set slots capacity x n ((h + 1) % capacity) i hs (omega arith) (omega arith)
          (e ∙ step-shift capacity h n))

  -- A window one longer ends in the slot it reaches.
  window-snoc :
      (slots : List (Option A)) (capacity n h : ℕ)
      → h < capacity
      → window slots capacity h (suc n)
        ≡ window slots capacity h n ++ get_or slots ((h + n) % capacity) none ∷ []
  window-snoc slots capacity zero h hh = rw (add-zero, mod-eq_of_lt hh)
  window-snoc slots capacity (suc n) h hh =
      ap (λ l. get_or slots h none ∷ l)
        (window-snoc slots capacity n ((h + 1) % capacity) (omega arith)
          ∙ ap (λ k. window slots capacity ((h + 1) % capacity) n ++ get_or slots k none ∷ [])
              (sym (step-shift capacity h n)))

  pub push-full :
      (q : Queue A) (x : A) → q.array.size ≡ q.array.capacity → push q x ≡ done (pos enomem, q)
  unfolding push
  push-full q x full = ground arith

  pub array-pop : (q : Queue A) → (pop q).1.array ≡ q.array
  unfolding pop
  array-pop q = ground arith

  write_slot_lem :
      (b : Block A) (capacity i : ℕ) (x : A)
      → Holds b capacity
      → i < capacity
      → (c : Block A) × (write_slot b i x ≡ done c)
        × Holds c capacity
        × (slots_of c ≡ set (slots_of b) i (some x))
        × (capacity ≡ length (slots_of b))
  write_slot_lem null capacity i x h lt = absurd h
  write_slot_lem (live slots) capacity i x h lt = (
    live (set slots i (some x)),
    ground arith,
    omega (arith, length-set slots i (some x)),
    refl,
    omega arith,
  )
  write_slot_lem freed capacity i x h lt = absurd h

  -- `queuePush` to a valid queue with a free slot returns the new number of items, keeps the queue
  -- valid, and leaves the old items in order followed by the new one.
  pub push_lem :
      (q : Queue A) (x : A)
      → IsValid q
      → q.array.size < q.array.capacity
      → (r : Queue A) × (push q x ≡ done (pos (q.array.size + 1), r))
        × IsValid r
        × (contents r ≡ contents q ++ some x ∷ [])
        × (r.array.size ≡ q.array.size + 1)
        × (r.array.capacity ≡ q.array.capacity)
        × (r.front ≡ q.front)
  unfolding push
  push_lem q x v room =
      let slot = (q.front + q.array.size) % q.array.capacity in
      let inside : slot < q.array.capacity = omega arith in
      let free : (q.array.size == q.array.capacity) ≡ false = ground arith in
      let (block, written, holds, same, len) =
        write_slot_lem q.array.block q.array.capacity slot x v.0 inside in
      (
        record q { array = record q.array { block = block; size = q.array.size + 1 } },
        rw (free, written),
        (holds, omega arith, v.2),
        rw same (
            ap (λ n. window (set (slots_of q.array.block) slot (some x)) q.array.capacity q.front n)
              {y = suc q.array.size} (omega arith)
            ∙ window-set (slots_of q.array.block) q.array.capacity (some x) q.array.size q.front
                slot (omega arith) v.2 room refl),
        refl,
        refl,
        refl,
      )

  -- In a full ring the window from the second item on ends with the first.
  window-rotate :
      (slots : List (Option A)) (capacity k h : ℕ)
      → h < capacity
      → capacity ≡ suc k
      → window slots capacity ((h + 1) % capacity) (suc k)
        ≡ window slots capacity ((h + 1) % capacity) k ++ get_or slots h none ∷ []
  window-rotate slots capacity k h hh full =
      let wraps : ((h + 1) % capacity + k) % capacity ≡ h = omega (
        arith,
        step-shift capacity h k,
        mod-eq-sub-mod {n = h + suc k} {m = capacity} (omega arith),
        mod-eq_of_lt {n = h + suc k - capacity} {m = capacity} (omega arith),
      ) in
      window-snoc slots capacity k ((h + 1) % capacity) (omega arith)
      ∙ ap (λ i. window slots capacity ((h + 1) % capacity) k ++ get_or slots i none ∷ []) wraps

  -- `queuePop` of a valid queue that is full points at the oldest item and moves that item to the
  -- back: the number of items stays what it was, and so the queue stays full.
  pub pop_rotates :
      (q : Queue A) (x : Option A) (rest : List (Option A))
      → IsValid q
      → q.array.size ≡ q.array.capacity
      → contents q ≡ x ∷ rest
      → ((pop q).0 ≡ some q.front)
        × (get_or (slots_of q.array.block) q.front none ≡ x)
        × IsValid (pop q).1
        × (contents (pop q).1 ≡ rest ++ x ∷ [])
        × ((pop q).1.array.size ≡ q.array.size)
        × ((pop q).1.array ≡ q.array)
  unfolding pop
  pop_rotates q x rest v full e =
      let k = q.array.size - 1 in
      let size : q.array.size ≡ suc k = omega arith in
      let used : (q.array.size == 0) ≡ false = ground arith in
      let slots = slots_of q.array.block in
      let capacity = q.array.capacity in
      let split : window slots capacity q.front (suc k) ≡ x ∷ rest =
        ap (λ n. window slots capacity q.front n) (sym size) ∙ e in
      let next = (q.front + 1) % capacity in
      let around : window slots capacity next q.array.size ≡ rest ++ x ∷ [] =
        ap (λ n. window slots capacity next n) size
        ∙ (window-rotate slots capacity k q.front v.2 (omega arith)
            ∙ ap₂ (λ l y. l ++ y ∷ []) (cc split) (cc split)) in
      rw used (refl, cc split, (v.0, v.1, omega arith), around, refl, refl)
