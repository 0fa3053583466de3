-- ===== src/Queue/Full.antt =====
-- A queue that has once been full, under any sequence of calls of queuePush and queuePop.
use malincam.Prelude.{pos, ◌≡◌, refl, Option, none, some, List, [], ◌∷◌, arith}
use malincam.Prelude.Outcome.{Outcome, done, ◌>>=◌}
use malincam.Abi.{enomem}
use malincam.Queue.{Queue, push, pop, get_size, get_free}
use malincam.Queue.Laws.{push-full, array-pop}

module _ {ℓ} {A : Type ℓ} where
  -- The queue after some calls: `some x` is a push of `x`, `none` is a pop.
  pub after : List (Option A) → Queue A → Outcome (Queue A)
  after [] q = done q
  after (some x ∷ calls) q = do (result, r) ← push q x; after calls r
  after (none ∷ calls) q = after calls (pop q).1

  -- Once a queue is full no sequence of pushes and pops makes room again: it returns, the queue
  -- still has no free slot, and the next push is refused with ENOMEM, whatever was popped before.
  pub after_full :
      (calls : List (Option A)) (q : Queue A) (x : A)
      → q.array.size ≡ q.array.capacity
      → (r : Queue A) × (after calls q ≡ done r)
        × (get_size r ≡ get_size q)
        × (get_free r ≡ 0)
        × (push r x ≡ done (pos enomem, r))
  unfolding after get_size get_free
  after_full [] q x full = (q, refl, refl, omega arith, push-full q x full)
  after_full (some y ∷ calls) q x full =
      let (r, runs, size, free, refused) = after_full calls q x full in
      (r, ground (arith, push-full q y full), size, free, refused)
  after_full (none ∷ calls) q x full =
      let same = array-pop q in
      let (r, runs, size, free, refused) = after_full calls (pop q).1 x (ground (arith, same)) in
      (r, runs, ground (arith, same), free, refused)
