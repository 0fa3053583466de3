-- ===== src/Pump/Ownership/Rounds.antt =====
-- The loops of `pumpPump` keep the invariant, follow no bad pointer, fail no ASSERT, and end when
-- the kernel has no more buffers to give.
use malincam.Prelude.{
  ℕ, zero, suc, true, false, none, some, List, ◌≡◌, ◌≤◌, refl, ◌∙◌, length, arith, get_elem?,
  get_elem?-eq_get_or, inl, inr, ap, Option-cases,
}
use native.Mathlib.Nat.{le_refl}
use malincam.Prelude.Outcome.{Outcome, done, fault, out_of_fuel}
use malincam.Device.{Buffer, DeviceStream}
use malincam.Device.Driver.{Driver}
use malincam.Device.Transfer.{device_stream_pull_buffer}
use malincam.Device.Transfer.Promises.{QueueLaws, Quiet, Lighter, IsLabelled}
use malincam.Device.Transfer.Laws.{held, Moves}
use malincam.Device.Transfer.Cases.{pull_cases, push_cases}
use malincam.Pump.Pass.{read}
use malincam.Pump.Claims.{acquired_of_held}
use malincam.Pump.Cycle.{assert_some, Env, return_completed, take_newest, skip_waiting}
use malincam.Pump.Ownership.{Inv, IsActive-apart, same_stream_symm}
use malincam.Pump.Ownership.Steps.{with_buffers, Unmoved-Inv, cleared, returned-Inv, lost-Inv}
use malincam.Pump.Ownership.Take.{src_pulled, waits-Inv, replaces-Inv, refused-Inv}

module _ (driver : Driver) (laws : QueueLaws driver) where
  open driver use {Kernel}

  -- The same source queue and way to pass, and no queue with more buffers waiting than before.
  abbrev pub Later : Env driver → Env driver → Type 0
  Later e e' =
      (e'.src.dev_fd ≡ e.src.dev_fd)
      × (e'.src.buf_type ≡ e.src.buf_type)
      × (e'.pump.pass_func ≡ e.pump.pass_func)
      × (e'.pump.planes_count ≡ e.pump.planes_count)
      × Lighter driver e.kernel e'.kernel

  -- A run from `e` that does not fault: it ends with the invariant, or its fuel runs out and `T`
  -- holds.
  abbrev pub Ends : {X : Type 0} → Type 0 → Env driver → Outcome (X × Env driver) → Type 0
  Ends T e (done (x, e')) =
      (sb : List Buffer) × (db : List Buffer) × Inv driver laws e' sb db × Later e e'
  Ends T e fault = ⊥
  Ends T e out_of_fuel = T

  pub Ends-weaken :
      {X : Type 0} {S T : Type 0} (e e' : Env driver) (o : Outcome (X × Env driver))
      → Later e e'
      → (S → T)
      → Ends S e' o
      → Ends T e o
  Ends-weaken e e' (done (x, e'')) l f (sb, db, inv, m) = (
    sb,
    db,
    inv,
    (m.0 ∙ l.0, m.1 ∙ l.1, m.2 ∙ l.2, m.3 ∙ l.3, λ q fd t. omega (arith, m.4 q fd t, l.4 q fd t)),
  )
  Ends-weaken e e' fault l f h = h
  Ends-weaken e e' out_of_fuel l f h = f h

  -- After a round of step 1 that gave a source buffer back, and after a round of step 2.
  abbrev pub returned : Env driver → ℕ → Kernel → List Buffer → Env driver
  returned e i k db = record e { kernel = k; dst = with_buffers e.dst db; pump = cleared e.pump i }

  abbrev pub took : Env driver → ℕ → Kernel → List Buffer → Env driver
  took e i k sb = record e {
    kernel = k;
    src = with_buffers e.src sb;
    pump = record e.pump { next_in_queue = some i };
  }

  -- The buffers of a queue that are waiting, whatever the kernel, are at least `n`.
  abbrev pub Waiting : ℕ → Kernel → DeviceStream → Type 0
  Waiting n k st = (q : Quiet driver) → n ≤ q.ready k st.dev_fd st.buf_type

  module _ (e : Env driver) (sb db : List Buffer) (inv : Inv driver laws e sb db) where
    -- What a round of `return_completed` does with the destination buffer `i` that it pulled.
    complete-Ends :
        (fuel : ℕ) (i : ℕ) (k : Kernel) (db' : List Buffer)
        → held driver laws e.kernel e.dst i ≡ true
        → Moves driver laws e.kernel e.dst i false k
        → length db' ≡ length db
        → IsLabelled e.dst db'
        → Lighter driver e.kernel k
        → device_stream_pull_buffer driver e.kernel e.dst ≡ done (some i, k, with_buffers e.dst db')
        → (T : Type 0)
        → ((k' : Kernel)
            → Inv driver laws (returned e i k' db') sb db'
            → Lighter driver k k'
            → Ends T e (return_completed driver fuel (returned e i k' db')))
        → Ends T e (return_completed driver (suc fuel) e)
    unfolding return_completed
    complete-Ends fuel i k db' was moves len labelled light runs T rest =
        let (s, at) = acquired_of_held inv.owned i was in
        let inside = inv.dst_active.in_range i was in
        let entry : get_elem? e.pump.acquired_to_source i ≡ some (some s) =
          get_elem?-eq_get_or e.pump.acquired_to_source i none (omega (arith, inv.mapped))
          ∙ ap some at in
        let src_active =
          IsActive-apart driver laws e.kernel k e.dst e.src i false sb
            (same_stream_symm e.dst e.src ∙ inv.apart) moves inv.src_active in
        elim (push_cases driver laws k e.src sb s src_active (inv.acquired_in i s at)) [
          | inl (k', pushes, was_free, back, lighter) ↦ rw runs (
              rw (entry, read, assert_some)
                (rw pushes (
                  rest k'
                    (returned-Inv driver laws e sb db inv i k db' moves len labelled inside s k' at
                      back)
                    lighter)))
          | inr (k', n, pushes, same, lighter) ↦ rw runs (
              rw (entry, read, assert_some)
                (rw pushes (
                  sb,
                  db',
                  lost-Inv driver laws e sb db inv i k db' moves len labelled inside k' same,
                  (refl, refl, refl, refl, λ q fd t. omega (arith, light q fd t, lighter q fd t)),
                )))
        ]

  -- Step 1 of `pumpPump` ends with the invariant; it can only run out of fuel if that many buffers
  -- were waiting at the destination.
  pub return_completed-Ends :
      (fuel : ℕ) (e : Env driver) (sb db : List Buffer)
      → Inv driver laws e sb db
      → Ends (Waiting fuel e.kernel e.dst) e (return_completed driver fuel e)
  unfolding return_completed
  return_completed-Ends zero e sb db inv = λ q. omega arith
  return_completed-Ends (suc fuel) e sb db inv =
      elim (pull_cases driver laws e.kernel e.dst db inv.dst_active) [
        | inl (k, runs, same, light) ↦
            rw runs
              (sb, db, Unmoved-Inv driver laws e sb db inv k same, (refl, refl, refl, refl, light))
        | inr (i, k, db', runs, was, moves, len, labelled, light, fewer) ↦
            complete-Ends e sb db inv fuel i k db' was moves len labelled light runs
              (Waiting (suc fuel) e.kernel e.dst)
              (λ k' inv' lighter.
                Ends-weaken e (returned e i k' db')
                  (return_completed driver fuel (returned e i k' db'))
                  (refl, refl, refl, refl, λ q fd t. omega (arith, light q fd t, lighter q fd t))
                  (λ waiting q.
                    omega (arith, waiting q, fewer q, lighter q e.dst.dev_fd e.dst.buf_type))
                  (return_completed-Ends fuel (returned e i k' db') sb db' inv'))
      ]

  module _ (e : Env driver) (sb db : List Buffer) (inv : Inv driver laws e sb db) where
    -- What a round of `take_newest` does with the source buffer `i` that it pulled.
    take-Ends :
        (fuel : ℕ) (i : ℕ) (k : Kernel) (sb' : List Buffer)
        → held driver laws e.kernel e.src i ≡ true
        → Moves driver laws e.kernel e.src i false k
        → length sb' ≡ length sb
        → IsLabelled e.src sb'
        → Lighter driver e.kernel k
        → device_stream_pull_buffer driver e.kernel e.src ≡ done (some i, k, with_buffers e.src sb')
        → (T : Type 0)
        → ((k' : Kernel)
            → Inv driver laws (took e i k' sb') sb' db
            → Lighter driver k k'
            → Ends T e (take_newest driver fuel (took e i k' sb')))
        → Ends T e (take_newest driver (suc fuel) e)
    unfolding take_newest
    take-Ends fuel i k sb' was moves len labelled light runs T rest =
        elim (Option-cases e.pump.next_in_queue) [
          | inl idle ↦ rw runs (
              rw (idle, skip_waiting)
                (rest k (waits-Inv driver laws e sb db inv i k sb' moves len labelled was)
                  (λ q fd t. le_refl _)))
          | inr (t, at) ↦
              elim (push_cases driver laws k (with_buffers e.src sb') sb' t
                (src_pulled driver laws e sb db inv i k sb' moves len labelled was)
                (omega (arith, inv.next_in t at))) [
                  | inl (k', pushes, was_free, back, lighter) ↦ rw runs (
                      rw (at, skip_waiting)
                        (rw pushes (
                          rest k'
                            (replaces-Inv driver laws e sb db inv i k sb' moves len labelled was t
                              k' at back)
                            lighter)))
                  | inr (k', n, pushes, same, lighter) ↦ rw runs (
                      rw (at, skip_waiting)
                        (rw pushes (
                          sb',
                          db,
                          refused-Inv driver laws e sb db inv i k sb' moves len labelled was k'
                              same,
                          (
                            refl,
                            refl,
                            refl,
                            refl,
                            λ q fd t. omega (arith, light q fd t, lighter q fd t),
                          ),
                        )))
                ]
        ]

  -- Step 2 of `pumpPump` ends with the invariant; it can only run out of fuel if that many buffers
  -- were waiting at the source.
  pub take_newest-Ends :
      (fuel : ℕ) (e : Env driver) (sb db : List Buffer)
      → Inv driver laws e sb db
      → Ends (Waiting fuel e.kernel e.src) e (take_newest driver fuel e)
  unfolding take_newest
  take_newest-Ends zero e sb db inv = λ q. omega arith
  take_newest-Ends (suc fuel) e sb db inv =
      elim (pull_cases driver laws e.kernel e.src sb inv.src_active) [
        | inl (k, runs, same, light) ↦
            rw runs
              (sb, db, Unmoved-Inv driver laws e sb db inv k same, (refl, refl, refl, refl, light))
        | inr (i, k, sb', runs, was, moves, len, labelled, light, fewer) ↦
            take-Ends e sb db inv fuel i k sb' was moves len labelled light runs
              (Waiting (suc fuel) e.kernel e.src)
              (λ k' inv' lighter.
                Ends-weaken e (took e i k' sb') (take_newest driver fuel (took e i k' sb'))
                  (refl, refl, refl, refl, λ q fd t. omega (arith, light q fd t, lighter q fd t))
                  (λ waiting q.
                    omega (arith, waiting q, fewer q, lighter q e.src.dev_fd e.src.buf_type))
                  (take_newest-Ends fuel (took e i k' sb') sb' db inv'))
      ]
