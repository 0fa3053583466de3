-- ===== src/Pump/Ownership/Passing.antt =====
-- Step 3 of `pumpPump`: passing the waiting buffer on keeps the invariant.
use malincam.Prelude.{
  ℕ, pos, suc, false, none, some, List, set, ◌≡◌, ◌<◌, refl, ◌∙◌, length, arith, get_elem?,
  get_elem?_of_lt, get_elem?-eq_get_or, inl, inr, ap, Option-cases, length-set, ◌==◌,
}
use native.Mathlib.Nat.{le_refl}
use malincam.Prelude.Outcome.{done}
use malincam.Array.{Block, null, live, freed}
use malincam.Queue
use malincam.Queue.{Queue}
use malincam.Queue.Laws.{slots_of}
use malincam.Device.{Buffer}
use malincam.Device.Driver.{Driver}
use malincam.Device.Transfer.{device_stream_push_buffer}
use malincam.Device.Transfer.Promises.{QueueLaws}
use malincam.Device.Transfer.Cases.{push_cases}
use malincam.Pump.{PassFunc, pass_dmabuf_sp, pass_mmap_to_userptr_sp, Pump}
use malincam.Pump.Pass.{pass_buffer}
use malincam.Pump.Claims.{not_acquired}
use malincam.Pump.Cycle.{Env, pass_to, peek_available, pass_waiting}
use malincam.Pump.Ownership.{IsStocked, Inv}
use malincam.Pump.Ownership.Steps.{with_buffers, Unmoved-Inv}
use malincam.Pump.Ownership.Take.{written-Inv, taken-Inv}
use malincam.Pump.Ownership.Rounds.{Ends}

-- The pump's way to pass a buffer succeeds on all buffers, and keeps the destination's label.
abbrev pub PassWorks : PassFunc → ℕ → Type 0
PassWorks func n =
    (s d : Buffer)
    → (d' : Buffer) × (pass_buffer func s d n ≡ done (pos 0, d'))
      × (d'.buffer.index ≡ d.buffer.index)
      × (d'.buffer.buf_type ≡ d.buffer.buf_type)

-- The ways from a single-planar to a single-planar stream always work.
pub dmabuf_sp_works : PassWorks pass_dmabuf_sp 1
unfolding pass_buffer
dmabuf_sp_works s d = (_, refl, refl, refl)

pub userptr_sp_works : PassWorks pass_mmap_to_userptr_sp 1
unfolding pass_buffer
userptr_sp_works s d = (_, refl, refl, refl)

read_slot_lem :
    (b : Block ℕ) (i d : ℕ)
    → get_elem? (slots_of b) i ≡ some (some d)
    → Queue.read_slot b i ≡ some d
read_slot_lem null i d h = absurd (cc)
read_slot_lem (live slots) i d h = rw (h, Queue.read_slot)
read_slot_lem freed i d h = absurd (cc)

peek_lem :
    (pump : Pump) (n : ℕ)
    → IsStocked pump.available n
    → (d : ℕ) × (peek_available pump ≡ done d) × (d < n)
unfolding peek_available Queue.peek
peek_lem pump n stocked =
    let (d, at, lt) = stocked.named pump.available.front stocked.front_in in
    let used : (pump.available.array.size == 0) ≡ false =
      ground (arith, stocked.full, stocked.front_in) in
    (d, rw used (rw (read_slot_lem pump.available.array.block pump.available.front d at)), lt)

module _ (driver : Driver) (e : Env driver) (s d : ℕ) (sb db : List Buffer)
    (sbuf dbuf dbuf' : Buffer) (src_has : e.src.buffers ≡ some sb)
    (dst_has : e.dst.buffers ≡ some db) (from : get_elem? sb s ≡ some sbuf)
    (to : get_elem? db d ≡ some dbuf)
    (passes : pass_buffer e.pump.pass_func sbuf dbuf e.pump.planes_count
      ≡ done (pos 0, dbuf')) where
  -- `pass_to` where the destination refuses the buffer, and where it takes it.
  pass_to-refused :
      (k : driver.Kernel) (n : ℕ)
      → device_stream_push_buffer driver e.kernel (with_buffers e.dst (set db d dbuf')) d
        ≡ done (pos (suc n), k)
      → pass_to driver e s d
        ≡ done (pos (suc n), record e { kernel = k; dst = with_buffers e.dst (set db d dbuf') })
  unfolding pass_to
  pass_to-refused k n pushes = ground arith

  pass_to-taken :
      (k : driver.Kernel)
      → device_stream_push_buffer driver e.kernel (with_buffers e.dst (set db d dbuf')) d
        ≡ done (pos 0, k)
      → get_elem? e.pump.acquired_to_source d ≡ some none
      → pass_to driver e s d
        ≡ done (
          pos 0,
          record e {
            kernel = k;
            dst = with_buffers e.dst (set db d dbuf');
            pump = record e.pump {
              acquired_to_source = set e.pump.acquired_to_source d (some s);
              next_in_queue = none;
              available = (Queue.pop e.pump.available).1;
            };
          },
        )
  unfolding pass_to
  pass_to-taken k pushes entry = ground arith

pass_waiting-idle :
    (driver : Driver) (e : Env driver)
    → e.pump.next_in_queue ≡ none
    → pass_waiting driver e ≡ done (pos 0, e)
unfolding pass_waiting
pass_waiting-idle driver e idle = ground arith

pass_waiting-pass :
    (driver : Driver) (e : Env driver) (s d : ℕ)
    → e.pump.next_in_queue ≡ some s
    → (Queue.get_size e.pump.available == 0) ≡ false
    → peek_available e.pump ≡ done d
    → pass_waiting driver e ≡ pass_to driver e s d
unfolding pass_waiting
pass_waiting-pass driver e s d at used peeks = ground arith

module _ (driver : Driver) (laws : QueueLaws driver) where
  open driver use {Kernel}

  module _ (e : Env driver) (sb db : List Buffer) (inv : Inv driver laws e sb db)
      (works : PassWorks e.pump.pass_func e.pump.planes_count) where
    pass_to-Ends :
        (s d : ℕ)
        → e.pump.next_in_queue ≡ some s
        → d < length db
        → Ends driver laws ⊥ e (pass_to driver e s d)
    unfolding pass_to
    pass_to-Ends s d at inside =
        let (sbuf, from) = get_elem?_of_lt sb s (inv.next_in s at) in
        let (dbuf, to) = get_elem?_of_lt db d inside in
        let (dbuf', passes, index, type) = works sbuf dbuf in
        let (named, typed) = inv.dst_active.labelled d dbuf to in
        let label : (dbuf'.buffer.index ≡ d) × (dbuf'.buffer.buf_type ≡ e.dst.buf_type) =
          (index ∙ named, type ∙ typed) in
        let written = written-Inv driver laws e sb db inv d dbuf' label in
        let len = length-set db d dbuf' in
        let dst' = with_buffers e.dst (set db d dbuf') in
        elim (push_cases driver laws e.kernel dst' (set db d dbuf') d written.dst_active
          (omega (arith, len))) [
            | inl (k, pushes, was_free, moves, light) ↦
                let entry : get_elem? e.pump.acquired_to_source d ≡ some none =
                  get_elem?-eq_get_or e.pump.acquired_to_source d none (omega (arith, inv.mapped))
                  ∙ ap some (not_acquired inv.owned d was_free) in
                rw
                  (pass_to-taken driver e s d sb db sbuf dbuf dbuf' inv.src_active.has_buffers
                    inv.dst_active.has_buffers from to passes k pushes entry)
                  (
                    sb,
                    set db d dbuf',
                    taken-Inv driver laws (record e { dst = dst' }) sb (set db d dbuf') written s d
                        k at (omega (arith, len)) was_free moves,
                    (refl, refl, refl, refl, light),
                  )
            | inr (k, n, pushes, same, light) ↦
                rw
                  (pass_to-refused driver e s d sb db sbuf dbuf dbuf' inv.src_active.has_buffers
                    inv.dst_active.has_buffers from to passes k n pushes)
                  (
                    sb,
                    set db d dbuf',
                    Unmoved-Inv driver laws (record e { dst = dst' }) sb (set db d dbuf') written k
                        same,
                    (refl, refl, refl, refl, light),
                  )
          ]

    -- Step 3 of `pumpPump` always ends, with the invariant.
    pub pass_waiting-Ends : Ends driver laws ⊥ e (pass_waiting driver e)
    unfolding Queue.get_size
    pass_waiting-Ends = elim (Option-cases e.pump.next_in_queue) [
      | inl idle ↦
          rw (pass_waiting-idle driver e idle)
            (sb, db, inv, (refl, refl, refl, refl, λ q fd t. le_refl _))
      | inr (s, at) ↦
          let (d, peeks, inside) = peek_lem e.pump (length db) inv.stocked in
          let used : (Queue.get_size e.pump.available == 0) ≡ false =
            ground (arith, inv.stocked.full, inv.stocked.front_in) in
          rw (pass_waiting-pass driver e s d at used peeks) (pass_to-Ends s d at inside)
    ]
