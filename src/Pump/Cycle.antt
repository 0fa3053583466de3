-- ===== src/Pump/Cycle.antt =====
-- pump.c: `pumpPump`, one round of moving buffers.
use malincam.Prelude.{
  ℕ, ℤ, pos, is_zero, zero, suc, Bool, true, false, not, Option, none, some, List, ◌==◌,
  if◌then◌else◌, set,
}
use malincam.Prelude.Outcome.{Outcome, done, fault, out_of_fuel, assert, ◌>>=◌, ◌>>◌}
use malincam.Queue
use malincam.Queue.{Queue}
use malincam.Device.{Buffer, DeviceStream}
use malincam.Device.Driver.{Driver}
use malincam.Device.Transfer.{device_stream_pull_buffer, device_stream_push_buffer}
use malincam.Pump.{Pump}
use malincam.Pump.Pass.{read, pass_buffer}

abbrev pub is_none {ℓ} : {A : Type ℓ} → Option A → Bool
is_none none = true
is_none (some a) = false

-- What an ASSERT on an entry of `acquired_to_source` reads: -1 is a fault.
abbrev pub assert_some {ℓ} : {A : Type ℓ} → Option A → Outcome A
assert_some none = fault
assert_some (some a) = done a

-- `pump->dst.st->buffers + i`, written through.
abbrev pub buffers_of : DeviceStream → Outcome (List Buffer)
buffers_of st = elim st.buffers [ none ↦ fault | some bufs ↦ done bufs ]

-- `*(int*)queuePeek(&pump->dst.available)`
unfoldable pub peek_available : Pump → Outcome ℕ
peek_available pump = do
  slot ← assert_some (Queue.peek pump.available)
  assert_some (Queue.read_slot pump.available.array.block slot)

module _ (driver : Driver) where
  open driver use {Kernel}

  -- The kernel, the two streams that the pump points at, and the pump.
  pub record Env : Type 0 where
    pub kernel : Kernel
    pub src : DeviceStream
    pub dst : DeviceStream
    pub pump : Pump

  -- Step 1 of `pumpPump`: `none` where its loop breaks, the value that the function returns where
  -- it returns. One unit of fuel for a round.
  unfoldable pub return_completed : ℕ → Env → Outcome (Option ℤ × Env)
  return_completed zero e = out_of_fuel
  return_completed (suc fuel) e = do
    (buf, k, dst) ← device_stream_pull_buffer driver e.kernel e.dst
    elim buf [
      | none ↦ done (none, record e { kernel = k; dst = dst })
      | some i ↦ do
        acquired ← read e.pump.acquired_to_source i
        source_index ← assert_some acquired
        (result, k') ← device_stream_push_buffer driver k e.src source_index
        let pump = record e.pump { acquired_to_source = set e.pump.acquired_to_source i none }
        let e' = record e { kernel = k'; dst = dst; pump = pump }
        elim (is_zero result) [ true ↦ return_completed fuel e' | false ↦ done (some result, e') ]
    ]

  -- Step 2, a buffer that was waiting goes back to the source; 0 where none was.
  unfoldable pub skip_waiting : Kernel → DeviceStream → Option ℕ → Outcome (ℤ × Kernel)
  skip_waiting k src none = done (pos 0, k)
  skip_waiting k src (some waiting) = device_stream_push_buffer driver k src waiting

  -- Step 2 of `pumpPump`.
  unfoldable pub take_newest : ℕ → Env → Outcome (Option ℤ × Env)
  unfolding skip_waiting
  take_newest zero e = out_of_fuel
  take_newest (suc fuel) e = do
    (buf, k, src) ← device_stream_pull_buffer driver e.kernel e.src
    elim buf [
      | none ↦ done (none, record e { kernel = k; src = src })
      | some i ↦ do
        (result, k') ← skip_waiting k src e.pump.next_in_queue
        let e' = record e { kernel = k'; src = src }
        elim (is_zero result) [
          | true ↦ take_newest fuel (record e' { pump = record e.pump { next_in_queue = some i } })
          | false ↦ done (some result, e')
        ]
    ]

  -- Step 3 of `pumpPump`, with the waiting buffer and a destination buffer at hand.
  unfoldable pub pass_to : Env → ℕ → ℕ → Outcome (ℤ × Env)
  pass_to e next dst_index = do
    src_bufs ← buffers_of e.src
    sbuf ← read src_bufs next
    dst_bufs ← buffers_of e.dst
    dbuf ← read dst_bufs dst_index
    (passed, dbuf') ← pass_buffer e.pump.pass_func sbuf dbuf e.pump.planes_count
    let dst = record e.dst { buffers = some (set dst_bufs dst_index dbuf') }
    if not (is_zero passed) then done (passed, record e { dst = dst }) else do
      (result, k) ← device_stream_push_buffer driver e.kernel dst dst_index
      if not (is_zero result) then done (result, record e { kernel = k; dst = dst }) else do
        acquired ← read e.pump.acquired_to_source dst_index
        assert (is_none acquired)
        let pump = record e.pump {
          acquired_to_source = set e.pump.acquired_to_source dst_index (some next);
          next_in_queue = none;
          available = (Queue.pop e.pump.available).1;
        }
        done (pos 0, record e { kernel = k; dst = dst; pump = pump })

  -- Step 3 of `pumpPump`.
  unfoldable pub pass_waiting : Env → Outcome (ℤ × Env)
  unfolding pass_to peek_available
  pass_waiting e = elim e.pump.next_in_queue [
    | none ↦ done (pos 0, e)
    | some next ↦
        if Queue.get_size e.pump.available == 0
        then done (pos 0, e)
        else do dst_index ← peek_available e.pump; pass_to e next dst_index
  ]

  -- `pumpPump`, each of its two loops with `fuel` rounds.
  unfoldable pub pump_pump : ℕ → Env → Outcome (ℤ × Env)
  unfolding return_completed take_newest pass_waiting
  pump_pump fuel e = do
    (returned, e1) ← return_completed fuel e
    elim returned [
      | some result ↦ done (result, e1)
      | none ↦ do
        (failed, e2) ← take_newest fuel e1
        elim failed [ some result ↦ done (result, e2) | none ↦ pass_waiting e2 ]
    ]
