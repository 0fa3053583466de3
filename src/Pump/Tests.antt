-- ===== src/Pump/Tests.antt =====
-- The pump between a camera and an encoder, on a kernel in memory.
use malincam.Prelude.{
  ◌↔◌, ℕ, ℤ, pos, zero, suc, ◌≡◌, inl, ◌≢◌, ◌<◌, refl, false, none, some, List, [], ◌∷◌, arith,
  get_elem?, sym, ◌∙◌,
}
use malincam.Prelude.Outcome.{Outcome, done, fault, out_of_fuel}
use malincam.Array.{Block}
use malincam.Queue
use malincam.Queue.{Queue}
use malincam.Queue.Laws.{slots_of}
use malincam.Device.{Buffer}
use malincam.Device.Transfer.{device_stream_pull_buffer, device_stream_push_buffer}
use malincam.Device.Transfer.Laws.{held}
use malincam.Device.Bench.{bench, bench_laws, bench_documented, bench-NoEio, bench_quiet}
use malincam.Device.Bench.Streams.{
  camera, encoder, camera_buffers, encoder_buffers, filled_bench, camera-IsActive, encoder-IsActive,
}
use malincam.Pump.{pass_dmabuf_sp, Pump}
use malincam.Pump.Cycle.{Env, pump_pump}
use malincam.Pump.Create.{pump_create}
use malincam.Pump.Create.Fresh.{pump_create-Inv}
use malincam.Pump.Pass.{pass_buffer, get_pass_func, find_pass_func}
use malincam.Pump.Pass.Chosen.{get_pass_func_lem, kinds, needs}
use malincam.Pump.Ownership.{Inv, acquired_of}
use malincam.Pump.Ownership.Safety.{
  IsSinglePlanar, pump_pump-ne_fault, pump_pump-Inv, pump_pump_returns,
}
use malincam.Device.Transfer.Promises.{QueueLaws, without_eio}

abbrev test_queue : Queue ℕ
test_queue = record {
  array = record {
    block = Block.live (some 0 ∷ some 1 ∷ []);
    size = 2;
    capacity = 2;
    item_size = 4;
  };
  front = 0;
}

abbrev test_pump : Pump
test_pump = record {
  next_in_queue = none;
  acquired_to_source = none ∷ none ∷ [];
  available = test_queue;
  pass_func = pass_dmabuf_sp;
  planes_count = 1;
}

abbrev test_env : Env bench
test_env = record { kernel = filled_bench; src = camera; dst = encoder; pump = test_pump }

test_queue-named :
    (i : ℕ)
    → i < 2
    → (d : ℕ) × (get_elem? (slots_of test_queue.array.block) i ≡ some (some d)) × (d < 2)
test_queue-named zero lt = (0, refl, omega arith)
test_queue-named (suc zero) lt = (1, refl, omega arith)
test_queue-named (suc (suc i)) lt = absurd (omega arith)

none_filled : (d : ℕ) → acquired_of test_pump d ≡ none
none_filled zero = refl
none_filled (suc zero) = refl
none_filled (suc (suc d)) = refl

encoder_empty : (d : ℕ) → held bench bench_laws filled_bench encoder d ≡ false
encoder_empty d = refl

none-ne-some : {s : ℕ} → none ≡ some s → ⊥
none-ne-some h = cc

test_env-Inv : Inv bench bench_laws test_env camera_buffers encoder_buffers
test_env-Inv = record {
  src_active = camera-IsActive;
  dst_active = encoder-IsActive;
  apart = refl;
  owned = record {
    acquired_held = λ d. ground (arith, none_filled d);
    acquired_free = λ d s at. absurd (none-ne-some (sym (none_filled d) ∙ at));
    next_free = λ s at. absurd (none-ne-some at);
    next_fresh = λ d s at. absurd (none-ne-some (sym (none_filled d) ∙ at));
    distinct = λ d e s at at'. absurd (none-ne-some (sym (none_filled d) ∙ at));
  };
  mapped = refl;
  acquired_in = λ d s at. absurd (none-ne-some (sym (none_filled d) ∙ at));
  next_in = λ s at. absurd (none-ne-some at);
  stocked = record { full = refl; front_in = omega arith; named = test_queue-named };
}

test_pump_single : IsSinglePlanar test_pump
test_pump_single = (refl, inl refl)

abbrev test_laws : QueueLaws bench
test_laws = without_eio bench bench_documented bench-NoEio

pump_pump_returns_example :
    (result : ℤ) × (e' : Env bench) × (sb' : List Buffer) × (db' : List Buffer) × (pump_pump bench 3
        test_env
      ≡ done (result, e'))
    × Inv bench test_laws e' sb' db'
pump_pump_returns_example =
    pump_pump_returns bench bench_documented bench-NoEio 3 test_env test_pump_single camera_buffers
      encoder_buffers bench_quiet test_env-Inv (omega arith) (omega arith)

pump_pump-ne_fault_example : pump_pump bench 3 test_env ≢ fault
pump_pump-ne_fault_example =
    pump_pump-ne_fault bench bench_documented bench-NoEio 3 test_env test_pump_single camera_buffers
      encoder_buffers test_env-Inv

-- What a run left.
abbrev env_of : Outcome (ℤ × Env bench) → Env bench
env_of (done (result, e)) = e
env_of fault = test_env
env_of out_of_fuel = test_env

test_run : pump_pump bench 3 test_env ≡ done (pos 0, env_of (pump_pump bench 3 test_env))
unfolding pump_pump device_stream_pull_buffer device_stream_push_buffer Queue.get_size Queue.peek
    pass_buffer
test_run = refl

-- The older of the two camera buffers is back at the camera, the newer one fills encoder buffer 0.
test_run-acquired :
    (env_of (pump_pump bench 3 test_env)).pump.acquired_to_source ≡ some 1 ∷ none ∷ []
unfolding pump_pump device_stream_pull_buffer device_stream_push_buffer Queue.get_size Queue.peek
    pass_buffer
test_run-acquired = refl

pump_pump-Inv_example :
    (sb' : List Buffer) × (db' : List Buffer) × Inv bench test_laws
      (env_of (pump_pump bench 3 test_env))
      sb'
      db'
pump_pump-Inv_example =
    pump_pump-Inv bench bench_documented bench-NoEio 3 test_env test_pump_single camera_buffers
      encoder_buffers (pos 0) (env_of (pump_pump bench 3 test_env)) test_env-Inv test_run

found : get_pass_func camera encoder ≡ some pass_dmabuf_sp
unfolding get_pass_func find_pass_func
found = refl

pump_create-Inv_example :
    (pump : Pump) × (pump_create camera encoder ≡ done (some pump))
    × (pump.pass_func ≡ pass_dmabuf_sp)
    × (pump.planes_count ≡ 1)
    × Inv bench bench_laws
        (record { kernel = filled_bench; src = camera; dst = encoder; pump = pump })
        camera_buffers
        encoder_buffers
pump_create-Inv_example =
    pump_create-Inv bench bench_laws filled_bench camera encoder camera_buffers encoder_buffers
      pass_dmabuf_sp found camera-IsActive encoder-IsActive refl refl encoder_empty

get_pass_func_lem_example :
    (get_pass_func camera encoder ≡ some pass_dmabuf_sp)
    ↔ (kinds camera encoder ≡ needs pass_dmabuf_sp)
get_pass_func_lem_example = get_pass_func_lem camera encoder pass_dmabuf_sp
