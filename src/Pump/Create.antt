-- ===== src/Pump/Create.antt =====
-- pump.c: making a pump and destroying it.
pub mod Fresh
use malincam.Prelude.{ℕ, ℤ, zero, suc, ◌+◌, Option, none, some, List, if◌then◌else◌, replicate}
use malincam.Prelude.Outcome.{Outcome, done, ◌>>=◌}
use malincam.Queue
use malincam.Queue.{Queue}
use malincam.Device.{DeviceStream, planes_count}
use malincam.Pump.{PassFunc, Pump}
use malincam.Pump.Pass.{get_pass_func}

-- The loop of `pumpCreate` that fills the queue, from index `i` on, `n` to go.
unfoldable pub fill_available : Queue ℕ → ℕ → ℕ → Outcome (Queue ℕ)
fill_available q i zero = done q
fill_available q i (suc n) = do (result, pushed) ← Queue.push q i; fill_available pushed (i + 1) n

-- sizeof(int)
abbrev pub int_size : ℕ
int_size = 4

-- `pumpCreate`, for a function that was found.
unfoldable pub create_with : PassFunc → DeviceStream → DeviceStream → Outcome Pump
unfolding fill_available
create_with func src dst = do
  empty ← Queue.init int_size dst.buffers_count
  available ← fill_available empty 0 dst.buffers_count
  done (record {
    next_in_queue = none;
    acquired_to_source = replicate dst.buffers_count none;
    available = available;
    pass_func = func;
    planes_count = planes_count src;
  })

-- `pumpCreate`; `none` is NULL.
unfoldable pub pump_create : DeviceStream → DeviceStream → Outcome (Option Pump)
unfolding get_pass_func create_with
pump_create src dst = elim (get_pass_func src dst) [
  | none ↦ done none
  | some func ↦ do pump ← create_with func src dst; done (some pump)
]

-- `pumpDestroy`: what it frees may only be freed once.
unfoldable pub pump_destroy : Option Pump → Outcome (Unit {0})
pump_destroy none = done tt
pump_destroy (some pump) = do finalized ← Queue.finalize pump.available; done tt
