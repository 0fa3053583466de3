-- ===== src/Node.antt =====
-- Node.c: starting and stopping the two streams of a node.
pub mod Laws
pub mod Steady
mod Tests
use malincam.Prelude.{ℕ, ℤ, pos, is_zero, Bool, true, false, not, Option, none, some, if◌then◌else◌}
use malincam.Prelude.Outcome.{Outcome, done, ◌>>=◌}
use malincam.Device.{DeviceStream}
use malincam.Device.Driver.{Driver}
use malincam.Device.Stream.{device_stream_start, device_stream_stop}

-- `Node`, its two streams; `none` is NULL. A program that sets both to one stream is outside the
-- model.
pub record Node : Type 0 where
  pub input : Option DeviceStream
  pub output : Option DeviceStream

module _ (driver : Driver) where
  open driver use {Kernel}

  -- One stream of a node, if it has it: started, or stopped.
  unfoldable pub start_stream :
      Kernel → Option DeviceStream → Outcome (ℤ × Kernel × Option DeviceStream)
  start_stream k none = done (pos 0, k, none)
  start_stream k (some st) = do
    (status, k', st') ← device_stream_start driver k st
    done (status, k', some st')

  unfoldable pub stop_stream : Kernel → Option DeviceStream → ℤ × Kernel × Option DeviceStream
  stop_stream k none = (pos 0, k, none)
  stop_stream k (some st) =
      let (status, k', st') = device_stream_stop driver k st in (status, k', some st')

  -- `nodeStart`
  unfoldable pub node_start : Kernel → Node → Outcome (ℤ × Kernel × Node)
  unfolding start_stream stop_stream
  node_start k node = do
    (status, k1, output) ← start_stream k node.output
    let started = record node { output = output }
    elim (is_zero status) [
      | false ↦ done (status, k1, started)
      | true ↦ do
        (status', k2, input) ← start_stream k1 node.input
        elim (is_zero status') [
          | true ↦ done (pos 0, k2, record started { input = input })
          | false ↦
              let (ignored, k3, stopped) = stop_stream k2 output in
              done (status', k3, record { input = input; output = stopped })
        ]
    ]

  -- `nodeStop`
  unfoldable pub node_stop : Kernel → Node → ℤ × Kernel × Node
  unfolding stop_stream
  node_stop k node =
      let (output_status, k1, output) = stop_stream k node.output in
      let (input_status, k2, input) = stop_stream k1 node.input in
      (
        if not (is_zero output_status) then output_status else input_status,
        k2,
        record { input = input; output = output },
      )
