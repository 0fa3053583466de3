-- ===== src/Main/Laws/Created.antt =====
-- From `pipelineCreate` to `pipelineStart`.
use malincam.Prelude.{◌≡◌, ◌<◌, ◌⊎◌, Option, none, some}
use malincam.Device.{DeviceStream}
use malincam.Main.{node_at, Part, Machine, Link, pump_at, State}
use malincam.Main.Laws.Nodes.{PartFails}
use malincam.Main.Laws.Pumps.{Pumping}
use malincam.Main.Laws.Running.{Running}

-- The stream, if there, has buffers.
abbrev pub Stocked : Option DeviceStream → Type 0
Stocked none = ⊥
Stocked (some st) = 0 < st.buffers_count

module _ (machine : Machine) where
  open machine use {platform, epoll}
  open platform.host use {driver}
  open driver use {Kernel}

  -- Every stream runs, with three pumps and the blinking enabled; or a node failed to start, and
  -- there is no pump.
  abbrev pub RunsOrIdle : State machine → State machine → Type 0
  RunsOrIdle w w' =
      (((part : Part) → Running (node_at machine w' part))
        × ((link : Link) → Pumping w'.app link)
        × (w'.app.led_enabled ≡ 1))
      ⊎ (PartFails machine w w' × ((link : Link) → pump_at w'.app link ≡ none))
