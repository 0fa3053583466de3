-- ===== src/Main/Laws.antt =====
-- What main.c makes of the pipeline: states that differ only in what starting and stopping change.
pub mod Watches
pub mod Nodes
pub mod Running
pub mod Pumps
pub mod Starts
pub mod Runs
pub mod Rounds
pub mod Setup
pub mod Created
pub mod Streamoff
use malincam.Prelude.{ℕ, ℤ, ◌≡◌, refl, Option, none, some, inl, inr, Option-cases}
use malincam.Device.{DeviceStream}
use malincam.Node.{Node}
use malincam.Node.Laws.{Ready}
use malincam.Node.Steady.{Steady, SteadyNode, Steady-refl, Steady-trans, Steady-Ready}
use malincam.Main.{
  Pipeline, or_else, Machine, Part, camera, processor, encoder, gadget, input_side, output_side,
  End, State, node_at, put_node,
}

-- The two pipelines have the same pumps, slots and LED.
abbrev pub SamePumps : Pipeline → Pipeline → Type 0
SamePumps p p' =
    (p'.cam_to_isp ≡ p.cam_to_isp)
    × (p'.isp_to_enc ≡ p.isp_to_enc)
    × (p'.enc_to_uvc ≡ p.enc_to_uvc)
    × (p'.fds ≡ p.fds)
    × (p'.led_enabled ≡ p.led_enabled)
    × (p'.led_on ≡ p.led_on)

pub same_node : (node : Node) → SteadyNode node node
same_node node = (Steady-refl node.input, Steady-refl node.output)

module _ (machine : Machine) where
  open machine use {platform}
  open platform.host use {driver}
  open driver use {Kernel}

  -- The nodes differ in the states of their streams alone.
  abbrev pub SteadyNodes : State machine → State machine → Type 0
  SteadyNodes w w' = (part : Part) → SteadyNode (node_at machine w part) (node_at machine w' part)

  -- Each stream of each node has the buffers it counts.
  abbrev pub AllReady : State machine → Type 0
  AllReady w =
      (part : Part)
      → Ready driver (node_at machine w part).input × Ready driver (node_at machine w part).output

  pub SteadyNodes-trans :
      (a b c : State machine) → SteadyNodes a b → SteadyNodes b c → SteadyNodes a c
  SteadyNodes-trans a b c ab bc part = (
    Steady-trans (node_at machine a part).input (node_at machine b part).input
        (node_at machine c part).input (ab part).0 (bc part).0,
    Steady-trans (node_at machine a part).output (node_at machine b part).output
        (node_at machine c part).output (ab part).1 (bc part).1,
  )

  pub SteadyNodes-AllReady : (w w' : State machine) → SteadyNodes w w' → AllReady w → AllReady w'
  SteadyNodes-AllReady w w' steady ready part = (
    Steady-Ready driver (node_at machine w part).input (node_at machine w' part).input
        (steady part).0 (ready part).0,
    Steady-Ready driver (node_at machine w part).output (node_at machine w' part).output
        (steady part).1 (ready part).1,
  )

  or_else-Steady :
      (st : DeviceStream) (end : Option DeviceStream)
      → Steady (some st) end
      → Steady (some st) (some (or_else end st))
  or_else-Steady st none steady = absurd steady
  or_else-Steady st (some st') steady = steady

  -- A node written back after its streams changed state.
  pub put_node-Steady :
      (w : State machine) (part : Part) (node : Node) (k : Kernel)
      → SteadyNode (node_at machine w part) node
      → SteadyNodes w (record (put_node machine w part node) { kernel = k })
  put_node-Steady w camera node k steady camera = steady
  put_node-Steady w processor node k steady processor = steady
  put_node-Steady w encoder node k steady encoder = steady
  put_node-Steady w gadget node k steady gadget = (or_else-Steady w.output node.input steady.0, tt)
  put_node-Steady w camera node k steady processor = same_node w.app.isp
  put_node-Steady w camera node k steady encoder = same_node w.app.enc
  put_node-Steady w camera node k steady gadget = (refl, tt)
  put_node-Steady w processor node k steady camera = same_node w.app.cam
  put_node-Steady w processor node k steady encoder = same_node w.app.enc
  put_node-Steady w processor node k steady gadget = (refl, tt)
  put_node-Steady w encoder node k steady camera = same_node w.app.cam
  put_node-Steady w encoder node k steady processor = same_node w.app.isp
  put_node-Steady w encoder node k steady gadget = (refl, tt)
  put_node-Steady w gadget node k steady camera = same_node w.app.cam
  put_node-Steady w gadget node k steady processor = same_node w.app.isp
  put_node-Steady w gadget node k steady encoder = same_node w.app.enc

  pub put_node-SamePumps :
      (w : State machine) (part : Part) (node : Node)
      → SamePumps w.app (put_node machine w part node).app
  put_node-SamePumps w camera node = (refl, refl, refl, refl, refl, refl)
  put_node-SamePumps w processor node = (refl, refl, refl, refl, refl, refl)
  put_node-SamePumps w encoder node = (refl, refl, refl, refl, refl, refl)
  put_node-SamePumps w gadget node = (refl, refl, refl, refl, refl, refl)
