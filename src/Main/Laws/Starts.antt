-- ===== src/Main/Laws/Starts.antt =====
-- `pipelineStart` as a whole.
use malincam.Prelude.{pos, ◌≡◌, refl, sym, List}
use mathlib.Core.Path.{subst}
use malincam.Node.Steady.{SteadyNode}
use malincam.Prelude.Outcome.{done}
use malincam.Pump.{Pump}
use malincam.Main.{
  Part, node_at, camera, processor, encoder, gadget, Machine, Pipeline, Link, first_link,
  second_link, third_link, State,
}
use malincam.Main.Switch.{Watch, start_parts, node_order, start_watches}
use malincam.Main.Laws.{same_node, SteadyNodes}
use malincam.Main.Laws.Watches.{Present, RefusesOne}
use malincam.Main.Laws.Running.{Running}
use malincam.Main.Laws.Pumps.{Wired, SteadyNodes-Wired}

module _ (machine : Machine) where
  open machine use {platform, sysfs}
  open platform.host.driver use {Kernel}

  abbrev pub AllWired : State machine → Type 0
  AllWired w = (link : Link) → Wired machine w link

  pub SteadyNodes-AllWired :
      (w w' : State machine) → SteadyNodes machine w w' → AllWired w → AllWired w'
  SteadyNodes-AllWired w w' steady wired link =
      SteadyNodes-Wired machine w w' link steady (wired link)

  kept_nodes :
      (w : State machine) (k : Kernel) (p : Pipeline)
      → p.cam ≡ w.app.cam
      → p.isp ≡ w.app.isp
      → p.enc ≡ w.app.enc
      → (part : Part)
      → node_at machine (record w { kernel = k; app = p }) part ≡ node_at machine w part
  kept_nodes w k p same same' same'' camera = same
  kept_nodes w k p same same' same'' processor = same'
  kept_nodes w k p same same' same'' encoder = same''
  kept_nodes w k p same same' same'' gadget = refl

  kept-Steady :
      (w w' : State machine)
      → ((part : Part) → node_at machine w' part ≡ node_at machine w part)
      → SteadyNodes machine w w'
  kept-Steady w w' kept part =
      subst (SteadyNode (node_at machine w part)) (sym (kept part))
        (same_node (node_at machine w part))

  pub same_nodes-Steady :
      (w : State machine) (k : Kernel) (p : Pipeline)
      → p.cam ≡ w.app.cam
      → p.isp ≡ w.app.isp
      → p.enc ≡ w.app.enc
      → SteadyNodes machine w (record w { kernel = k; app = p })
  same_nodes-Steady w k p same same' same'' =
      kept-Steady w (record w { kernel = k; app = p }) (kept_nodes w k p same same' same'')

  -- The streams that the registrations name, those of a start and those of a stop, are there.
  pub watched_Present : (w : State machine) → AllWired w → Present machine w start_watches
  watched_Present w wired =
      let one = wired first_link in
      let two = wired second_link in
      let three = wired third_link in
      (
        (one.src, one.src_at),
        (
          (one.dst, one.dst_at),
          ((two.src, two.src_at), ((two.dst, two.dst_at), ((three.dst, three.dst_at), tt))),
        ),
      )

  -- With the table and the kernel as they are, epoll refuses one of the registrations.
  abbrev pub PumpsRefused : State machine → List Watch → Type 0
  PumpsRefused w watches =
      (p : Pipeline) × (p.fds ≡ w.app.fds) × RefusesOne machine (record w { app = p }) watches

  -- Once the nodes are started, epoll refuses a registration of `pipelineStart`.
  abbrev pub StartRefused : State machine → Type 0
  StartRefused w =
      (w1 : State machine) × (start_parts machine w node_order ≡ done (pos 0, w1))
      × PumpsRefused w1 start_watches
