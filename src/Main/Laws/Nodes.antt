-- ===== src/Main/Laws/Nodes.antt =====
-- Starting and stopping the nodes of the pipeline, in any order.
use malincam.Prelude.{
  ℤ, pos, is_zero, ◌≡◌, ◌≢◌, false, ap, refl, ◌∙◌, List, [], ◌∷◌, inl, inr, ◌⊎◌, arith, Bool-cases,
}
use malincam.Prelude.Outcome.{done}
use malincam.Node.{node_stop}
use malincam.Node.Steady.{node_start-Steady, node_stop-Steady, Steady-refl}
use malincam.Main.{Pipeline, Machine, Part, State, node_at, put_node}
use malincam.Main.Switch.{start_part, start_parts, stop_parts}
use malincam.Main.Laws.{
  SamePumps, SteadyNodes, AllReady, SteadyNodes-trans, SteadyNodes-AllReady, put_node-Steady,
  put_node-SamePumps,
}

SamePumps-trans : (a b c : Pipeline) → SamePumps a b → SamePumps b c → SamePumps a c
SamePumps-trans a b c (x1, x2, x3, x4, x5, x6) (y1, y2, y3, y4, y5, y6) =
    (y1 ∙ x1, y2 ∙ x2, y3 ∙ x3, y4 ∙ x4, y5 ∙ x5, y6 ∙ x6)

module _ (machine : Machine) where
  open machine use {platform}
  open platform.host use {driver}

  SteadyNodes-refl : (w : State machine) → SteadyNodes machine w w
  SteadyNodes-refl w part =
      (Steady-refl (node_at machine w part).input, Steady-refl (node_at machine w part).output)

  pub start_part_lem :
      (w : State machine) (part : Part)
      → AllReady machine w
      → (r : ℤ) × (w' : State machine) × (start_part machine w part ≡ done (r, w'))
        × SteadyNodes machine w w'
        × SamePumps w.app w'.app
  unfolding start_part
  start_part_lem w part ready =
      let (r, k, node, starts, steady) =
        node_start-Steady driver w.kernel (node_at machine w part) (ready part).0 (ready part).1 in
      (
        r,
        record (put_node machine w part node) { kernel = k },
        rw starts refl,
        put_node-Steady machine w part node k steady,
        put_node-SamePumps machine w part node,
      )

  -- `nodeStart` of a node failed, and what it left was the end.
  abbrev pub PartFails : State machine → State machine → Type 0
  PartFails w w' =
      (part : Part) × (before : State machine) × (r : ℤ) × SteadyNodes machine w before
      × (start_part machine before part ≡ done (r, w'))
      × (r ≢ pos 0)

  nonzero : (r : ℤ) → is_zero r ≡ false → r ≢ pos 0
  nonzero r failed zero_r = ground (arith, ap is_zero zero_r)

  PartFails-later :
      (w w1 w' : State machine) → SteadyNodes machine w w1 → PartFails w1 w' → PartFails w w'
  PartFails-later w w1 w' steady (part, before, r, steady', runs, failed) =
      (part, before, r, SteadyNodes-trans machine w w1 before steady steady', runs, failed)

  -- What starting nodes in an order gives: 0, or 1 where one fails, and nodes that differ in state
  -- alone.
  pub start_parts_lem :
      (parts : List Part) (w : State machine)
      → AllReady machine w
      → (r : ℤ) × (w' : State machine) × (start_parts machine w parts ≡ done (r, w'))
        × ((r ≡ pos 0) ⊎ ((r ≡ pos 1) × PartFails w w'))
        × SteadyNodes machine w w'
        × SamePumps w.app w'.app
  unfolding start_parts
  start_parts_lem [] w ready =
      (pos 0, w, refl, inl refl, SteadyNodes-refl w, (refl, refl, refl, refl, refl, refl))
  start_parts_lem (part ∷ rest) w ready =
      let (r, w1, starts, steady, same) = start_part_lem w part ready in
      elim (Bool-cases (is_zero r)) [
        | inr failed ↦ (
          pos 1,
          w1,
          ground (arith, starts),
          inr (refl, (part, w, r, SteadyNodes-refl w, starts, nonzero r failed)),
          steady,
          same,
        )
        | inl ok ↦
            let (r', w2, later, ends, steady', same') =
              start_parts_lem rest w1 (SteadyNodes-AllReady machine w w1 steady ready) in
            (
              r',
              w2,
              ground (arith, starts, later),
              elim ends [
                | inl ok' ↦ inl ok'
                | inr (one, fails) ↦ inr (one, PartFails-later w w1 w2 steady fails)
              ],
              SteadyNodes-trans machine w w1 w2 steady steady',
              SamePumps-trans w.app w1.app w2.app same same',
            )
      ]

  pub stop_parts_lem :
      (parts : List Part) (w : State machine)
      → SteadyNodes machine w (stop_parts machine w parts)
        × SamePumps w.app (stop_parts machine w parts).app
  unfolding stop_parts
  stop_parts_lem [] w = (SteadyNodes-refl w, (refl, refl, refl, refl, refl, refl))
  stop_parts_lem (part ∷ rest) w =
      let (r, k, node) = node_stop driver w.kernel (node_at machine w part) in
      let w1 : State machine = record (put_node machine w part node) { kernel = k } in
      let steady =
        put_node-Steady machine w part node k
          (node_stop-Steady driver w.kernel (node_at machine w part)) in
      let (steady', same') = stop_parts_lem rest w1 in
      (
        SteadyNodes-trans machine w w1 (stop_parts machine w1 rest) steady steady',
        SamePumps-trans w.app w1.app (stop_parts machine w1 rest).app
            (put_node-SamePumps machine w part node) same',
      )
