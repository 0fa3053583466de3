-- ===== src/Main/Laws/Running.antt =====
-- The nodes that `pipelineStart` started are streaming.
use malincam.Prelude.{
  zero, suc, negsuc, ℤ, pos, is_zero, ◌≡◌, refl, sym, ◌∙◌, ap, Bool, true, false, not, Option, none,
  some, List, [], ◌∷◌, inl, inr, arith,
}
use mathlib.Core.Path.{subst}
use malincam.Prelude.Outcome.{done}
use malincam.Prelude.Yields.{Yields, Yields-done, Yields-bind, Yields-test, Yields-of}
use malincam.Device.{DeviceStream}
use malincam.Node.{Node, node_start}
use malincam.Node.Laws.{Ready, runs, is_absent, node_start_lem}
use malincam.Node.Steady.{Steady, SteadyNode, node_start-Steady}
use malincam.Main.{
  or_else, Machine, Part, camera, processor, encoder, gadget, State, node_at, put_node,
}
use malincam.Main.Switch.{node_order, start_part, start_parts}
use malincam.Main.Laws.{SteadyNodes, AllReady, SteadyNodes-AllReady}
use malincam.Main.Laws.Nodes.{start_part_lem}

-- Each stream that the node has is streaming.
abbrev pub Running : Node → Type 0
Running node =
    (runs node.input ≡ not (is_absent node.input))
    × (runs node.output ≡ not (is_absent node.output))

Steady-is_absent :
    (end end' : Option DeviceStream) → Steady end end' → is_absent end ≡ is_absent end'
Steady-is_absent none none steady = refl
Steady-is_absent (some st) (some st') steady = refl
Steady-is_absent none (some st') steady = absurd steady
Steady-is_absent (some st) none steady = absurd steady

abbrev same_part : Part → Part → Bool
same_part camera camera = true
same_part processor processor = true
same_part encoder encoder = true
same_part gadget gadget = true
same_part _ _ = false

is_zero-eq : (r : ℤ) → is_zero r ≡ true → r ≡ pos 0
is_zero-eq (pos zero) ok = refl
is_zero-eq (pos (suc n)) ok = absurd (ground arith)
is_zero-eq (negsuc n) ok = absurd (ground arith)

-- None of the parts is the part.
abbrev Apart : Part → List Part → Type 0
Apart p [] = Unit
Apart p (q ∷ rest) = (same_part q p ≡ false) × Apart p rest

abbrev Distinct : List Part → Type 0
Distinct [] = Unit
Distinct (p ∷ rest) = Apart p rest × Distinct rest

node_order-Distinct : Distinct node_order
node_order-Distinct = ((refl, (refl, (refl, tt))), ((refl, (refl, tt)), ((refl, tt), (tt, tt))))

uvc_runs :
    (st : DeviceStream) (end : Option DeviceStream)
    → Steady (some st) end
    → runs end ≡ not (is_absent end)
    → runs (some (or_else end st)) ≡ true
uvc_runs st none steady running = absurd steady
uvc_runs st (some st') steady running = running

module _ (machine : Machine) where
  open machine use {platform}
  open platform.host use {driver}
  open driver use {Kernel}

  -- What `nodeStart` gives of a node that is ready, if it returns 0.
  node_start-Running :
      (k k' : Kernel) (node node' : Node) (r : ℤ)
      → Ready driver node.input
      → Ready driver node.output
      → node_start driver k node ≡ done (r, k', node')
      → is_zero r ≡ true
      → Running node' × SteadyNode node node'
  node_start-Running k k' node node' r in_ready out_ready starts ok =
      let ((r1, k1, node1), starts1, ends) = node_start_lem driver k node in_ready out_ready in
      let (r2, k2, node2, starts2, steady) = node_start-Steady driver k node in_ready out_ready in
      let same1 : node1 ≡ node' = cc (starts, starts1) in
      let same2 : node2 ≡ node' = cc (starts, starts2) in
      let zero_r : r1 ≡ r = cc (starts, starts1) in
      let steady' : SteadyNode node node' = subst (SteadyNode node) same2 steady in
      elim ends [
        | inr (failed, kept, left) ↦ absurd (failed (is_zero-eq r1 (ap is_zero zero_r ∙ ok)))
        | inl (fine, in_runs, out_runs) ↦ (
          (
            ap (λ (z : Node). runs z.input) (sym same1)
                ∙ (in_runs ∙ ap not (Steady-is_absent node.input node'.input steady'.0)),
            ap (λ (z : Node). runs z.output) (sym same1)
                ∙ (out_runs ∙ ap not (Steady-is_absent node.output node'.output steady'.1)),
          ),
          steady',
        )
      ]

  put_node-other :
      (w : State machine) (q p : Part) (node : Node) (k : Kernel)
      → same_part q p ≡ false
      → node_at machine (record (put_node machine w q node) { kernel = k }) p ≡ node_at machine w p
  put_node-other w camera camera node k apart = absurd (ground arith)
  put_node-other w camera processor node k apart = refl
  put_node-other w camera encoder node k apart = refl
  put_node-other w camera gadget node k apart = refl
  put_node-other w processor camera node k apart = refl
  put_node-other w processor processor node k apart = absurd (ground arith)
  put_node-other w processor encoder node k apart = refl
  put_node-other w processor gadget node k apart = refl
  put_node-other w encoder camera node k apart = refl
  put_node-other w encoder processor node k apart = refl
  put_node-other w encoder encoder node k apart = absurd (ground arith)
  put_node-other w encoder gadget node k apart = refl
  put_node-other w gadget camera node k apart = refl
  put_node-other w gadget processor node k apart = refl
  put_node-other w gadget encoder node k apart = refl
  put_node-other w gadget gadget node k apart = absurd (ground arith)

  -- The node that was written, once it is read again.
  put_node-Running :
      (w : State machine) (part : Part) (node : Node) (k : Kernel)
      → SteadyNode (node_at machine w part) node
      → Running node
      → Running (node_at machine (record (put_node machine w part node) { kernel = k }) part)
  put_node-Running w camera node k steady running = running
  put_node-Running w processor node k steady running = running
  put_node-Running w encoder node k steady running = running
  put_node-Running w gadget node k steady running =
      (uvc_runs w.output node.input steady.0 running.0, refl)

  start_part-Running :
      (w : State machine) (part : Part)
      → AllReady machine w
      → Yields
          (λ x. is_zero x.0 ≡ true → Running (node_at machine x.1 part))
          (start_part machine w part)
  unfolding start_part
  start_part-Running w part ready =
      Yields-bind _ (node_start driver w.kernel (node_at machine w part)) _ (λ (r, k, node) starts.
        Yields-done _ (r, record (put_node machine w part node) { kernel = k })
          (λ ok.
            let (running, steady) =
              node_start-Running w.kernel k (node_at machine w part) node r (ready part).0
                (ready part).1 starts ok in
            put_node-Running w part node k steady running))

  start_part-other :
      (w : State machine) (q p : Part)
      → same_part q p ≡ false
      → Yields (λ x. node_at machine x.1 p ≡ node_at machine w p) (start_part machine w q)
  unfolding start_part
  start_part-other w q p apart =
      Yields-bind _ (node_start driver w.kernel (node_at machine w q)) _ (λ (r, k, node) starts.
        Yields-done _ (r, record (put_node machine w q node) { kernel = k })
          (put_node-other w q p node k apart))

  start_parts-other :
      (parts : List Part) (w : State machine) (p : Part)
      → Apart p parts
      → Yields (λ x. node_at machine x.1 p ≡ node_at machine w p) (start_parts machine w parts)
  unfolding start_parts
  start_parts-other [] w p apart = Yields-done _ (pos 0, w) refl
  start_parts-other (q ∷ rest) w p (here, later) =
      let Same : ℤ × State machine → Type 0 = λ x. node_at machine x.1 p ≡ node_at machine w p in
      Yields-bind Same (start_part machine w q) _ (λ (r, w1) starts.
        let same = start_part-other w q p here (r, w1) starts in
        Yields-test Same (is_zero r) _ _
          (λ ok x runs_on. start_parts-other rest w1 p later x runs_on ∙ same)
          (Yields-done Same (pos 1, w1) same))

  abbrev pub EachRunning : List Part → State machine → Type 0
  EachRunning [] w = Unit
  EachRunning (p ∷ rest) w = Running (node_at machine w p) × EachRunning rest w

  start_part-Steady :
      (w : State machine) (part : Part)
      → AllReady machine w
      → Yields (λ x. SteadyNodes machine w x.1) (start_part machine w part)
  start_part-Steady w part ready =
      let (r, w', starts, steady, same) = start_part_lem machine w part ready in
      Yields-of _ (start_part machine w part) (r, w') starts steady

  -- Starting distinct nodes, each ready, with 0 leaves every one of them streaming.
  pub start_parts-Running :
      (parts : List Part) (w : State machine)
      → AllReady machine w
      → Distinct parts
      → Yields (λ x. is_zero x.0 ≡ true → EachRunning parts x.1) (start_parts machine w parts)
  unfolding start_parts
  start_parts-Running [] w ready distinct = Yields-done _ (pos 0, w) (λ ok. tt)
  start_parts-Running (p ∷ rest) w ready (apart, distinct) =
      let Goal : ℤ × State machine → Type 0 =
        λ x. is_zero x.0 ≡ true → EachRunning (p ∷ rest) x.1 in
      Yields-bind Goal (start_part machine w p) _ (λ (r, w1) starts.
        let ready1 =
          SteadyNodes-AllReady machine w w1 (start_part-Steady w p ready (r, w1) starts) ready in
        Yields-test Goal (is_zero r) _ _
          (λ ok x runs_on good. (
            subst Running (sym (start_parts-other rest w1 p apart x runs_on))
                (start_part-Running w p ready (r, w1) starts ok),
            start_parts-Running rest w1 ready1 distinct x runs_on good,
          ))
          (Yields-done Goal (pos 1, w1) (λ bad. absurd (ground arith))))

  each_part :
      (w : State machine)
      → EachRunning node_order w
      → (part : Part) → Running (node_at machine w part)
  each_part w (uvc, (enc, (isp, (cam, end)))) camera = cam
  each_part w (uvc, (enc, (isp, (cam, end)))) processor = isp
  each_part w (uvc, (enc, (isp, (cam, end)))) encoder = enc
  each_part w (uvc, (enc, (isp, (cam, end)))) gadget = uvc

  pub all_started :
      (w w' : State machine)
      → AllReady machine w
      → start_parts machine w node_order ≡ done (pos 0, w')
      → (part : Part) → Running (node_at machine w' part)
  all_started w w' ready starts =
      each_part w'
        (start_parts-Running node_order w ready node_order-Distinct (pos 0, w') starts refl)
