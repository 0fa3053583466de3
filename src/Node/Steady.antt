-- ===== src/Node/Steady.antt =====
-- What starting and stopping a node leaves alone: of each stream, all but its state.
use malincam.Prelude.{
  ℤ, pos, is_zero, ◌≡◌, refl, ◌∙◌, ap, sym, Option, none, some, arith, inl, inr, Bool-cases,
}
use mathlib.Core.Path.{subst}
use malincam.Prelude.Outcome.{done}
use malincam.Device.{DeviceStream, StreamState, prepared, streaming}
use malincam.Device.Driver.{Driver}
use malincam.Device.Stream.Machine.{HasBuffers, device_stream_start_lem, device_stream_stop_lem}
use malincam.Node.{Node, start_stream, stop_stream, node_start, node_stop}
use malincam.Node.Laws.{Ready}

abbrev pub restate : DeviceStream → StreamState → DeviceStream
restate st s = record st { state = s }

restated :
    (st : DeviceStream) {st' : DeviceStream} (s : StreamState)
    → st' ≡ restate st s
    → st' ≡ restate st st'.state
restated st s same = same ∙ ap (restate st) (sym (ap (λ x. x.state) same))

-- The second stream is the first, in another state.
abbrev pub Steady : Option DeviceStream → Option DeviceStream → Type 0
Steady none none = Unit
Steady (some st) (some st') = st' ≡ restate st st'.state
Steady none (some st') = ⊥
Steady (some st) none = ⊥

abbrev pub SteadyNode : Node → Node → Type 0
SteadyNode node node' = Steady node.input node'.input × Steady node.output node'.output

pub Steady-refl : (end : Option DeviceStream) → Steady end end
Steady-refl none = tt
Steady-refl (some st) = refl

pub Steady-trans : (a b c : Option DeviceStream) → Steady a b → Steady b c → Steady a c
Steady-trans none none none ab bc = tt
Steady-trans (some a) (some b) (some c) ab bc = bc ∙ ap (λ x. restate x c.state) ab
Steady-trans none (some b) c ab bc = absurd ab
Steady-trans (some a) none c ab bc = absurd ab
Steady-trans none none (some c) ab bc = absurd bc
Steady-trans (some a) (some b) none ab bc = absurd bc

module _ (driver : Driver) where
  open driver use {Kernel}

  -- A stream keeps its buffers.
  pub Steady-Ready :
      (end end' : Option DeviceStream) → Steady end end' → Ready driver end → Ready driver end'
  Steady-Ready none none steady ready = tt
  Steady-Ready (some st) (some st') steady ready = subst (HasBuffers driver) (sym steady) ready
  Steady-Ready none (some st') steady ready = absurd steady
  Steady-Ready (some st) none steady ready = absurd steady

  start_stream-Steady :
      (k : Kernel) (end : Option DeviceStream)
      → Ready driver end
      → (r : ℤ) × (k' : Kernel) × (end' : Option DeviceStream) × (start_stream driver k end
          ≡ done (r, k', end'))
        × Steady end end'
  unfolding start_stream
  start_stream-Steady k none ready = (pos 0, k, none, refl, tt)
  start_stream-Steady k (some st) ready =
      let (r, k', st', starts, ends) = device_stream_start_lem driver k st ready in
      elim ends [
        | inl (ok, was, same) ↦
            (r, k', some st', ground (arith, starts), restated st streaming same)
        | inr (failed, same) ↦ (r, k', some st', ground (arith, starts), restated st st.state same)
      ]

  pub stop_stream-Steady :
      (k : Kernel) (end : Option DeviceStream) → Steady end (stop_stream driver k end).2
  unfolding stop_stream
  stop_stream-Steady k none = tt
  stop_stream-Steady k (some st) = elim (device_stream_stop_lem driver k st).1 [
    | inl same ↦ restated st st.state same
    | inr (was, same) ↦ restated st prepared same
  ]

  pub node_start-Steady :
      (k : Kernel) (node : Node)
      → Ready driver node.input
      → Ready driver node.output
      → (r : ℤ) × (k' : Kernel) × (node' : Node) × (node_start driver k node ≡ done (r, k', node'))
        × SteadyNode node node'
  unfolding node_start
  node_start-Steady k node in_ready out_ready =
      let (r, k1, output, starts, steady) = start_stream-Steady k node.output out_ready in
      elim (Bool-cases (is_zero r)) [
        | inr failed ↦ (
          r,
          k1,
          record node { output = output },
          ground (arith, starts),
          (Steady-refl node.input, steady),
        )
        | inl ok ↦
            let (r', k2, input, starts', steady') = start_stream-Steady k1 node.input in_ready in
            elim (Bool-cases (is_zero r')) [
              | inl ok' ↦ (
                pos 0,
                k2,
                record { input = input; output = output },
                ground (arith, starts, starts'),
                (steady', steady),
              )
              | inr failed ↦
                  let stopped = stop_stream driver k2 output in
                  (
                    r',
                    stopped.1,
                    record { input = input; output = stopped.2 },
                    ground (arith, starts, starts'),
                    (
                      steady',
                      Steady-trans node.output output stopped.2 steady
                          (stop_stream-Steady k2 output),
                    ),
                  )
            ]
      ]

  pub node_stop-Steady : (k : Kernel) (node : Node) → SteadyNode node (node_stop driver k node).2
  unfolding node_stop
  node_stop-Steady k node = (
    stop_stream-Steady (stop_stream driver k node.output).1 node.input,
    stop_stream-Steady k node.output,
  )
