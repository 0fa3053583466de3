-- ===== src/Node/Laws.antt =====
-- What nodeStart and nodeStop leave behind.
use malincam.Prelude.{
  ℤ, pos, is_zero, ◌≡◌, ◌≢◌, refl, Bool, true, false, not, Option, none, some, arith, ◌⊎◌, inl, inr,
  ◌∙◌, ap, ◌&&◌,
}
use malincam.Prelude.Outcome.{done}
use malincam.Device.{DeviceStream}
use malincam.Device.Driver.{Driver}
use malincam.Device.Stream.{is_streaming}
use malincam.Device.Stream.Machine.{HasBuffers, device_stream_start_lem, device_stream_stop_lem}
use malincam.Node.{Node, start_stream, stop_stream, node_start, node_stop}

-- The node has a stream at that end, and it is streaming.
abbrev pub runs : Option DeviceStream → Bool
runs none = false
runs (some st) = is_streaming st.state

-- A stream that is there has the buffers that it counts.
abbrev pub Ready : Driver → Option DeviceStream → Type 0
Ready driver none = Unit {0}
Ready driver (some st) = HasBuffers driver st

abbrev pub is_absent : Option DeviceStream → Bool
is_absent none = true
is_absent (some st) = false

module _ (driver : Driver) where
  open driver use {Kernel}

  start_stream_lem :
      (k : Kernel) (end : Option DeviceStream)
      → Ready driver end
      → (r : ℤ) × (k' : Kernel) × (end' : Option DeviceStream) × (start_stream driver k end
          ≡ done (r, k', end'))
        × ((r ≡ pos 0) × (runs end' ≡ not (is_absent end)) × (runs end ≡ false)
            ⊎ ((r ≢ pos 0) × (end' ≡ end)))
  unfolding start_stream
  start_stream_lem k none ready = (pos 0, k, none, refl, inl (refl, refl, refl))
  start_stream_lem k (some st) ready =
      let (r, k', st', starts, ends) = device_stream_start_lem driver k st ready in
      (r, k', some st', ground (arith, starts), ground (arith, ends))

  stop_stream_lem :
      (k : Kernel) (end : Option DeviceStream)
      → is_zero (stop_stream driver k end).0 ≡ not (runs (stop_stream driver k end).2)
  unfolding stop_stream
  stop_stream_lem k none = refl
  stop_stream_lem k (some st) = (device_stream_stop_lem driver k st).0

  -- What `nodeStart` returned, and the node it left.
  abbrev pub StartEnds : Node → ℤ × Kernel × Node → Type 0
  StartEnds node (r, k', node') =
      ((r ≡ pos 0)
        × (runs node'.input ≡ not (is_absent node.input))
        × (runs node'.output ≡ not (is_absent node.output)))
      ⊎ ((r ≢ pos 0)
          × (node'.input ≡ node.input)
          × ((node'.output ≡ node.output)
              ⊎ ((runs node.output ≡ false)
                  × ((k1 : Kernel) × (started : Option DeviceStream) × (runs started
                        ≡ not (is_absent node.output))
                      × (k' ≡ (stop_stream driver k1 started).1)
                      × (node'.output ≡ (stop_stream driver k1 started).2)))))

  behind_output :
      (node : Node) (k1 : Kernel) (output : Option DeviceStream)
      → Ready driver node.input
      → runs output ≡ not (is_absent node.output)
      → runs node.output ≡ false
      → (k : Kernel) → start_stream driver k node.output ≡ done (pos 0, k1, output)
      → (r : ℤ × Kernel × Node) × (node_start driver k node ≡ done r) × StartEnds node r
  unfolding node_start
  behind_output node k1 output ready on off k starts =
      let (r, k2, input, starts', ends) = start_stream_lem k1 node.input ready in
      elim ends [
        | inl (ok, in_runs, was) ↦ (
          (pos 0, k2, record { input = input; output = output }),
          ground arith,
          inl (refl, in_runs, on),
        )
        | inr (failed, same) ↦
            let stopped = stop_stream driver k2 output in
            (
              (r, stopped.1, record { input = input; output = stopped.2 }),
              ground arith,
              inr (failed, same, inr (off, (k2, output, on, refl, refl))),
            )
      ]

  -- `nodeStart` of a node whose streams have the buffers they count returns. It returns 0 only with
  -- every stream of the node streaming. On an error the input stream is as it was, and the output
  -- stream either is as it was or was started, and is left as deviceStreamStop then leaves it.
  pub node_start_lem :
      (k : Kernel) (node : Node)
      → Ready driver node.input
      → Ready driver node.output
      → (r : ℤ × Kernel × Node) × (node_start driver k node ≡ done r) × StartEnds node r
  unfolding node_start
  node_start_lem k node in_ready out_ready =
      let (r, k1, output, starts, ends) = start_stream_lem k node.output out_ready in
      elim ends [
        | inl (ok, on, off) ↦
            behind_output node k1 output in_ready on off k
              (starts ∙ ap (λ z. done (z, k1, output)) ok)
        | inr (failed, same) ↦
            ((r, k1, record node { output = output }), ground arith, inr (failed, refl, inl same))
      ]

  -- `nodeStop` tries both streams, the output first, whatever the first answers, and leaves each as
  -- `deviceStreamStop` does. It returns 0 exactly if neither is then streaming, and else what the
  -- first of the two that failed returned.
  pub node_stop_lem :
      (k : Kernel) (node : Node)
      → let (r, k', node') = node_stop driver k node in
        let (r1, k1, output) = stop_stream driver k node.output in
        let (r2, k2, input) = stop_stream driver k1 node.input in
        (is_zero r ≡ not (runs node'.output) && not (runs node'.input))
        × ((node'.output ≡ output) × (node'.input ≡ input) × (k' ≡ k2))
        × ((runs output ≡ true → r ≡ r1) × (runs output ≡ false → r ≡ r2))
  unfolding node_stop
  node_stop_lem k node =
      let first = stop_stream_lem k node.output in
      let second = stop_stream_lem (stop_stream driver k node.output).1 node.input in
      (ground arith, (refl, refl, refl), ((λ on. ground arith), λ off. ground arith))
