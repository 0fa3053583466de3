-- ===== src/Node/Tests.antt =====
-- Nodes at concrete inputs, on a kernel in memory.
use malincam.Prelude.{ℤ, true, false, is_zero, ◌≡◌, not, ◌&&◌, some, arith}
use malincam.Prelude.Outcome.{done}
use malincam.V4l2.{video_capture, video_output}
use malincam.Device.{memory_mmap, memory_userptr, idle, prepared}
use malincam.Device.Bench.{Bench, bench}
use malincam.Device.Bench.Streams.{filled_bench, test_stream, camera_buffers, encoder_buffers}
use malincam.Node.{Node, node_start, node_stop, stop_stream}
use malincam.Node.Laws.{runs, StartEnds, node_start_lem, node_stop_lem}

-- An encoder whose input was never prepared.
abbrev half_ready : Node
half_ready = record {
  input = some (test_stream 4 video_output memory_userptr idle 2 (some encoder_buffers));
  output = some (test_stream 5 video_capture memory_mmap prepared 2 (some camera_buffers));
}

node_start_lem_example :
    (r : ℤ × Bench × Node) × (node_start bench filled_bench half_ready ≡ done r)
    × StartEnds bench half_ready r
node_start_lem_example = node_start_lem bench filled_bench half_ready (omega arith) (omega arith)

node_stop_lem_example :
    let (r, k', node') = node_stop bench filled_bench half_ready in
    let (r1, k1, output) = stop_stream bench filled_bench half_ready.output in
    let (r2, k2, input) = stop_stream bench k1 half_ready.input in
    (is_zero r ≡ not (runs node'.output) && not (runs node'.input))
    × ((node'.output ≡ output) × (node'.input ≡ input) × (k' ≡ k2))
    × ((runs output ≡ true → r ≡ r1) × (runs output ≡ false → r ≡ r2))
node_stop_lem_example = node_stop_lem bench filled_bench half_ready
