-- ===== src/Device/Tests.antt =====
-- Streams at concrete inputs, on a kernel in memory.
use malincam.Prelude.{
  ℤ, pos, minus, is_zero, ◌≡◌, ◌≢◌, refl, true, false, not, none, some, arith, ◌⊎◌,
}
use malincam.Prelude.Outcome.{Outcome, done}
use malincam.Abi.{ebusy}
use malincam.V4l2.{video_capture}
use malincam.Device.{DeviceStream, PrepareOpts, memory_mmap, idle, prepared, streaming}
use malincam.Device.Bench.{Bench, bench}
use malincam.Device.Bench.Streams.{filled_bench, test_stream, camera, camera_buffers}
use malincam.Device.Buffers.{stream_request_buffers}
use malincam.Device.Stream.{
  is_streaming, device_stream_prepare, device_stream_start, device_stream_stop,
}
use malincam.Device.Stream.Machine.{HasBuffers, device_stream_start_lem, device_stream_stop_lem}
use malincam.Device.Stream.Again.{Alike, Formats, prepare_again, prepare_succeeds}

abbrev ready_stream : DeviceStream
ready_stream = test_stream 5 video_capture memory_mmap prepared 2 (some camera_buffers)

abbrev new_stream : DeviceStream
new_stream = test_stream 5 video_capture memory_mmap idle 0 none

device_stream_start_lem_example :
    (r : ℤ) × (k' : Bench) × (st' : DeviceStream) × (device_stream_start bench filled_bench
        ready_stream
      ≡ done (r, k', st'))
    × ((r ≡ pos 0)
          × (ready_stream.state ≡ prepared)
          × (st' ≡ record ready_stream { state = streaming })
        ⊎ ((r ≢ pos 0) × (st' ≡ ready_stream)))
device_stream_start_lem_example =
    device_stream_start_lem bench filled_bench ready_stream (omega arith)

device_stream_stop_lem_example :
    (is_zero (device_stream_stop bench filled_bench camera).0
      ≡ not (is_streaming (device_stream_stop bench filled_bench camera).2.state))
    × (((device_stream_stop bench filled_bench camera).2 ≡ camera)
        ⊎ ((camera.state ≡ streaming)
            × ((device_stream_stop bench filled_bench camera).2
                ≡ record camera { state = prepared })))
device_stream_stop_lem_example = device_stream_stop_lem bench filled_bench camera

abbrev test_opts : PrepareOpts
test_opts = record {
  buffer_memory = memory_mmap;
  buffers_count = 3;
  pixelformat = 7;
  width = 640;
  height = 480;
  crop_width = 0;
  crop_height = 0;
}

-- What a run left.
abbrev left : Outcome (ℤ × Bench × DeviceStream) → Bench × DeviceStream
left (done (r, k, st)) = (k, st)
left _ = (filled_bench, new_stream)

prepares :
    device_stream_prepare bench filled_bench new_stream test_opts
    ≡ done (
      pos 0,
      (left (device_stream_prepare bench filled_bench new_stream test_opts)).0,
      (left (device_stream_prepare bench filled_bench new_stream test_opts)).1,
    )
unfolding device_stream_prepare stream_request_buffers
prepares = refl

prepares_again :
    device_stream_prepare bench filled_bench ready_stream test_opts
    ≡ done (
      minus 2,
      (left (device_stream_prepare bench filled_bench ready_stream test_opts)).0,
      (left (device_stream_prepare bench filled_bench ready_stream test_opts)).1,
    )
unfolding device_stream_prepare stream_request_buffers
prepares_again = refl

prepare_succeeds_example :
    (is_streaming new_stream.state ≡ false)
    × (new_stream.buffers ≡ none)
    × ((left (device_stream_prepare bench filled_bench new_stream test_opts)).1.state ≡ prepared)
    × HasBuffers bench (left (device_stream_prepare bench filled_bench new_stream test_opts)).1
prepare_succeeds_example =
    prepare_succeeds bench filled_bench new_stream test_opts
      (left (device_stream_prepare bench filled_bench new_stream test_opts)).0
      (left (device_stream_prepare bench filled_bench new_stream test_opts)).1 prepares

prepare_again_example :
    let (k', st') = left (device_stream_prepare bench filled_bench ready_stream test_opts) in
    Alike ready_stream st'
    × ((is_streaming ready_stream.state ≡ true)
          × (minus 2 ≡ minus ebusy)
          × (st' ≡ ready_stream)
          × (k' ≡ filled_bench)
        ⊎ ((is_streaming ready_stream.state ≡ false)
            × ((minus 2 ≡ minus 1) × Formats bench false filled_bench ready_stream test_opts
                ⊎ ((minus 2 ≡ minus 2)
                    × Formats bench true filled_bench ready_stream test_opts
                    × (st'.buffers_count ≡ 3)))))
prepare_again_example =
    prepare_again bench filled_bench ready_stream test_opts camera_buffers (minus 2)
      (left (device_stream_prepare bench filled_bench ready_stream test_opts)).0
      (left (device_stream_prepare bench filled_bench ready_stream test_opts)).1 refl prepares_again
