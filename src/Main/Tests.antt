-- ===== src/Main/Tests.antt =====
-- The pipeline at concrete inputs.
mod Streamoff
use malincam.Prelude.{ℕ, ℤ, pos, is_negative, ◌≡◌, ◌≢◌, refl, [], false, Option, none, some}
use malincam.Prelude.Outcome.{Outcome, done}
use malincam.V4l2.{video_capture, video_output}
use malincam.V4l2Control.{create_from_fd, control_get, control_set_by_id}
use malincam.Array
use malincam.Device.{memory_dmabuf_export, memory_dmabuf_import, DeviceStream, prepared}
use malincam.Device.Bench.{Bench, bench}
use malincam.Device.Bench.Streams.{filled_bench, test_stream, camera_buffers, encoder_buffers}
use malincam.Device.Open.{device_open, device_event_subscribe}
use malincam.Device.Open.Formats.{device_stream_query_formats}
use malincam.Device.Picture.{stream_get_format}
use malincam.Device.Buffers.{stream_request_buffers}
use malincam.Device.Stream.{device_stream_prepare}
use malincam.Subdev.{subdev_open}
use malincam.Subdev.Formats.{subdev_set}
use malincam.Platform.{try_control, pi_open_camera}
use malincam.Platform.Isp.{pi_open_isp}
use malincam.Platform.Encoder.{pi_open_encoder}
use malincam.Uvc.Open.{uvc_open}
use malincam.Uvc.Events.{prepare_opts}
use malincam.Pollinator.{failed, poll, monitor_fd, pollinator_create}
use malincam.Main.{Pipeline, State, Machine}
use malincam.Main.Setup.{pipeline_create}
use malincam.Main.Rounds.{wait_round, run_events, pipeline_process, main_loop}
use malincam.Main.Bench.{test_machine}
use malincam.Main.Laws.Running.{Running}
use malincam.Main.Laws.Rounds.{PollFails, main_loop-exits}
use malincam.Main.Laws.Setup.{NodesReady, pipeline_create-Ready}

-- Four nodes that are prepared, at descriptors of their own.
abbrev pub output_of : ℕ → DeviceStream
output_of fd = test_stream fd video_capture memory_dmabuf_export prepared 2 (some camera_buffers)

abbrev pub input_of : ℕ → DeviceStream
input_of fd = test_stream fd video_output memory_dmabuf_import prepared 2 (some encoder_buffers)

abbrev pub ready_pipeline : Pipeline
ready_pipeline = record {
  cam = record { input = none; output = some (output_of 11) };
  isp = record { input = some (input_of 12); output = some (output_of 13) };
  enc = record { input = some (input_of 14); output = some (output_of 15) };
  fds = [];
  cam_to_isp = none;
  isp_to_enc = none;
  enc_to_uvc = none;
  fd_bits = 0;
  led_enabled = 0;
  led_on = 0;
}

abbrev pub ready_state : State test_machine
ready_state = record {
  kernel = filled_bench;
  output = input_of 16;
  uvc = record { brightness = none; request_error_code = 0; data_phase_control = none };
  app = ready_pipeline;
}

-- A machine whose `epoll_wait` fails with EBADF, and the loop of `main` on it.
abbrev failing_machine : Machine
failing_machine = record test_machine {
  epoll = record test_machine.epoll { wait = λ k timeout. (failed 9, k) };
}

abbrev failing_state : State failing_machine
failing_state = record {
  kernel = filled_bench;
  output = input_of 16;
  uvc = ready_state.uvc;
  app = ready_pipeline;
}

abbrev left_by : Outcome (Option ℤ × State failing_machine) → Option ℤ × State failing_machine
left_by (done x) = x
left_by _ = (some (pos 0), failing_state)

abbrev loop_end : Option ℤ × State failing_machine
loop_end = left_by (main_loop failing_machine 3 1 failing_state)

loop_ends : main_loop failing_machine 3 1 failing_state ≡ done (loop_end.0, loop_end.1)
unfolding main_loop poll
loop_ends = refl

main_loop-exits_example : (loop_end.0 ≡ none) × PollFails failing_machine 1 loop_end.1
main_loop-exits_example =
    main_loop-exits failing_machine 3 1 failing_state loop_end.1 loop_end.0 loop_ends

-- What `pipelineCreate` left.
abbrev made : Outcome (Option (State test_machine) × Bench) → State test_machine × Bench
made (done (some w, k)) = (w, k)
made _ = (ready_state, filled_bench)

abbrev created : State test_machine × Bench
created = made (pipeline_create test_machine 1 filled_bench)

creates : pipeline_create test_machine 1 filled_bench ≡ done (some created.0, created.1)
unfolding pipeline_create pi_open_camera pi_open_isp pi_open_encoder uvc_open try_control
    subdev_open create_from_fd control_get Array.init control_set_by_id subdev_set device_open
    stream_get_format device_stream_query_formats device_stream_prepare stream_request_buffers
    device_event_subscribe monitor_fd pollinator_create
creates = refl

pipeline_create-Ready_example : NodesReady test_machine created.0.app
pipeline_create-Ready_example =
    pipeline_create-Ready test_machine 1 filled_bench created.1 created.0 creates

-- What `uvcPrepare` makes of the gadget's stream.
abbrev prepared_uvc : Outcome (ℤ × Bench × DeviceStream) → Bench × DeviceStream
prepared_uvc (done (r, k, st)) = (k, st)
prepared_uvc _ = (filled_bench, input_of 16)

abbrev uvc_left : Bench × DeviceStream
uvc_left = prepared_uvc (
    device_stream_prepare bench created.0.kernel created.0.output (prepare_opts test_machine.mjpeg))
