-- ===== src/Platform/Tests.antt =====
-- Opening the platform, on the kernel in memory.
use malincam.Prelude.{◌≡◌, refl, [], Option, some}
use malincam.Prelude.Outcome.{Outcome, done}
use malincam.Device.{memory_dmabuf_export, memory_dmabuf_import}
use malincam.Device.Bench.{Bench, bench}
use malincam.Device.Bench.Streams.{filled_bench}
use malincam.Device.Open.{Device, zero_stream, device_open}
use malincam.Device.Open.Formats.{device_stream_query_formats}
use malincam.Device.Picture.{stream_get_format}
use malincam.Device.Buffers.{stream_request_buffers}
use malincam.Device.Stream.{device_stream_prepare}
use malincam.Device.Stream.Memory.{IsPrepared}
use malincam.V4l2Control.{V4l2Controls, create_from_fd, control_get, control_set_by_id}
use malincam.Array
use malincam.Subdev.{subdev_open}
use malincam.Subdev.Formats.{subdev_set}
use malincam.Platform.{PiCamera, pi_open_camera, try_control}
use malincam.Platform.Isp.{PiIsp, pi_open_isp}
use malincam.Platform.Encoder.{PiEncoder, h264, pi_open_encoder}
use malincam.Platform.Bench.{test_platform}
use malincam.Platform.Encoder.Ready.{pi_open_encoder-Ready}

-- What an opening left, or else what is given.
abbrev opened {ℓ} : {A : Type ℓ} → A → Outcome (Option A × Bench) → A × Bench
opened other (done (some a, k)) = (a, k)
opened other _ = (other, filled_bench)

abbrev no_controls : V4l2Controls
no_controls = record { fd = 0; controls = [] }

abbrev no_device : Device
no_device = record {
  fd = 0;
  this_device_caps = 0;
  controls = no_controls;
  capture = zero_stream 64;
  output = zero_stream 64;
}

abbrev camera_run : Outcome (Option PiCamera × Bench)
camera_run = pi_open_camera test_platform 1 filled_bench

abbrev camera_left : PiCamera × Bench
camera_left =
    opened
      (record { sensor = record { fd = 0; pads = []; controls = no_controls }; camera = no_device })
      camera_run

camera_opens : camera_run ≡ done (some camera_left.0, camera_left.1)
unfolding pi_open_camera subdev_open create_from_fd control_get Array.init control_set_by_id
    subdev_set device_open stream_get_format device_stream_query_formats device_stream_prepare
    stream_request_buffers
camera_opens = refl

abbrev isp_run : Outcome (Option PiIsp × Bench)
isp_run = pi_open_isp test_platform 1 filled_bench

abbrev isp_left : PiIsp × Bench
isp_left = opened (record { capture = no_device; output = no_device }) isp_run

isp_opens : isp_run ≡ done (some isp_left.0, isp_left.1)
unfolding pi_open_isp try_control create_from_fd control_get Array.init control_set_by_id
    device_open stream_get_format device_stream_query_formats device_stream_prepare
    stream_request_buffers
isp_opens = refl

abbrev encoder_run : Outcome (Option PiEncoder × Bench)
encoder_run = pi_open_encoder test_platform 1 filled_bench h264

abbrev encoder_left : PiEncoder × Bench
encoder_left = opened (record { encoder = no_device }) encoder_run

encoder_opens : encoder_run ≡ done (some encoder_left.0, encoder_left.1)
unfolding pi_open_encoder create_from_fd control_get Array.init control_set_by_id device_open
    stream_get_format device_stream_query_formats device_stream_prepare stream_request_buffers
encoder_opens = refl

pi_open_encoder-Ready_example :
    IsPrepared bench memory_dmabuf_import encoder_left.0.encoder.output
    × IsPrepared bench memory_dmabuf_export encoder_left.0.encoder.capture
pi_open_encoder-Ready_example =
    pi_open_encoder-Ready test_platform 1 filled_bench encoder_left.1 h264 encoder_left.0
      encoder_opens
