-- ===== src/Platform.antt =====
-- Pilatform.c: opening and setting up the camera of a Raspberry Pi. The children model its image
-- processor and its encoder.
pub mod Numbers
pub mod Isp
pub mod Encoder
pub mod Bench
pub mod Laws
mod Tests
use malincam.Prelude.{
  ℕ, ℤ, pos, negsuc, is_zero, ◌==◌, Bool, true, false, Option, none, some, get_elem?,
}
use malincam.Prelude.Outcome.{Outcome, done, fault, ◌>>=◌}
use malincam.V4l2.{zero_rect}
use malincam.V4l2Control.{V4l2Controls, control_get, control_set_by_id}
use malincam.Device.{
  DeviceStream, PrepareOpts, BufferMemory, memory_dmabuf_export, memory_dmabuf_import,
}
use malincam.Device.Open.{Host, Device, device_open, device_close}
use malincam.Device.Open.Formats.{device_stream_query_formats}
use malincam.Device.Stream.{device_stream_prepare}
use malincam.Node.{Node}
use malincam.Subdev.{Subdev, SubdevPad, SubdevDriver, subdev_open, subdev_close}
use malincam.Subdev.Formats.{SubdevSet, subdev_set}
use malincam.Platform.Numbers.{
  sensor_width, sensor_height, sensor_busfmt, camera_pixfmt, isp_crop_width, isp_crop_height,
  isp_output_pixfmt, cid_camera_sensor_rotation, cid_hflip, cid_vflip, cid_analogue_gain,
  cid_red_balance, cid_blue_balance, cid_digital_gain, is_half_turn,
}

-- The names of the device nodes: "/dev/v4l-subdev0", "/dev/video0", DEBAYER_ISP_OUT_DEV,
-- DEBAYER_ISP_CAP_DEV, ENCODER_DEV and JPEG_ENCODER_DEV.
pub record NodeNames (Name : Type 0) : Type 0 where
  pub sensor_node : Name
  pub camera_node : Name
  pub isp_out_node : Name
  pub isp_cap_node : Name
  pub encoder_node : Name
  pub jpeg_encoder_node : Name

-- The machine, its subdevices, its names, and what `malloc` finds in memory.
pub record Platform : Type 1 where
  pub host : Host
  pub subdevs : SubdevDriver host.driver.Kernel
  pub names : NodeNames host.Name
  pub garbage : SubdevPad

-- `PiCamera`
pub record PiCamera : Type 0 where
  pub sensor : Subdev
  pub camera : Device

-- The `Node` inside: its streams are those of the devices.
abbrev pub node_of_camera : PiCamera → Node
node_of_camera cam = record { input = none; output = some cam.camera.capture }

-- Options with no crop.
abbrev pub opts_of : BufferMemory → ℕ → ℕ → ℕ → PrepareOpts
opts_of mem pixelformat width height = record {
  buffer_memory = mem;
  buffers_count = 3;
  pixelformat = pixelformat;
  width = width;
  height = height;
  crop_width = 0;
  crop_height = 0;
}

abbrev pub camera_capture_opts : PrepareOpts
camera_capture_opts = opts_of memory_dmabuf_export camera_pixfmt sensor_width sensor_height

abbrev pub sensor_set : SubdevSet
sensor_set = record {
  pad = pos 0;
  mbus_code = sensor_busfmt;
  width = sensor_width;
  height = sensor_height;
  out_crop = zero_rect;
}

module _ (platform : Platform) where
  open platform use {host, subdevs, names, garbage}
  open host use {driver, control_driver}
  open driver use {Kernel}

  -- A call of `v4l2ControlSetById`, whose value is dropped.
  unfoldable pub try_control : Kernel → V4l2Controls → ℕ → ℤ → Outcome (V4l2Controls × Kernel)
  try_control k controls id value = do
    (result, k', set) ← control_set_by_id Kernel control_driver k controls id value
    done (set, k')

  -- `piOpenCamera`, the flip of the sensor: only a rotation of 180 is acted on.
  unfoldable pub flip_sensor : Kernel → V4l2Controls → Outcome (V4l2Controls × Kernel)
  unfolding try_control
  flip_sensor k controls = elim (control_get controls cid_camera_sensor_rotation) [
    | none ↦ done (controls, k)
    | some i ↦ elim (get_elem? controls.controls i) [
      | none ↦ fault
      | some rotation ↦ elim (is_half_turn rotation.value) [
        | false ↦ done (controls, k)
        | true ↦ do
          (one, k1) ← try_control k controls cid_hflip (pos 1)
          try_control k1 one cid_vflip (pos 1)
      ]
    ]
  ]

  -- The label `fail` of `piOpenCamera`.
  unfoldable pub fail_camera : Kernel → Subdev → Option Device → Outcome (Option PiCamera × Kernel)
  fail_camera k sensor camera = do
    k' ← device_close host (subdev_close host k (some sensor)) camera
    done (none, k')

  -- `piOpenCamera`, its second part, with the sensor set up.
  unfoldable pub open_camera_device : ℕ → Kernel → Subdev → ℕ → Outcome (Option PiCamera × Kernel)
  unfolding fail_camera
  open_camera_device fuel k sensor mbus_code = do
    (opened, k1) ← device_open host fuel k names.camera_node
    elim opened [
      | none ↦ fail_camera k1 sensor none
      | some camera ↦ do
        (queried, k2, listed) ←
            device_stream_query_formats host fuel fuel k1 camera.capture mbus_code
        elim (is_zero queried) [
          | false ↦ fail_camera k2 sensor (some (record camera { capture = listed }))
          | true ↦ do
            (result, k3, ready) ← device_stream_prepare driver k2 listed camera_capture_opts
            elim (is_zero result) [
              | false ↦ fail_camera k3 sensor (some (record camera { capture = ready }))
              | true ↦ done (
                some (record { sensor = sensor; camera = record camera { capture = ready } }),
                k3,
              )
            ]
        ]
    ]

  -- `piOpenCamera`; `none` is NULL.
  unfoldable pub pi_open_camera : ℕ → Kernel → Outcome (Option PiCamera × Kernel)
  unfolding flip_sensor open_camera_device
  pi_open_camera fuel k = do
    (opened, k1) ← subdev_open host subdevs garbage fuel k names.sensor_node 2
    elim opened [
      | none ↦ done (none, k1)
      | some found ↦ do
        (flipped, k2) ← flip_sensor k1 found.controls
        (gained, k3) ← try_control k2 flipped cid_analogue_gain (pos 896)
        let sensor = record found { controls = gained }
        let (result, k4, ss) = subdev_set Kernel subdevs k3 sensor sensor_set
        elim (is_zero result) [
          | false ↦ fail_camera k4 sensor none
          | true ↦ open_camera_device fuel k4 sensor ss.mbus_code
        ]
    ]

  -- `cameraDtor`
  unfoldable pub camera_dtor : Kernel → Option PiCamera → Outcome Kernel
  camera_dtor k none = done k
  camera_dtor k (some cam) = do
    k' ← device_close host k (some cam.camera)
    done (subdev_close host k' (some cam.sensor))
