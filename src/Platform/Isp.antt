-- ===== src/Platform/Isp.antt =====
-- Pilatform.c: opening the image processor.
use malincam.Prelude.{ℕ, pos, is_zero, true, false, Option, none, some}
use malincam.Prelude.Outcome.{Outcome, done, ◌>>=◌}
use malincam.Device.{DeviceStream, PrepareOpts, memory_dmabuf_export, memory_dmabuf_import}
use malincam.Device.Open.{Device, device_open, device_close}
use malincam.Device.Open.Formats.{device_stream_query_formats}
use malincam.Device.Stream.{device_stream_prepare}
use malincam.Node.{Node}
use malincam.Platform.Numbers.{
  sensor_width, sensor_height, camera_pixfmt, isp_crop_width, isp_crop_height, isp_output_pixfmt,
  cid_red_balance, cid_blue_balance, cid_digital_gain,
}
use malincam.Platform.{Platform, opts_of, try_control}

-- `PiIsp`
pub record PiIsp : Type 0 where
  pub capture : Device
  pub output : Device

abbrev pub node_of_isp : PiIsp → Node
node_of_isp isp = record { input = some isp.output.output; output = some isp.capture.capture }

abbrev pub isp_output_opts : PrepareOpts
isp_output_opts = record (opts_of memory_dmabuf_import camera_pixfmt sensor_width sensor_height) {
  crop_width = isp_crop_width;
  crop_height = isp_crop_height;
}

abbrev pub isp_capture_opts : DeviceStream → PrepareOpts
isp_capture_opts output =
    opts_of memory_dmabuf_export isp_output_pixfmt output.compose.width output.compose.height

module _ (platform : Platform) where
  open platform use {host, subdevs, names, garbage}
  open host use {driver, control_driver}
  open driver use {Kernel}

  -- The label `fail` of `piOpenISP`.
  unfoldable pub fail_isp : Kernel → Option Device → Option Device → Outcome (Option PiIsp × Kernel)
  fail_isp k isp_out isp_cap = do
    k1 ← device_close host k isp_out
    k2 ← device_close host k1 isp_cap
    done (none, k2)

  -- `piOpenISP`, its second part, with the output device set up.
  unfoldable pub open_isp_capture : ℕ → Kernel → Device → Outcome (Option PiIsp × Kernel)
  unfolding fail_isp
  open_isp_capture fuel k isp_out = do
    (opened, k1) ← device_open host fuel k names.isp_cap_node
    elim opened [
      | none ↦ fail_isp k1 (some isp_out) none
      | some isp_cap ↦ do
        (queried, k2, listed) ← device_stream_query_formats host fuel fuel k1 isp_cap.capture 0
        elim (is_zero queried) [
          | false ↦ fail_isp k2 (some isp_out) (some (record isp_cap { capture = listed }))
          | true ↦ do
            (result, k3, ready) ←
                device_stream_prepare driver k2 listed (isp_capture_opts isp_out.output)
            elim (is_zero result) [
              | false ↦ fail_isp k3 (some isp_out) (some (record isp_cap { capture = ready }))
              | true ↦ done (
                some (record { capture = record isp_cap { capture = ready }; output = isp_out }),
                k3,
              )
            ]
        ]
    ]

  -- `piOpenISP`; `none` is NULL.
  unfoldable pub pi_open_isp : ℕ → Kernel → Outcome (Option PiIsp × Kernel)
  unfolding open_isp_capture
  pi_open_isp fuel k = do
    (opened, k1) ← device_open host fuel k names.isp_out_node
    elim opened [
      | none ↦ fail_isp k1 none none
      | some isp_out ↦ do
        (queried, k2, listed) ← device_stream_query_formats host fuel fuel k1 isp_out.output 0
        elim (is_zero queried) [
          | false ↦ fail_isp k2 (some (record isp_out { output = listed })) none
          | true ↦ do
            (red, k3) ← try_control platform k2 isp_out.controls cid_red_balance (pos 3285)
            (blue, k4) ← try_control platform k3 red cid_blue_balance (pos 1618)
            (gained, k5) ← try_control platform k4 blue cid_digital_gain (pos 1000)
            (result, k6, ready) ← device_stream_prepare driver k5 listed isp_output_opts
            let set_up = record isp_out { controls = gained; output = ready }
            elim (is_zero result) [
              | false ↦ fail_isp k6 (some set_up) none
              | true ↦ open_isp_capture fuel k6 set_up
            ]
        ]
    ]

  -- `ispDtor`
  unfoldable pub isp_dtor : Kernel → Option PiIsp → Outcome Kernel
  isp_dtor k none = done k
  isp_dtor k (some isp) = do
    k' ← device_close host k (some isp.capture)
    device_close host k' (some isp.output)
