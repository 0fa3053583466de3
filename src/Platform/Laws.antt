-- ===== src/Platform/Laws.antt =====
-- What the platform's openings give: streams that are ready to run.
use malincam.Prelude.{pos, ℕ, is_zero, ◌≡◌, Option, none, some}
use malincam.Prelude.Outcome.{done}
use malincam.Prelude.Yields.{Yields, Yields-done, Yields-bind, Yields-test, Yields-option}
use malincam.Device.{memory_dmabuf_export, memory_dmabuf_import}
use malincam.Device.Open.{Device, device_open, device_close}
use malincam.Device.Open.Formats.{device_stream_query_formats}
use malincam.Device.Stream.{device_stream_prepare}
use malincam.Device.Stream.Memory.{IsPrepared, prepare-IsPrepared}
use malincam.Subdev.{Subdev, subdev_open}
use malincam.Subdev.Formats.{subdev_set}
use malincam.Platform.Numbers.{
  cid_analogue_gain, cid_red_balance, cid_blue_balance, cid_digital_gain,
}
use malincam.Platform.{
  sensor_set, Platform, PiCamera, camera_capture_opts, fail_camera, open_camera_device, flip_sensor,
  try_control, pi_open_camera,
}
use malincam.Platform.Isp.{
  PiIsp, isp_output_opts, isp_capture_opts, fail_isp, open_isp_capture, pi_open_isp,
}

-- What was opened, if anything was, has the property.
abbrev pub OpensTo {ℓ κ} : {A : Type ℓ} {K : Type 0} → (A → Type κ) → Option A × K → Type κ
OpensTo P (none, k) = Unit
OpensTo P (some a, k) = P a

module _ (platform : Platform) where
  open platform use {host, names}
  open host use {driver}
  open driver use {Kernel}

  abbrev pub CameraReady : PiCamera → Type 0
  CameraReady cam = IsPrepared driver memory_dmabuf_export cam.camera.capture

  fail_camera-none :
      (k : Kernel) (sensor : Subdev) (camera : Option Device)
      → Yields (OpensTo CameraReady) (fail_camera platform k sensor camera)
  unfolding fail_camera
  fail_camera-none k sensor camera =
      Yields-bind (OpensTo CameraReady) (device_close host _ camera) _
        (λ k' closes. Yields-done (OpensTo CameraReady) (none, k') tt)

  open_camera-Ready :
      (fuel : ℕ) (k : Kernel) (sensor : Subdev) (mbus_code : ℕ)
      → Yields (OpensTo CameraReady) (open_camera_device platform fuel k sensor mbus_code)
  unfolding open_camera_device
  open_camera-Ready fuel k sensor mbus_code =
      let goal : Option PiCamera × Kernel → Type 0 = OpensTo CameraReady in
      Yields-bind goal (device_open host fuel k names.camera_node) _ (λ (opened, k1) opens.
        Yields-option goal opened _ _ (fail_camera-none k1 sensor none) (λ camera found.
          Yields-bind goal (device_stream_query_formats host fuel fuel k1 camera.capture mbus_code)
            _
            (λ (queried, k2, listed) lists.
              Yields-test goal (is_zero queried) _ _
                (λ ok.
                  Yields-bind goal (device_stream_prepare driver k2 listed camera_capture_opts) _
                    (λ (result, k3, ready) prepares.
                      Yields-test goal (is_zero result) _ _
                        (λ ok'. Yields-done goal _ (
                          prepare-IsPrepared driver k2 listed camera_capture_opts result k3 ready
                            prepares ok'))
                        (fail_camera-none k3 sensor (some (record camera { capture = ready })))))
                (fail_camera-none k2 sensor (some (record camera { capture = listed }))))))

  -- The stream of a camera that `piOpenCamera` returns is prepared, with buffers that it exports.
  pub pi_open_camera-Ready :
      (fuel : ℕ) (k k' : Kernel) (cam : PiCamera)
      → pi_open_camera platform fuel k ≡ done (some cam, k')
      → IsPrepared driver memory_dmabuf_export cam.camera.capture
  unfolding pi_open_camera
  pi_open_camera-Ready fuel k k' cam opened =
      let goal : Option PiCamera × Kernel → Type 0 = OpensTo CameraReady in
      Yields-bind goal
        (subdev_open host platform.subdevs platform.garbage fuel k names.sensor_node 2) _
        (λ (found, k1) opens.
          Yields-option goal found _ _ (Yields-done goal (none, k1) tt) (λ sensor at.
            Yields-bind goal (flip_sensor platform k1 sensor.controls) _ (λ (flipped, k2) flips.
              Yields-bind goal (try_control platform k2 flipped cid_analogue_gain (pos 896)) _
                (λ (gained, k3) gains.
                  let (result, k4, ss) =
                    subdev_set Kernel platform.subdevs k3 (record sensor { controls = gained })
                      sensor_set in
                  Yields-test goal (is_zero result) _ _
                    (λ ok.
                      open_camera-Ready fuel k4 (record sensor { controls = gained }) ss.mbus_code)
                    (fail_camera-none k4 (record sensor { controls = gained }) none)))))
        (some cam, k') opened

  abbrev pub IspReady : PiIsp → Type 0
  IspReady isp =
      IsPrepared driver memory_dmabuf_import isp.output.output
      × IsPrepared driver memory_dmabuf_export isp.capture.capture

  fail_isp-none :
      (k : Kernel) (isp_out isp_cap : Option Device)
      → Yields (OpensTo IspReady) (fail_isp platform k isp_out isp_cap)
  unfolding fail_isp
  fail_isp-none k isp_out isp_cap =
      Yields-bind (OpensTo IspReady) (device_close host k isp_out) _ (λ k1 closes.
        Yields-bind (OpensTo IspReady) (device_close host k1 isp_cap) _
          (λ k2 closes'. Yields-done (OpensTo IspReady) (none, k2) tt))

  open_isp_capture-Ready :
      (fuel : ℕ) (k : Kernel) (isp_out : Device)
      → IsPrepared driver memory_dmabuf_import isp_out.output
      → Yields (OpensTo IspReady) (open_isp_capture platform fuel k isp_out)
  unfolding open_isp_capture
  open_isp_capture-Ready fuel k isp_out out_ready =
      let goal : Option PiIsp × Kernel → Type 0 = OpensTo IspReady in
      Yields-bind goal (device_open host fuel k names.isp_cap_node) _ (λ (opened, k1) opens.
        Yields-option goal opened _ _ (fail_isp-none k1 (some isp_out) none) (λ isp_cap found.
          Yields-bind goal (device_stream_query_formats host fuel fuel k1 isp_cap.capture 0) _
            (λ (queried, k2, listed) lists.
              Yields-test goal (is_zero queried) _ _
                (λ ok.
                  Yields-bind goal
                    (device_stream_prepare driver k2 listed (isp_capture_opts isp_out.output)) _
                    (λ (result, k3, ready) prepares.
                      Yields-test goal (is_zero result) _ _
                        (λ ok'. Yields-done goal _ (
                          out_ready,
                          prepare-IsPrepared driver k2 listed (isp_capture_opts isp_out.output)
                              result k3 ready prepares ok',
                        ))
                        (fail_isp-none k3 (some isp_out)
                          (some (record isp_cap { capture = ready })))))
                (fail_isp-none k2 (some isp_out) (some (record isp_cap { capture = listed }))))))

  -- The streams of an image processor that `piOpenISP` returns are prepared, the input with buffers
  -- that it imports and the output with buffers that it exports.
  pub pi_open_isp-Ready :
      (fuel : ℕ) (k k' : Kernel) (isp : PiIsp)
      → pi_open_isp platform fuel k ≡ done (some isp, k')
      → IsPrepared driver memory_dmabuf_import isp.output.output
        × IsPrepared driver memory_dmabuf_export isp.capture.capture
  unfolding pi_open_isp
  pi_open_isp-Ready fuel k k' isp opened =
      let goal : Option PiIsp × Kernel → Type 0 = OpensTo IspReady in
      Yields-bind goal (device_open host fuel k names.isp_out_node) _
        (λ (found, k1) opens.
          Yields-option goal found _ _ (fail_isp-none k1 none none) (λ isp_out at.
            Yields-bind goal (device_stream_query_formats host fuel fuel k1 isp_out.output 0) _
              (λ (queried, k2, listed) lists.
                Yields-test goal (is_zero queried) _ _
                  (λ ok.
                    Yields-bind goal
                      (try_control platform k2 isp_out.controls cid_red_balance (pos 3285)) _
                      (λ (red, k3) reds.
                        Yields-bind goal (try_control platform k3 red cid_blue_balance (pos 1618)) _
                          (λ (blue, k4) blues.
                            Yields-bind goal
                              (try_control platform k4 blue cid_digital_gain (pos 1000)) _
                              (λ (gained, k5) gains.
                                Yields-bind goal
                                  (device_stream_prepare driver k5 listed isp_output_opts) _
                                  (λ (result, k6, ready) prepares.
                                    Yields-test goal (is_zero result) _ _
                                      (λ ok'.
                                        open_isp_capture-Ready fuel k6
                                          (record isp_out { controls = gained; output = ready })
                                          (prepare-IsPrepared driver k5 listed isp_output_opts
                                            result k6 ready prepares ok'))
                                      (fail_isp-none k6
                                        (some
                                          (record isp_out { controls = gained; output = ready }))
                                        none))))))
                  (fail_isp-none k2 (some (record isp_out { output = listed })) none))))
        (some isp, k') opened
