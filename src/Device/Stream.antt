-- ===== src/Device/Stream.antt =====
-- device.c: preparing, starting and stopping a stream.
pub mod Machine
pub mod Again
pub mod Memory
use malincam.Prelude.{
  ℕ, ℤ, pos, minus, is_zero, zero, suc, Bool, true, false, not, Option, none, some, List, [], ◌∷◌,
  if◌then◌else◌,
}
use malincam.Prelude.Outcome.{Outcome, done, fault, ◌>>=◌}
use malincam.Abi.{enoent, ebusy}
use malincam.V4l2.{Rect}
use malincam.Device.{
  Buffer, StreamState, idle, prepared, streaming, DeviceStream, PrepareOpts, is_capture,
}
use malincam.Device.Driver.{Driver, Reply, success, error}
use malincam.Device.Picture.{stream_set_format, set_crop, set_compose}
use malincam.Device.Buffers.{stream_request_buffers}

-- A stream of which it is known that it is not streaming, and the others.
abbrev pub is_streaming : StreamState → Bool
is_streaming streaming = true
is_streaming _ = false

module _ (driver : Driver) where
  open driver use {Kernel, enqueue, stream_on, stream_off}

  -- The loop of `streamEnqueueBuffers`, `n` buffers to go.
  unfoldable pub enqueue_all : Kernel → DeviceStream → List Buffer → ℕ → Outcome (ℤ × Kernel)
  enqueue_all k st bufs zero = done (pos 0, k)
  enqueue_all k st [] (suc n) = fault
  enqueue_all k st (buf ∷ bufs) (suc n) =
      let (reply, k') = enqueue k st.dev_fd buf in
      elim reply [ success _ ↦ enqueue_all k' st bufs n | error errno ↦ done (minus 1, k') ]

  -- `streamEnqueueBuffers`. A NULL array is only followed if there is a buffer to enqueue.
  unfoldable pub stream_enqueue_buffers : Kernel → DeviceStream → Outcome (ℤ × Kernel)
  unfolding enqueue_all
  stream_enqueue_buffers k st = elim st.buffers [
    | none ↦ enqueue_all k st [] st.buffers_count
    | some bufs ↦ enqueue_all k st bufs st.buffers_count
  ]

  -- `deviceStreamPrepare`, from the request of the buffers on.
  unfoldable pub prepare_buffers : Kernel → DeviceStream → Outcome (ℤ × Kernel × DeviceStream)
  prepare_buffers k st = do
    (result, k1, requested) ← stream_request_buffers driver k st
    if is_zero result
        then done (pos 0, k1, record requested { state = prepared })
        else done (minus 2, k1, requested)

  -- `deviceStreamPrepare`, once the format is set.
  unfoldable pub prepare_rects : Kernel → DeviceStream → PrepareOpts → Kernel × DeviceStream
  unfolding set_crop set_compose
  prepare_rects k st opts =
      let whole : Rect = record {
        left = pos 0;
        top = pos 0;
        width = opts.width;
        height = opts.height;
      } in
      let (k1, cropped) =
        set_crop driver k (record st { crop = whole }) opts.crop_width opts.crop_height in
      let (k2, composed) =
        set_compose driver k1 (record cropped { compose = cropped.crop }) opts.crop_width
          opts.crop_height in
      (
        k2,
        record composed { buffer_memory = opts.buffer_memory; buffers_count = opts.buffers_count },
      )

  -- `deviceStreamPrepare`
  unfoldable pub device_stream_prepare :
      Kernel → DeviceStream → PrepareOpts → Outcome (ℤ × Kernel × DeviceStream)
  unfolding stream_set_format prepare_rects prepare_buffers
  device_stream_prepare k st opts = if is_streaming st.state then done (minus ebusy, k, st) else do
    (result, k1, formatted) ← stream_set_format driver k st opts.pixelformat opts.width opts.height
    if is_zero result
        then (let (k2, ready) = prepare_rects k1 formatted opts in prepare_buffers k2 ready)
        else done (minus 1, k1, formatted)

  -- `deviceStreamStart`, on a prepared stream.
  unfoldable pub switch_on : Kernel → DeviceStream → ℤ × Kernel × DeviceStream
  switch_on k st =
      let (reply, k') = stream_on k st.dev_fd st.buf_type in
      elim reply [
        | success _ ↦ (pos 0, k', record st { state = streaming })
        | error errno ↦ (pos 1, k', st)
      ]

  unfoldable pub start_prepared : Kernel → DeviceStream → Outcome (ℤ × Kernel × DeviceStream)
  unfolding switch_on stream_enqueue_buffers
  start_prepared k st =
      if is_capture st.buf_type
      then stream_enqueue_buffers k st >>= (λ (result, k').
        if is_zero result then done (switch_on k' st) else done (minus 3, k', st))
      else done (switch_on k st)

  -- `deviceStreamStart`
  unfoldable pub device_stream_start : Kernel → DeviceStream → Outcome (ℤ × Kernel × DeviceStream)
  unfolding start_prepared
  device_stream_start k st = elim st.state [
    | idle ↦ done (minus enoent, k, st)
    | prepared ↦ start_prepared k st
    | streaming ↦ done (minus ebusy, k, st)
  ]

  -- `deviceStreamStop`
  unfoldable pub device_stream_stop : Kernel → DeviceStream → ℤ × Kernel × DeviceStream
  device_stream_stop k st =
      if not (is_streaming st.state)
      then (pos 0, k, st)
      else let (reply, k') = stream_off k st.dev_fd st.buf_type in
        elim reply [
          | success _ ↦ (pos 0, k', record st { state = prepared })
          | error errno ↦ (pos 1, k', st)
        ]
