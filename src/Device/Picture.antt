-- ===== src/Device/Picture.antt =====
-- device.c: the pixel format, the crop and the compose rectangle of a stream.
use malincam.Prelude.{ℕ, ℤ, pos, minus, Bool, true, false, not, ◌&&◌, ◌==◌, if◌then◌else◌}
use malincam.Prelude.Outcome.{Outcome, done, assert, ◌>>◌}
use malincam.V4l2.{
  BufType, no_type, video_capture, video_output, video_capture_mplane, video_output_mplane, Format,
  Rect, SelTarget, crop, crop_default, crop_bounds, native_size, compose, compose_default,
  compose_bounds, zero_rect, zero_format,
}
use malincam.Device.{DeviceStream, is_mplane}
use malincam.Device.Driver.{Driver, success, error}

-- `setPixelFormat`
unfoldable pub set_pixel_format : Format → ℕ → ℕ → ℕ → Format
set_pixel_format fmt pixelformat w h =
    if not (is_mplane fmt.buf_type)
    then record fmt {
      pixelformat = pixelformat;
      width = w;
      height = h;
      sizeimage = 0;
      bytesperline = 0;
    }
    else record fmt {
      pixelformat = pixelformat;
      width = w;
      height = h;
      num_planes = 1;
      sizeimage = 0;
      bytesperline = 0;
    }

abbrev pub same_type : BufType → BufType → Bool
same_type no_type no_type = true
same_type video_capture video_capture = true
same_type video_output video_output = true
same_type video_capture_mplane video_capture_mplane = true
same_type video_output_mplane video_output_mplane = true
same_type _ _ = false

module _ (driver : Driver) where
  open driver use {Kernel, get_format, set_format, get_selection, set_selection}

  -- `streamGetFormat`
  unfoldable pub stream_get_format : Kernel → DeviceStream → ℤ × Kernel × DeviceStream
  stream_get_format k st =
      let (reply, k') = get_format k st.dev_fd (zero_format st.buf_type) in
      elim reply [
        | success format ↦ (pos 0, k', record st { format = format })
        | error errno ↦ (minus 1, k', record st { format = zero_format st.buf_type })
      ]

  -- `streamSetFormat`
  unfoldable pub stream_set_format :
      Kernel → DeviceStream → ℕ → ℕ → ℕ → Outcome (ℤ × Kernel × DeviceStream)
  unfolding set_pixel_format
  stream_set_format k st pixelformat w h =
      if w == 0 && h == 0 && pixelformat == 0 then done (pos 0, k, st) else do
        assert (same_type st.format.buf_type st.buf_type)
        let (reply, k') = set_format k st.dev_fd (set_pixel_format st.format pixelformat w h)
        elim reply [
          | success format ↦ done (pos 0, k', record st { format = format })
          | error errno ↦ done (minus 1, k', st)
        ]

  -- `v4l2Selection` with VIDIOC_G_SELECTION: the rectangle stays as it is on an error.
  unfoldable pub read_selection : Kernel → DeviceStream → SelTarget → Rect → Rect × Kernel
  read_selection k st target rect =
      let (reply, k') = get_selection k st.dev_fd st.buf_type target in
      elim reply [ success r ↦ (r, k') | error errno ↦ (rect, k') ]

  -- `v4l2Selection` with VIDIOC_S_SELECTION
  unfoldable pub write_selection : Kernel → DeviceStream → SelTarget → Rect → Rect × Kernel
  write_selection k st target rect =
      let (reply, k') = set_selection k st.dev_fd st.buf_type target rect in
      elim reply [ success r ↦ (r, k') | error errno ↦ (rect, k') ]

  -- `setCrop`
  unfoldable pub set_crop : Kernel → DeviceStream → ℕ → ℕ → Kernel × DeviceStream
  unfolding read_selection write_selection
  set_crop k st w h =
      let (native, k1) = read_selection k st native_size zero_rect in
      let (bounds, k2) = read_selection k1 st crop_bounds zero_rect in
      let (default, k3) = read_selection k2 st crop_default zero_rect in
      let (now, k4) = read_selection k3 st crop st.crop in
      let read = record st { crop = now } in
      if not (w == 0) && not (h == 0)
      then (let (rect, k5) =
            write_selection k4 read crop (record default { width = w; height = h }) in
          let (after, k6) = read_selection k5 read crop read.crop in
          (k6, record read { crop = after }))
      else (k4, read)

  -- `setCompose`
  unfoldable pub set_compose : Kernel → DeviceStream → ℕ → ℕ → Kernel × DeviceStream
  unfolding read_selection write_selection
  set_compose k st w h =
      let (bounds, k1) = read_selection k st compose_bounds zero_rect in
      let (default, k2) = read_selection k1 st compose_default zero_rect in
      let (now, k3) = read_selection k2 st compose st.compose in
      let read = record st { compose = now } in
      if not (w == 0) && not (h == 0)
      then (let (rect, k4) =
            write_selection k3 read compose (record default { width = w; height = h }) in
          let (after, k5) = read_selection k4 read compose read.compose in
          (k5, record read { compose = after }))
      else (k3, read)
