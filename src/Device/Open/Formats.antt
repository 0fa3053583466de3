-- ===== src/Device/Open/Formats.antt =====
-- device.c: the listing of the formats of a stream.
use malincam.Prelude.{ℕ, ℤ, pos, zero, suc, ◌+◌, true, false, some, ◌==◌, if◌then◌else◌}
use malincam.Prelude.Outcome.{Outcome, done, out_of_fuel, ◌>>=◌}
use malincam.Abi.{einval, enotty}
use malincam.Array
use malincam.Array.{Array}
use malincam.Device.{DeviceStream}
use malincam.Device.Driver.{success, error}
use malincam.Device.Open.{Host}

module _ (host : Host) where
  open host use {driver, Name, Event, files, control_driver, fmtdesc_size, control_size}
  open driver use {Kernel, request_buffers}
  open files use {
    open_file, close_file, query_caps, enum_format, enum_frame_size, subscribe_event, dequeue_event,
  }

  -- `deviceStreamQueryFormats`, its inner loop from index `i` on, one unit of fuel for a size. An
  -- error other than EINVAL leaves a zeroed type, which is not discrete.
  unfoldable pub query_frame_sizes : ℕ → Kernel → ℕ → ℕ → ℕ → Outcome Kernel
  query_frame_sizes zero k fd pixelformat i = out_of_fuel
  query_frame_sizes (suc fuel) k fd pixelformat i =
      let (reply, k') = enum_frame_size k fd pixelformat i in
      elim reply [
        | error errno ↦ done k'
        | success discrete ↦ elim discrete [
          | true ↦ query_frame_sizes fuel k' fd pixelformat (i + 1)
          | false ↦ done k'
        ]
      ]

  -- Its outer loop from index `i` on, one unit of fuel for a format; `sizes` is that of the inner
  -- loop.
  unfoldable pub query_formats :
      ℕ → ℕ → Kernel → DeviceStream → ℕ → ℕ → Outcome (ℤ × Kernel × DeviceStream)
  unfolding query_frame_sizes
  query_formats zero sizes k st mbus_code i = out_of_fuel
  query_formats (suc fuel) sizes k st mbus_code i =
      let (reply, k1) = enum_format k st.dev_fd st.buf_type mbus_code i in
      elim reply [
        | error errno ↦
            if errno == einval
            then done (pos 0, k1, st)
            else if errno == enotty
            then done (pos 0, k1, st)
            else done (pos errno, k1, st)
        | success fmt ↦ do
          k2 ← query_frame_sizes sizes k1 st.dev_fd fmt.pixelformat 0
          (index, formats) ← Array.append st.formats (some fmt)
          query_formats fuel sizes k2 (record st { formats = formats }) mbus_code (i + 1)
      ]

  -- `deviceStreamQueryFormats`
  unfoldable pub device_stream_query_formats :
      ℕ → ℕ → Kernel → DeviceStream → ℕ → Outcome (ℤ × Kernel × DeviceStream)
  unfolding query_formats
  device_stream_query_formats fuel sizes k st mbus_code =
      query_formats fuel sizes k (record st { formats = Array.resize st.formats }) mbus_code 0
