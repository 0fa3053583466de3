-- ===== src/Device/Open.antt =====
-- device.c: opening and closing a device, and its events.
pub mod Formats
pub mod Laws
mod Tests
use malincam.Prelude.{
  [], ℕ, ℤ, pos, negsuc, is_zero, zero, suc, ◌+◌, bit_or, ◌≡◌, Bool, true, false, not, Option, none,
  some, ◌==◌, if◌then◌else◌, has_bits,
}
use malincam.Prelude.Outcome.{Outcome, done, out_of_fuel, ◌>>=◌}
use malincam.Abi.{enoent, einval, enotty}
use malincam.Array
use malincam.Array.{Array}
use malincam.V4l2.{
  BufType, no_type, video_capture, video_output, video_capture_mplane, video_output_mplane, mmap,
  FmtDesc, zero_format, zero_rect,
}
use malincam.V4l2Control.{V4l2Controls, ControlDriver, create_from_fd, controls_destroy}
use malincam.Device.{DeviceStream, memory_none, idle}
use malincam.Device.Driver.{Driver, Reply, success, error}
use malincam.Device.Picture.{stream_get_format}

-- V4L2_CAP_VIDEO_CAPTURE, V4L2_CAP_VIDEO_OUTPUT, and the others that are tested
abbrev pub cap_video_capture : ℕ
cap_video_capture = 0x1

abbrev pub cap_video_output : ℕ
cap_video_output = 0x2

abbrev pub cap_video_capture_mplane : ℕ
cap_video_capture_mplane = 0x1000

abbrev pub cap_video_output_mplane : ℕ
cap_video_output_mplane = 0x2000

abbrev pub cap_video_m2m_mplane : ℕ
cap_video_m2m_mplane = 0x4000

abbrev pub cap_video_m2m : ℕ
cap_video_m2m = 0x8000

abbrev pub cap_device_caps : ℕ
cap_device_caps = 0x80000000

-- `Device`.
pub record Device : Type 0 where
  pub fd : ℕ
  pub this_device_caps : ℕ
  pub controls : V4l2Controls
  pub capture : DeviceStream
  pub output : DeviceStream

-- A zeroed `DeviceStream`, with the item size of its formats: 0 until `arrayInit`.
abbrev pub zero_stream : ℕ → DeviceStream
zero_stream item_size = record {
  dev_fd = 0;
  buf_type = no_type;
  buffer_capabilities = 0;
  state = idle;
  format = zero_format no_type;
  crop = zero_rect;
  compose = zero_rect;
  formats = Array.init item_size;
  buffer_memory = memory_none;
  buffers_count = 0;
  buffers = none;
}

-- What is asked of the kernel beside a stream: `open`, `close`, VIDIOC_QUERYCAP for `capabilities`
-- and `device_caps`, VIDIOC_ENUM_FMT, VIDIOC_ENUM_FRAMESIZES for whether the type is discrete,
-- VIDIOC_SUBSCRIBE_EVENT, VIDIOC_DQEVENT.
pub record Files (Kernel Name Event : Type 0) : Type 0 where
  pub open_file : Kernel → Name → ℤ × Kernel
  pub close_file : Kernel → ℕ → Kernel
  pub query_caps : Kernel → ℕ → Reply (ℕ × ℕ) × Kernel
  pub enum_format : Kernel → ℕ → BufType → ℕ → ℕ → Reply FmtDesc × Kernel
  pub enum_frame_size : Kernel → ℕ → ℕ → ℕ → Reply Bool × Kernel
  pub subscribe_event : Kernel → ℕ → ℕ → Reply (Unit {0}) × Kernel
  pub dequeue_event : Kernel → ℕ → Reply Event × Kernel

-- `v4l2QueryCapability`: the type of a stream by the capabilities of the device.
unfoldable pub capture_type : ℕ → BufType
capture_type caps =
    if has_bits caps (bit_or cap_video_capture cap_video_m2m)
    then video_capture
    else if has_bits caps (bit_or cap_video_capture_mplane cap_video_m2m_mplane)
    then video_capture_mplane
    else no_type

unfoldable pub output_type : ℕ → BufType
output_type caps =
    if has_bits caps (bit_or cap_video_output cap_video_m2m)
    then video_output
    else if has_bits caps (bit_or cap_video_output_mplane cap_video_m2m_mplane)
    then video_output_mplane
    else no_type

-- `streamDestroy`: its loop does nothing for any kind of memory.
unfoldable pub stream_destroy : DeviceStream → Outcome (Unit {0})
stream_destroy st = do formats ← Array.destroy st.formats; done tt

-- All that is asked of the machine: the kernel's streams, names of files, files and controls, and
-- the sizes of `struct v4l2_fmtdesc` and `V4l2Control`.
pub record Host : Type 1 where
  pub driver : Driver
  pub Name : Type 0
  pub Event : Type 0
  pub files : Files driver.Kernel Name Event
  pub control_driver : ControlDriver driver.Kernel
  pub fmtdesc_size : ℕ
  pub control_size : ℕ

module _ (host : Host) where
  open host use {driver, Name, Event, files, control_driver, fmtdesc_size, control_size}
  open driver use {Kernel, request_buffers}
  open files use {
    open_file, close_file, query_caps, enum_format, enum_frame_size, subscribe_event, dequeue_event,
  }

  -- `v4l2ReadBufferTypeCapabilities`
  unfoldable pub read_capabilities : Kernel → ℕ → BufType → ℕ × Kernel
  read_capabilities k fd t =
      let (reply, k') = request_buffers k fd t mmap 0 in
      elim reply [ success (count, capabilities) ↦ (capabilities, k') | error errno ↦ (0, k') ]

  -- `streamInit`: the stream that was there stays on a failure.
  unfoldable pub stream_init : Kernel → DeviceStream → ℕ → BufType → ℤ × Kernel × DeviceStream
  unfolding read_capabilities
  stream_init k old fd t =
      let (capabilities, k1) = read_capabilities k fd t in
      let stream = record (zero_stream fmtdesc_size) {
        dev_fd = fd;
        buf_type = t;
        buffer_capabilities = capabilities;
      } in
      if capabilities == 0
      then (negsuc 0, k1, old)
      else (let (result, k2, formatted) = stream_get_format driver k1 stream in
          if is_zero result then (pos 0, k2, formatted) else (negsuc 0, k2, old))

  -- `v4l2QueryCapability`, one of the two streams of the device.
  unfoldable pub init_if : Kernel → DeviceStream → ℕ → BufType → ℤ × Kernel × DeviceStream
  unfolding stream_init
  init_if k old fd no_type = (pos 0, k, record old { buf_type = no_type })
  init_if k old fd video_capture = stream_init k old fd video_capture
  init_if k old fd video_output = stream_init k old fd video_output
  init_if k old fd video_capture_mplane = stream_init k old fd video_capture_mplane
  init_if k old fd video_output_mplane = stream_init k old fd video_output_mplane

  -- `v4l2QueryCapability`
  unfoldable pub query_capability : Kernel → Device → ℤ × Kernel × Device
  unfolding capture_type output_type init_if
  query_capability k dev =
      let (reply, k1) = query_caps k dev.fd in
      elim reply [
        | error errno ↦ (pos errno, k1, dev)
        | success (capabilities, device_caps) ↦
            let caps =
              if has_bits capabilities cap_device_caps then device_caps else capabilities in
            let known = record dev { this_device_caps = caps } in
            let (result, k2, capture) = init_if k1 known.capture known.fd (capture_type caps) in
            let captured = record known { capture = capture } in
            if not (is_zero result)
            then (negsuc 0, k2, captured)
            else (let (result', k3, output) =
                  init_if k2 captured.output captured.fd (output_type caps) in
                if not (is_zero result')
                then (negsuc 0, k3, record captured { output = output })
                else (pos 0, k3, record captured { output = output }))
      ]

  -- `deviceOpen`, with fuel for the enumeration of the controls; `none` is NULL.
  unfoldable pub device_open : ℕ → Kernel → Name → Outcome (Option Device × Kernel)
  unfolding query_capability
  device_open fuel k devname =
      let (opened, k1) = open_file k devname in
      elim opened [
        | negsuc n ↦ done (none, k1)
        | pos fd ↦
            let (result, k2, dev) = query_capability k1 (record {
              fd = fd;
              this_device_caps = 0;
              controls = record { fd = 0; controls = [] };
              capture = zero_stream 0;
              output = zero_stream 0;
            }) in
            if not (is_zero result)
            then done (none, if fd == 0 then k2 else close_file k2 fd)
            else do
              (found, k3) ← create_from_fd Kernel control_driver control_size fuel k2 fd
              done (some (record dev { controls = found }), k3)
      ]

  -- `deviceClose`: what is freed may only be freed once.
  unfoldable pub device_close : Kernel → Option Device → Outcome Kernel
  unfolding stream_destroy controls_destroy
  device_close k none = done k
  device_close k (some dev) = do
    capture ← stream_destroy dev.capture
    output ← stream_destroy dev.output
    let destroyed = controls_destroy (some dev.controls)
    done (close_file k dev.fd)

  -- `deviceEventSubscribe`
  unfoldable pub device_event_subscribe : Kernel → Device → ℕ → ℤ × Kernel
  device_event_subscribe k dev event =
      let (reply, k') = subscribe_event k dev.fd event in
      elim reply [ success _ ↦ (pos 0, k') | error errno ↦ (pos 1, k') ]

  -- `deviceEventGet`: -1 on an error, 0 on no event, 1 on an event.
  unfoldable pub device_event_get : Kernel → Device → ℤ × Option Event × Kernel
  device_event_get k dev =
      let (reply, k') = dequeue_event k dev.fd in
      elim reply [
        | success event ↦ (pos 1, some event, k')
        | error errno ↦ if errno == enoent then (pos 0, none, k') else (negsuc 0, none, k')
      ]
