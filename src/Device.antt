-- ===== src/Device.antt =====
-- device.h: the state of a V4L2 device and its streams. The children model device.c.
pub mod Driver
pub mod Picture
pub mod Buffers
pub mod Stream
pub mod Transfer
pub mod Bench
pub mod Open
mod Tests
use malincam.Prelude.{ℕ, ℤ, Bool, true, false, Option, List, if◌then◌else◌}
use malincam.V4l2.{
  BufType, no_type, video_capture, video_output, video_capture_mplane, video_output_mplane, Plane,
  V4l2Buffer, Format, Rect, FmtDesc,
}
use malincam.Array.{Array}

-- `struct Buffer`: the addresses in `mapped` and the descriptors in `dmabuf_fd` by plane.
pub record Buffer : Type 0 where
  pub buffer : V4l2Buffer
  pub planes : List Plane
  pub mapped : List ℕ
  pub dmabuf_fds : List ℤ

-- `buffer_memory_e`
pub data BufferMemory : Type 0 where
  memory_none memory_mmap memory_userptr memory_dmabuf_export memory_dmabuf_import : BufferMemory

pub data StreamState : Type 0 where
  idle prepared streaming : StreamState

-- `buffers` is `none` for NULL.
pub record DeviceStream : Type 0 where
  pub dev_fd : ℕ
  pub buf_type : BufType
  pub buffer_capabilities : ℕ
  pub state : StreamState
  pub format : Format
  pub crop : Rect
  pub compose : Rect
  pub formats : Array FmtDesc
  pub buffer_memory : BufferMemory
  pub buffers_count : ℕ
  pub buffers : Option (List Buffer)

-- `IS_TYPE_MPLANE`
abbrev pub is_mplane : BufType → Bool
is_mplane video_capture_mplane = true
is_mplane video_output_mplane = true
is_mplane _ = false

-- `IS_TYPE_CAPTURE`
abbrev pub is_capture : BufType → Bool
is_capture video_capture_mplane = true
is_capture video_capture = true
is_capture _ = false

-- `STREAM_PLANES_COUNT`
abbrev pub planes_count : DeviceStream → ℕ
planes_count st = if is_mplane st.buf_type then st.format.num_planes else 1

-- `DeviceStreamPrepareOpts`
pub record PrepareOpts : Type 0 where
  pub buffer_memory : BufferMemory
  pub buffers_count : ℕ
  pub pixelformat : ℕ
  pub width : ℕ
  pub height : ℕ
  pub crop_width : ℕ
  pub crop_height : ℕ
