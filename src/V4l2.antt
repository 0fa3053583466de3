-- ===== src/V4l2.antt =====
-- The structures of <linux/videodev2.h> that the program keeps and fills in, with the fields that
-- it reads or writes. The header is not part of the repository.
use malincam.Prelude.{ℕ, ℤ, pos}

-- `enum v4l2_buf_type`; `no_type` is the 0 of a stream that the device does not have.
pub data BufType : Type 0 where
  no_type video_capture video_output video_capture_mplane video_output_mplane : BufType

-- `enum v4l2_memory`; `no_memory` is the 0 of a zeroed structure.
pub data Memory : Type 0 where
  no_memory mmap userptr dmabuf : Memory

-- `struct v4l2_plane`: `mem_offset` and `fd` are the members of its union `m` that are used.
pub record Plane : Type 0 where
  pub length : ℕ
  pub bytesused : ℕ
  pub data_offset : ℕ
  pub mem_offset : ℕ
  pub fd : ℤ

-- Where `m.planes` points: at the `planes` of the `Buffer` around it, or at an array on the stack
-- of a function that may have returned.
pub data PlanesPtr : Type 0 where
  own_planes stack_planes : PlanesPtr

-- The union `m` of `struct v4l2_buffer`.
pub data BufferM : Type 0 where
  offset : ℕ → BufferM
  user_pointer : ℕ → BufferM
  dmabuf_fd : ℤ → BufferM
  planes : PlanesPtr → BufferM

-- `struct v4l2_buffer`
pub record V4l2Buffer : Type 0 where
  pub buf_type : BufType
  pub memory : Memory
  pub index : ℕ
  pub length : ℕ
  pub bytesused : ℕ
  pub m : BufferM

-- `struct v4l2_format`: the fields of `pix` and of `pix_mp` under one name each; `sizeimage` and
-- `bytesperline` are those of the only plane that the program sets.
pub record Format : Type 0 where
  pub buf_type : BufType
  pub pixelformat : ℕ
  pub width : ℕ
  pub height : ℕ
  pub sizeimage : ℕ
  pub bytesperline : ℕ
  pub num_planes : ℕ

abbrev pub zero_format : BufType → Format
zero_format t = record {
  buf_type = t;
  pixelformat = 0;
  width = 0;
  height = 0;
  sizeimage = 0;
  bytesperline = 0;
  num_planes = 0;
}

-- `struct v4l2_rect`
pub record Rect : Type 0 where
  pub left : ℤ
  pub top : ℤ
  pub width : ℕ
  pub height : ℕ

abbrev pub zero_rect : Rect
zero_rect = record { left = pos 0; top = pos 0; width = 0; height = 0 }

-- The selection targets that are used.
pub data SelTarget : Type 0 where
  crop crop_default crop_bounds native_size compose compose_default compose_bounds : SelTarget

-- `struct v4l2_fmtdesc`
pub record FmtDesc : Type 0 where
  pub index : ℕ
  pub pixelformat : ℕ
  pub flags : ℕ
