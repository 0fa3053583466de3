-- ===== src/Device/Buffers.antt =====
-- device.c: requesting a stream's buffers, and mapping or exporting each.
pub mod Requested
use malincam.Prelude.{
  ℕ, ℤ, pos, negsuc, minus, is_zero, zero, suc, ◌+◌, ◌-◌, Bool, true, false, not, Option, none,
  some, List, [], ◌∷◌, ltb, ◌==◌, if◌then◌else◌, is_negative, get_elem?, ◌||◌, set, take, replicate,
}
use malincam.Prelude.Outcome.{Outcome, done, fault, assert, ◌>>=◌, ◌>>◌}
use malincam.Abi.{einval, ebusy}
use malincam.V4l2.{
  Memory, no_memory, mmap, userptr, dmabuf, Plane, V4l2Buffer, BufferM, planes, stack_planes,
  offset,
}
use malincam.Device.{
  Buffer, BufferMemory, memory_none, memory_mmap, memory_userptr, memory_dmabuf_export,
  memory_dmabuf_import, DeviceStream, is_mplane, planes_count,
}
use malincam.Device.Driver.{Driver, Reply, success, error}

-- VIDEO_MAX_PLANES of <linux/videodev2.h>
abbrev pub max_planes : ℕ
max_planes = 8

-- `streamRequestBuffers`, its `switch`: the kernel's memory type for the program's.
unfoldable pub request_memory : BufferMemory → Option Memory
request_memory memory_mmap = some mmap
request_memory memory_dmabuf_export = some mmap
request_memory memory_userptr = some userptr
request_memory memory_dmabuf_import = some dmabuf
request_memory memory_none = none

-- The union member `m.offset`; another member of the union is read as whatever it holds.
abbrev mem_offset_of : BufferM → Option ℕ
mem_offset_of (offset n) = some n
mem_offset_of _ = none

-- A zeroed `Buffer` around a `struct v4l2_buffer`.
abbrev pub fresh_buffer : V4l2Buffer → Buffer
fresh_buffer b = record {
  buffer = b;
  planes =
      replicate max_planes
        (record { length = 0; bytesused = 0; data_offset = 0; mem_offset = 0; fd = pos 0 });
  mapped = replicate max_planes 0;
  dmabuf_fds = replicate max_planes (pos 0);
}

module _ (driver : Driver) where
  open driver use {Kernel, request_buffers, query_buffer, export_buffer, map_memory}

  -- `bufferExportDmabufFd`: a descriptor, or minus the errno.
  unfoldable pub buffer_export_dmabuf_fd : Kernel → DeviceStream → ℕ → ℕ → ℤ × Kernel
  buffer_export_dmabuf_fd k st index plane =
      let (reply, k') = export_buffer k st.dev_fd st.buf_type index plane in
      elim reply [ success fd ↦ (fd, k') | error errno ↦ (minus errno, k') ]

  -- The loop of `bufferDmabufExport` from plane `i` on, `n` planes to go. A descriptor that is not
  -- above 0 ends it with `-fd`.
  unfoldable pub export_planes : Kernel → DeviceStream → Buffer → ℕ → ℕ → ℤ × Kernel × Buffer
  unfolding buffer_export_dmabuf_fd
  export_planes k st buf i zero = (pos 0, k, buf)
  export_planes k st buf i (suc n) =
      let (fd, k') = buffer_export_dmabuf_fd k st buf.buffer.index 0 in
      elim fd [
        | pos zero ↦ (pos 0, k', buf)
        | pos (suc d) ↦
            export_planes k' st (record buf { dmabuf_fds = set buf.dmabuf_fds i (pos (suc d)) })
              (i + 1) n
        | negsuc e ↦ (pos (suc e), k', buf)
      ]

  -- `bufferDmabufExport`
  unfoldable pub buffer_dmabuf_export :
      Kernel → DeviceStream → Buffer → Outcome (ℤ × Kernel × Buffer)
  unfolding export_planes
  buffer_dmabuf_export k st buf = do
    assert (ltb (planes_count st) max_planes)
    done (export_planes k st buf 0 (planes_count st))

  -- The loop of `bufferMmap` over the planes of a multi-planar stream.
  unfoldable pub map_planes :
      Kernel → DeviceStream → Buffer → ℕ → List Plane → Outcome (ℤ × Kernel × Buffer)
  map_planes k st buf i [] = done (pos 0, k, buf)
  map_planes k st buf i (plane ∷ rest) =
      let (reply, k') = map_memory k st.dev_fd plane.length plane.mem_offset in
      elim reply [
        | success address ↦
            map_planes k' st (record buf { mapped = set buf.mapped i address }) (i + 1) rest
        | error errno ↦ done (pos errno, k', buf)
      ]

  -- `bufferMmap`; `queried` is the array `bmplanes` that VIDIOC_QUERYBUF filled in. A single-planar
  -- buffer is mapped at `m.offset`: a kernel that fills in another member is outside the model.
  unfoldable pub buffer_mmap :
      Kernel → DeviceStream → Buffer → List Plane → Outcome (ℤ × Kernel × Buffer)
  unfolding map_planes
  buffer_mmap k st buf queried =
      if is_mplane st.buf_type
      then assert (ltb st.format.num_planes max_planes)
        >> map_planes k st buf 0 (take st.format.num_planes queried)
      else elim (mem_offset_of buf.buffer.m) [
        | none ↦ fault
        | some at ↦
            let (reply, k') = map_memory k st.dev_fd buf.buffer.length at in
            elim reply [
              | success address ↦ done (pos 0, k', record buf { mapped = set buf.mapped 0 address })
              | error errno ↦ done (pos errno, k', buf)
            ]
      ]

  -- `bufferPrepare`
  unfoldable pub buffer_prepare :
      Kernel → DeviceStream → Buffer → List Plane → BufferMemory → Outcome (ℤ × Kernel × Buffer)
  unfolding buffer_mmap buffer_dmabuf_export
  buffer_prepare k st buf queried memory_mmap = buffer_mmap k st buf queried
  buffer_prepare k st buf queried memory_dmabuf_export = buffer_dmabuf_export k st buf
  buffer_prepare k st buf queried memory_userptr = done (pos 0, k, buf)
  buffer_prepare k st buf queried memory_dmabuf_import = done (pos 0, k, buf)
  buffer_prepare k st buf queried memory_none = done (pos einval, k, buf)

  -- The `struct v4l2_buffer` that buffer `i` is queried with. For a multi-planar stream `m.planes`
  -- points at the array `bmplanes` on the stack.
  unfoldable pub query_for : DeviceStream → Memory → ℕ → V4l2Buffer
  query_for st mem i =
      let b : V4l2Buffer = record {
        buf_type = st.buf_type;
        memory = mem;
        index = i;
        length = 0;
        bytesused = 0;
        m = offset 0;
      } in
      if is_mplane st.buf_type
      then record b { m = planes stack_planes; length = st.format.num_planes }
      else b

  -- The loop of `streamRequestBuffers` from buffer `i` on, `n` buffers to go: 0 and the buffers, or
  -- 1, the label `fail`, which frees them all.
  unfoldable pub query_buffers :
      Kernel → DeviceStream → Memory → ℕ → ℕ → Outcome (ℤ × Kernel × List Buffer)
  unfolding buffer_prepare query_for
  query_buffers k st mem i zero = done (pos 0, k, [])
  query_buffers k st mem i (suc n) =
      let (reply, k1) = query_buffer k st.dev_fd (query_for st mem i) in
      elim reply [
        | success (b, queried) ↦ do
          (result, k2, buf) ← buffer_prepare k1 st (fresh_buffer b) queried st.buffer_memory
          elim (is_zero result) [
            | true ↦ do
              (last, k3, rest) ← query_buffers k2 st mem (i + 1) n
              done (last, k3, buf ∷ rest)
            | false ↦ done (pos 1, k2, [])
          ]
        | error errno ↦ done (pos 1, k1, [])
      ]

  -- `streamRequestBuffers`
  unfoldable pub stream_request_buffers :
      Kernel → DeviceStream → Outcome (ℤ × Kernel × DeviceStream)
  unfolding request_memory query_buffers
  stream_request_buffers k st = elim st.buffers [
    | some old ↦ done (minus ebusy, k, st)
    | none ↦ elim (request_memory st.buffer_memory) [
      | none ↦ done (pos einval, k, st)
      | some mem ↦
          let (reply, k1) = request_buffers k st.dev_fd st.buf_type mem st.buffers_count in
          elim reply [
            | error errno ↦ done (minus 1, k1, st)
            | success (count, capabilities) ↦ do
              let granted = record st { buffers_count = count }
              (result, k2, buffers) ← query_buffers k1 granted mem 0 count
              if is_zero result
                  then done (pos 0, k2, record granted { buffers = some buffers })
                  else done (pos 1, k2, record granted { buffers = none })
          ]
    ]
  ]
