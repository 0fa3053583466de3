-- ===== src/Pump/Pass.antt =====
-- pump.c: how the contents of a source buffer reach a destination buffer, and which way is chosen.
pub mod Chosen
use malincam.Prelude.{
  ℕ, ℤ, pos, zero, suc, ◌+◌, Bool, true, false, not, ◌&&◌, Option, none, some, List, [], ◌∷◌, leb,
  ◌==◌, if◌then◌else◌, get_elem?, get_or, set,
}
use malincam.Prelude.Outcome.{Outcome, done, fault, assert, ◌>>=◌, ◌>>◌}
use malincam.V4l2.{
  Plane, V4l2Buffer, BufferM, offset, user_pointer, dmabuf_fd, planes, own_planes, stack_planes,
}
use malincam.Device.{
  Buffer, BufferMemory, memory_none, memory_mmap, memory_userptr, memory_dmabuf_export,
  memory_dmabuf_import, DeviceStream, is_mplane, planes_count,
}
use malincam.Pump.{
  PassFunc, pass_dmabuf_mp, pass_dmabuf_sp_to_mp, pass_dmabuf_mp_to_sp, pass_dmabuf_sp,
  pass_mmap_to_userptr_sp, pass_mmap_mp_to_userptr_sp, pass_mmap_mp_to_mmap_sp,
}

-- A read of an array's item; past its end is a fault. (The arrays of a `Buffer` have
-- VIDEO_MAX_PLANES items, so the first of them is read with no test.)
abbrev pub read {ℓ} : {A : Type ℓ} → List A → ℕ → Outcome A
read xs i = elim (get_elem? xs i) [ none ↦ fault | some x ↦ done x ]

-- `buffer.m.planes`. The array on the stack of a function that has returned must not be followed,
-- and no more must another member of the union.
abbrev pub planes_of : Buffer → BufferM → Outcome (List Plane)
planes_of buf (planes own_planes) = done buf.planes
planes_of buf (planes stack_planes) = fault
planes_of buf _ = fault

abbrev pub own_planes_of : Buffer → Outcome (List Plane)
own_planes_of buf = planes_of buf buf.buffer.m

-- `passDmabufMP`, its loop from plane `i` on, `n` planes to go.
unfoldable pub pass_planes : Buffer → Buffer → ℕ → ℕ → Outcome Buffer
pass_planes src dst i zero = done dst
pass_planes src dst i (suc n) = do
  from_planes ← own_planes_of src
  to_planes ← own_planes_of dst
  from ← read from_planes i
  to ← read to_planes i
  fd ← read src.dmabuf_fds i
  let passed = record to {
    length = from.length;
    data_offset = from.data_offset;
    bytesused = from.bytesused;
    fd = fd;
  }
  pass_planes src (record dst { planes = set to_planes i passed }) (i + 1) n

-- The functions of the table. Each gives its return value and the destination buffer. The bytes
-- that `passMmapMPToMmapSP` copies from one mapping to the other are not part of a `Buffer`.
unfoldable pub pass_buffer : PassFunc → Buffer → Buffer → ℕ → Outcome (ℤ × Buffer)
unfolding pass_planes
pass_buffer pass_dmabuf_mp src dst n = do passed ← pass_planes src dst 0 n; done (pos 0, passed)
pass_buffer pass_dmabuf_sp_to_mp src dst n = do
  assert (n == 1)
  to_planes ← own_planes_of dst
  to ← read to_planes 0
  let fd = get_or src.dmabuf_fds 0 (pos 0)
  let passed = record to {
    length = src.buffer.length;
    data_offset = 0;
    bytesused = src.buffer.bytesused;
    fd = fd;
  }
  done (pos 0, record dst { planes = set to_planes 0 passed })
pass_buffer pass_dmabuf_mp_to_sp src dst n = do
  assert (n == 1)
  from_planes ← own_planes_of src
  from ← read from_planes 0
  let fd = get_or src.dmabuf_fds 0 (pos 0)
  done (
    pos 0,
    record dst {
      buffer = record dst.buffer {
        length = from.length;
        bytesused = from.bytesused;
        m = dmabuf_fd fd;
      };
    },
  )
pass_buffer pass_dmabuf_sp src dst n = do
  assert (n == 1)
  let fd = get_or src.dmabuf_fds 0 (pos 0)
  done (
    pos 0,
    record dst {
      buffer = record dst.buffer {
        length = src.buffer.length;
        bytesused = src.buffer.bytesused;
        m = dmabuf_fd fd;
      };
    },
  )
pass_buffer pass_mmap_to_userptr_sp src dst n = do
  assert (n == 1)
  let address = get_or src.mapped 0 0
  done (
    pos 0,
    record dst {
      buffer = record dst.buffer {
        length = src.buffer.length;
        bytesused = src.buffer.bytesused;
        m = user_pointer address;
      };
    },
  )
pass_buffer pass_mmap_mp_to_userptr_sp src dst n = do
  assert (n == 1)
  from_planes ← own_planes_of src
  from ← read from_planes 0
  let address = get_or src.mapped 0 0
  done (
    pos 0,
    record dst {
      buffer = record dst.buffer {
        length = from.length;
        bytesused = from.bytesused;
        m = user_pointer address;
      };
    },
  )
pass_buffer pass_mmap_mp_to_mmap_sp src dst n = do
  assert (n == 1)
  from_planes ← own_planes_of src
  from ← read from_planes 0
  assert (leb from.bytesused dst.buffer.length)
  done (pos 0, record dst { buffer = record dst.buffer { bytesused = from.bytesused } })

-- `PumpBufferPassTableEntry`
pub record Entry : Type 0 where
  pub src_mem : BufferMemory
  pub dst_mem : BufferMemory
  pub src_mp : Bool
  pub dst_mp : Bool
  pub func : PassFunc

abbrev pub entry : BufferMemory → BufferMemory → Bool → Bool → PassFunc → Entry
entry src_mem dst_mem src_mp dst_mp func = record {
  src_mem = src_mem;
  dst_mem = dst_mem;
  src_mp = src_mp;
  dst_mp = dst_mp;
  func = func;
}

-- `pass_func_table`
abbrev pub pass_func_table : List Entry
pass_func_table =
    entry memory_dmabuf_export memory_dmabuf_import true true pass_dmabuf_mp
    ∷ entry memory_dmabuf_export memory_dmabuf_import false false pass_dmabuf_sp
    ∷ entry memory_dmabuf_export memory_dmabuf_import true false pass_dmabuf_mp_to_sp
    ∷ entry memory_dmabuf_export memory_dmabuf_import false true pass_dmabuf_sp_to_mp
    ∷ entry memory_mmap memory_userptr false false pass_mmap_to_userptr_sp
    ∷ entry memory_mmap memory_userptr true false pass_mmap_mp_to_userptr_sp
    ∷ entry memory_mmap memory_mmap true false pass_mmap_mp_to_mmap_sp
    ∷ []

abbrev pub same_memory : BufferMemory → BufferMemory → Bool
same_memory memory_none memory_none = true
same_memory memory_mmap memory_mmap = true
same_memory memory_userptr memory_userptr = true
same_memory memory_dmabuf_export memory_dmabuf_export = true
same_memory memory_dmabuf_import memory_dmabuf_import = true
same_memory _ _ = false

abbrev pub same_bool : Bool → Bool → Bool
same_bool true b = b
same_bool false b = not b

-- The loop of `getPassFunc` over the table.
unfoldable pub find_pass_func :
    BufferMemory → BufferMemory → Bool → Bool → List Entry → Option PassFunc
find_pass_func src_mem dst_mem src_mp dst_mp [] = none
find_pass_func src_mem dst_mem src_mp dst_mp (te ∷ rest) =
    let next = find_pass_func src_mem dst_mem src_mp dst_mp rest in
    if not (same_memory src_mem te.src_mem)
    then next
    else if not (same_memory dst_mem te.dst_mem)
    then next
    else if not (same_bool src_mp te.src_mp)
    then next
    else if not (same_bool dst_mp te.dst_mp)
    then next
    else some te.func

-- `getPassFunc`. Both counts of planes are those of the source, as in the code.
unfoldable pub get_pass_func : DeviceStream → DeviceStream → Option PassFunc
unfolding find_pass_func
get_pass_func src dst =
    let src_planes = planes_count src in
    let dst_planes = planes_count src in
    if not (src_planes == dst_planes)
    then none
    else find_pass_func src.buffer_memory dst.buffer_memory (is_mplane src.buf_type)
        (is_mplane dst.buf_type) pass_func_table
