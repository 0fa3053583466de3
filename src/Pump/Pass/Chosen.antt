-- ===== src/Pump/Pass/Chosen.antt =====
-- Which way to pass a buffer getPassFunc chooses.
use malincam.Prelude.{◌↔◌, ◌≡◌, refl, Bool, true, false, Option, some, arith, sym, ap, ◌∙◌}
use malincam.Device.{
  BufferMemory, memory_mmap, memory_userptr, memory_dmabuf_export, memory_dmabuf_import,
  DeviceStream, is_mplane,
}
use malincam.Pump.{
  PassFunc, pass_dmabuf_mp, pass_dmabuf_sp_to_mp, pass_dmabuf_mp_to_sp, pass_dmabuf_sp,
  pass_mmap_to_userptr_sp, pass_mmap_mp_to_userptr_sp, pass_mmap_mp_to_mmap_sp,
}
use malincam.Pump.Pass.{find_pass_func, pass_func_table, get_pass_func}

-- What each way asks of the memory of the source and of the destination, and whether each is
-- multi-planar.
abbrev pub needs : PassFunc → BufferMemory × BufferMemory × Bool × Bool
needs pass_dmabuf_mp = (memory_dmabuf_export, memory_dmabuf_import, true, true)
needs pass_dmabuf_sp_to_mp = (memory_dmabuf_export, memory_dmabuf_import, false, true)
needs pass_dmabuf_mp_to_sp = (memory_dmabuf_export, memory_dmabuf_import, true, false)
needs pass_dmabuf_sp = (memory_dmabuf_export, memory_dmabuf_import, false, false)
needs pass_mmap_to_userptr_sp = (memory_mmap, memory_userptr, false, false)
needs pass_mmap_mp_to_userptr_sp = (memory_mmap, memory_userptr, true, false)
needs pass_mmap_mp_to_mmap_sp = (memory_mmap, memory_mmap, true, false)

abbrev pub kinds : DeviceStream → DeviceStream → BufferMemory × BufferMemory × Bool × Bool
kinds src dst =
    (src.buffer_memory, dst.buffer_memory, is_mplane src.buf_type, is_mplane dst.buf_type)

chosen : BufferMemory → BufferMemory → Bool → Bool → Option PassFunc
chosen src_mem dst_mem src_mp dst_mp = find_pass_func src_mem dst_mem src_mp dst_mp pass_func_table

get_pass_func-chosen :
    (src dst : DeviceStream)
    → get_pass_func src dst
      ≡ chosen src.buffer_memory dst.buffer_memory (is_mplane src.buf_type) (is_mplane dst.buf_type)
unfolding get_pass_func chosen
get_pass_func-chosen src dst = ground arith

chosen-needs :
    (src_mem dst_mem : BufferMemory) (src_mp dst_mp : Bool) (func : PassFunc)
    → chosen src_mem dst_mem src_mp dst_mp ≡ some func
    → (src_mem, dst_mem, src_mp, dst_mp) ≡ needs func
unfolding chosen find_pass_func
chosen-needs src_mem dst_mem src_mp dst_mp func h = ground arith

needs-chosen :
    (func : PassFunc)
    → let (src_mem, dst_mem, src_mp, dst_mp) = needs func in
      chosen src_mem dst_mem src_mp dst_mp ≡ some func
unfolding chosen find_pass_func
needs-chosen pass_dmabuf_mp = refl
needs-chosen pass_dmabuf_sp_to_mp = refl
needs-chosen pass_dmabuf_mp_to_sp = refl
needs-chosen pass_dmabuf_sp = refl
needs-chosen pass_mmap_to_userptr_sp = refl
needs-chosen pass_mmap_mp_to_userptr_sp = refl
needs-chosen pass_mmap_mp_to_mmap_sp = refl

-- `getPassFunc` chooses a way exactly if the streams are of the kinds that the way needs; the
-- planes of the two formats have no say in it.
pub get_pass_func_lem :
    (src dst : DeviceStream) (func : PassFunc)
    → (get_pass_func src dst ≡ some func) ↔ (kinds src dst ≡ needs func)
get_pass_func_lem src dst func = (
  (λ h.
      chosen-needs src.buffer_memory dst.buffer_memory (is_mplane src.buf_type)
        (is_mplane dst.buf_type) func (sym (get_pass_func-chosen src dst) ∙ h)),
  (λ h. get_pass_func-chosen src dst ∙ (ap (λ x. chosen x.0 x.1 x.2 x.3) h ∙ needs-chosen func)),
)
