-- ===== src/Pump.antt =====
-- pump.h: a pump moves buffers from one stream to another. The children model pump.c.
pub mod Pass
pub mod Create
pub mod Cycle
pub mod Claims
pub mod Ownership
mod Tests
use malincam.Prelude.{ℕ, Option, List}
use malincam.Queue.{Queue}

-- `buffer_pass_func`: the functions that the table of pump.c can name.
pub data PassFunc : Type 0 where
  pass_dmabuf_mp pass_dmabuf_sp_to_mp pass_dmabuf_mp_to_sp pass_dmabuf_sp : PassFunc
  pass_mmap_to_userptr_sp pass_mmap_mp_to_userptr_sp pass_mmap_mp_to_mmap_sp : PassFunc

-- `Pump`, without the pointers to its streams: they are arguments of its functions. The -1 of
-- `next_in_queue` and of `acquired_to_source` is `none`.
pub record Pump : Type 0 where
  pub next_in_queue : Option ℕ
  pub acquired_to_source : List (Option ℕ)
  pub available : Queue ℕ
  pub pass_func : PassFunc
  pub planes_count : ℕ
