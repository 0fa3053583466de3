-- ===== src/Device/Bench/Streams.antt =====
-- Two streams on the kernel in memory: a camera and an encoder, for the witnesses.
use malincam.Prelude.{
  ℕ, pos, zero, suc, refl, ◌&&◌, List, [], ◌∷◌, ◌==◌, if◌then◌else◌, arith, Option, some, ltb,
}
use malincam.V4l2.{
  BufType, video_capture, video_output, offset, zero_rect, zero_format, Memory, mmap, dmabuf,
}
use malincam.Array.{Block}
use malincam.Device.{
  Buffer, BufferMemory, memory_dmabuf_export, memory_dmabuf_import, StreamState, streaming,
  DeviceStream,
}
use malincam.Device.Transfer.Promises.{IsLabelled}
use malincam.Device.Transfer.Laws.{IsActive}
use malincam.Device.Bench.{Bench, bench, bench_laws}

-- A camera of two buffers at descriptor 3, and an encoder of two at descriptor 4.
abbrev pub test_buffer : BufType → Memory → ℕ → Buffer
test_buffer t mem i = record {
  buffer = record {
    buf_type = t;
    memory = mem;
    index = i;
    length = 100;
    bytesused = 10;
    m = offset 0;
  };
  planes = [];
  mapped = 4096 ∷ [];
  dmabuf_fds = pos 5 ∷ [];
}

abbrev pub camera_buffers : List Buffer
camera_buffers = test_buffer video_capture mmap 0 ∷ test_buffer video_capture mmap 1 ∷ []

abbrev pub encoder_buffers : List Buffer
encoder_buffers = test_buffer video_output dmabuf 0 ∷ test_buffer video_output dmabuf 1 ∷ []

abbrev pub test_stream :
    ℕ → BufType → BufferMemory → StreamState → ℕ → Option (List Buffer) → DeviceStream
test_stream fd t mem state count buffers = record {
  dev_fd = fd;
  buf_type = t;
  buffer_capabilities = 0;
  state = state;
  format = zero_format t;
  crop = zero_rect;
  compose = zero_rect;
  formats = record { block = Block.null; size = 0; capacity = 0; item_size = 64 };
  buffer_memory = mem;
  buffers_count = count;
  buffers = buffers;
}

abbrev pub camera : DeviceStream
camera = test_stream 3 video_capture memory_dmabuf_export streaming 2 (some camera_buffers)

abbrev pub encoder : DeviceStream
encoder = test_stream 4 video_output memory_dmabuf_import streaming 2 (some encoder_buffers)

-- The camera has filled both its buffers; the encoder has none.
abbrev pub filled_bench : Bench
filled_bench = record {
  queued = λ fd t i. fd == 3 && ltb i 2;
  done_in = λ fd t. if fd == 3 then 0 ∷ 1 ∷ [] else [];
}

camera-IsLabelled : IsLabelled camera camera_buffers
camera-IsLabelled zero b at = ground arith
camera-IsLabelled (suc zero) b at = ground arith
camera-IsLabelled (suc (suc i)) b at = absurd (ground arith)

encoder-IsLabelled : IsLabelled encoder encoder_buffers
encoder-IsLabelled zero b at = ground arith
encoder-IsLabelled (suc zero) b at = ground arith
encoder-IsLabelled (suc (suc i)) b at = absurd (ground arith)

pub camera-IsActive : IsActive bench bench_laws filled_bench camera camera_buffers
camera-IsActive = record {
  has_buffers = refl;
  nonempty = omega arith;
  labelled = camera-IsLabelled;
  in_range = λ i h. ground arith;
}

pub encoder-IsActive : IsActive bench bench_laws filled_bench encoder encoder_buffers
encoder-IsActive = record {
  has_buffers = refl;
  nonempty = omega arith;
  labelled = encoder-IsLabelled;
  in_range = λ i h. absurd (ground arith);
}
