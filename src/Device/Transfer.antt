-- ===== src/Device/Transfer.antt =====
-- device.c: taking a buffer from the kernel and giving one back.
pub mod Promises
pub mod Laws
pub mod Cases
use malincam.Prelude.{
  ℕ, ℤ, pos, minus, Bool, true, false, Option, none, some, List, ◌++◌, if◌then◌else◌, get_elem?,
  set, take, drop,
}
use malincam.Prelude.Outcome.{Outcome, done, fault}
use malincam.Abi.{eio}
use malincam.V4l2.{Memory, Plane, V4l2Buffer, planes, own_planes, stack_planes, offset}
use malincam.Device.{Buffer, DeviceStream, is_mplane}
use malincam.Device.Driver.{Driver, Reply, success, error}
use malincam.Device.Buffers.{max_planes}

-- The `struct v4l2_buffer` that `deviceStreamPullBuffer` passes to VIDIOC_DQBUF.
unfoldable pub dequeue_request : DeviceStream → Memory → V4l2Buffer
dequeue_request st mem =
    let b : V4l2Buffer = record {
      buf_type = st.buf_type;
      memory = mem;
      index = 0;
      length = 0;
      bytesused = 0;
      m = offset 0;
    } in
    if is_mplane st.buf_type then record b { length = max_planes; m = planes stack_planes } else b

-- What it writes to the stream's own `Buffer`: the dequeued one, with `m.planes` at its own planes.
unfoldable pub refresh : DeviceStream → Buffer → V4l2Buffer → List Plane → Buffer
refresh st old b dequeued =
    if is_mplane st.buf_type
    then record old {
      buffer = record b { m = planes own_planes };
      planes = take b.length dequeued ++ drop b.length old.planes;
    }
    else record old { buffer = b }

module _ (driver : Driver) where
  open driver use {Kernel, enqueue, dequeue}

  -- `deviceStreamPullBuffer`, once VIDIOC_DQBUF has answered: the index of the buffer that the
  -- returned pointer shows, or NULL.
  unfoldable pub receive :
      DeviceStream
      → List Buffer
      → Reply (V4l2Buffer × List Plane)
      → Kernel
      → Outcome (Option ℕ × Kernel × DeviceStream)
  unfolding refresh
  receive st bufs (error errno) k = done (none, k, st)
  receive st bufs (success (b, dequeued)) k = elim (get_elem? bufs b.index) [
    | none ↦ fault
    | some old ↦ done (
      some b.index,
      k,
      record st { buffers = some (set bufs b.index (refresh st old b dequeued)) },
    )
  ]

  -- `deviceStreamPullBuffer`. EAGAIN and EPIPE differ from other errors only in that they are not
  -- logged.
  unfoldable pub device_stream_pull_buffer :
      Kernel → DeviceStream → Outcome (Option ℕ × Kernel × DeviceStream)
  unfolding dequeue_request receive
  device_stream_pull_buffer k st = elim st.buffers [
    | none ↦ done (none, k, st)
    | some bufs ↦ elim (get_elem? bufs 0) [
      | none ↦ fault
      | some first ↦
          let (reply, k') = dequeue k st.dev_fd (dequeue_request st first.buffer.memory) in
          receive st bufs reply k'
    ]
  ]

  -- `deviceStreamPushBuffer` of the stream's own buffer `i`.
  unfoldable pub device_stream_push_buffer : Kernel → DeviceStream → ℕ → Outcome (ℤ × Kernel)
  device_stream_push_buffer k st i = elim st.buffers [
    | none ↦ done (minus eio, k)
    | some bufs ↦ elim (get_elem? bufs i) [
      | none ↦ fault
      | some buf ↦
          let (reply, k') = enqueue k st.dev_fd buf in
          elim reply [ success _ ↦ done (pos 0, k') | error errno ↦ done (pos errno, k') ]
    ]
  ]
