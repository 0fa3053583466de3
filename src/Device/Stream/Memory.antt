-- ===== src/Device/Stream/Memory.antt =====
-- The memory of the buffers that deviceStreamPrepare leaves.
use malincam.Prelude.{
  zero, suc, negsuc, List, if◌then◌else◌, minus, ℤ, pos, is_zero, ◌≡◌, refl, true, arith,
  Option-cases, inl, inr, Bool-cases, ◌∙◌,
}
use malincam.Prelude.Outcome.{Outcome, done, fault, out_of_fuel}
use malincam.Prelude.Yields.{Yields, Yields-bind}
use malincam.Device.{Buffer, BufferMemory, prepared, DeviceStream, PrepareOpts}
use malincam.Device.Driver.{Driver, Reply-cases}
use malincam.Device.Picture.{stream_set_format}
use malincam.Device.Buffers.{request_memory, query_buffers, stream_request_buffers}
use malincam.Device.Buffers.Requested.{granted_loop}
use malincam.Device.Stream.{is_streaming, prepare_buffers, prepare_rects, device_stream_prepare}
use malincam.Device.Stream.Machine.{HasBuffers}
use malincam.Device.Stream.Again.{prepare_succeeds}

module _ (driver : Driver) where
  open driver use {Kernel}

  -- The stream that a call returns has the memory.
  abbrev pub HasMemory : BufferMemory → ℤ × Kernel × DeviceStream → Type 0
  HasMemory mem x = is_zero x.0 ≡ true → x.2.buffer_memory ≡ mem

  granted_loop-HasMemory :
      (granted : DeviceStream) (o : Outcome (ℤ × Kernel × List Buffer))
      → Yields (HasMemory granted.buffer_memory) (granted_loop driver granted o)
  granted_loop-HasMemory granted (done (r, k, buffers)) x runs ok = ground arith
  granted_loop-HasMemory granted fault x runs ok = absurd (ground arith)
  granted_loop-HasMemory granted out_of_fuel x runs ok = absurd (ground arith)

  request_buffers-HasMemory :
      (k : Kernel) (st : DeviceStream)
      → Yields (HasMemory st.buffer_memory) (stream_request_buffers driver k st)
  unfolding stream_request_buffers
  request_buffers-HasMemory k st x runs ok = elim (Option-cases st.buffers) [
    | inr (old, has) ↦ absurd (ground arith)
    | inl null ↦ elim (Option-cases (request_memory st.buffer_memory)) [
      | inl unknown ↦ absurd (ground arith)
      | inr (mem, known) ↦
          let (reply, k1) = driver.request_buffers k st.dev_fd st.buf_type mem st.buffers_count in
          elim (Reply-cases reply) [
            | inl (e, failed) ↦ absurd (ground arith)
            | inr ((count, capabilities), ok') ↦
                let granted = record st { buffers_count = count } in
                granted_loop-HasMemory granted (query_buffers driver k1 granted mem 0 count) x
                  (ground arith) ok
          ]
    ]
  ]

  prepare_buffers-HasMemory :
      (k : Kernel) (st : DeviceStream)
      → Yields (HasMemory st.buffer_memory) (prepare_buffers driver k st)
  unfolding prepare_buffers
  prepare_buffers-HasMemory k st =
      Yields-bind (HasMemory st.buffer_memory) (stream_request_buffers driver k st)
        (λ (result, k1, requested).
          if is_zero result
          then done (pos 0, k1, record requested { state = prepared })
          else done (minus 2, k1, requested))
        (λ (r, k1, requested) runs y ends ok.
          let kept = request_buffers-HasMemory k st (r, k1, requested) runs in ground arith)

  rects_memory :
      (k : Kernel) (st : DeviceStream) (opts : PrepareOpts)
      → (prepare_rects driver k st opts).1.buffer_memory ≡ opts.buffer_memory
  unfolding prepare_rects
  rects_memory k st opts = refl

  prepare_memory :
      (k : Kernel) (st : DeviceStream) (opts : PrepareOpts)
      → Yields (HasMemory opts.buffer_memory) (device_stream_prepare driver k st opts)
  unfolding device_stream_prepare
  prepare_memory k st opts = elim (Bool-cases (is_streaming st.state)) [
    | inl on ↦ λ x runs ok. absurd (ground arith)
    | inr off ↦ λ x runs ok.
        Yields-bind (HasMemory opts.buffer_memory)
          (stream_set_format driver k st opts.pixelformat opts.width opts.height)
          (λ (result, k1, formatted).
            if is_zero result
            then (let (k2, ready) = prepare_rects driver k1 formatted opts in
                prepare_buffers driver k2 ready)
            else done (minus 1, k1, formatted))
          (λ (result, k1, formatted) formats y ends good. elim (Bool-cases (is_zero result)) [
            | inr failed ↦ absurd (ground arith)
            | inl fine ↦
                let (k2, ready) = prepare_rects driver k1 formatted opts in
                prepare_buffers-HasMemory k2 ready y (ground arith) good
                ∙ rects_memory k1 formatted opts
          ])
          x (ground arith) ok
  ]

  -- A stream that is prepared with buffers of the memory.
  pub record IsPrepared (mem : BufferMemory) (st : DeviceStream) : Type 0 where
    pub state : st.state ≡ prepared
    pub has : HasBuffers driver st
    pub memory : st.buffer_memory ≡ mem

  pub prepare-IsPrepared :
      (k : Kernel) (st : DeviceStream) (opts : PrepareOpts) (r : ℤ) (k' : Kernel)
      (st' : DeviceStream)
      → device_stream_prepare driver k st opts ≡ done (r, k', st')
      → is_zero r ≡ true
      → IsPrepared opts.buffer_memory st'
  prepare-IsPrepared k st opts (pos zero) k' st' runs ok =
      let (off, null, state, has) = prepare_succeeds driver k st opts k' st' runs in
      record {
        state = state;
        has = has;
        memory = prepare_memory k st opts (pos zero, k', st') runs ok;
      }
  prepare-IsPrepared k st opts (pos (suc n)) k' st' runs ok = absurd (ground arith)
  prepare-IsPrepared k st opts (negsuc n) k' st' runs ok = absurd (ground arith)
