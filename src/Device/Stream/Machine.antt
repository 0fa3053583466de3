-- ===== src/Device/Stream/Machine.antt =====
-- The states of a stream: what the operations of device.c do to `state`, whatever the kernel
-- answers.
use malincam.Prelude.{
  ℕ, ℤ, pos, minus, is_zero, zero, suc, ◌≡◌, ◌≢◌, ◌≤◌, refl, false, none, some, List, [], ◌∷◌,
  arith, length, ◌⊎◌, inl, inr, Bool-cases, Option-cases, not,
}
use malincam.Prelude.Outcome.{done}
use malincam.Abi.{enoent, ebusy}
use malincam.Device.{Buffer, StreamState, idle, prepared, streaming, DeviceStream, is_capture}
use malincam.Device.Driver.{Driver, Reply-cases}
use malincam.Device.Stream.{
  is_streaming, enqueue_all, stream_enqueue_buffers, switch_on, start_prepared, device_stream_start,
  device_stream_stop,
}

-- The arrows of a stream's life.
pub data Step : StreamState → StreamState → Type 0 where
  stay : (s : StreamState) → Step s s
  prepare : (s : StreamState) → is_streaming s ≡ false → Step s prepared
  start : Step prepared streaming
  stop : Step streaming prepared

state-cases : (s : StreamState) → (s ≡ idle) ⊎ ((s ≡ prepared) ⊎ (s ≡ streaming))
state-cases idle = inl refl
state-cases prepared = inr (inl refl)
state-cases streaming = inr (inr refl)

module _ (driver : Driver) where
  open driver use {Kernel, stream_on, stream_off, enqueue}

  enqueue_all_returns :
      (k : Kernel) (st : DeviceStream) (bufs : List Buffer) (n : ℕ)
      → n ≤ length bufs
      → (r : ℤ) × (k' : Kernel) × (enqueue_all driver k st bufs n ≡ done (r, k'))
  unfolding enqueue_all
  enqueue_all_returns k st bufs zero h = (pos 0, k, refl)
  enqueue_all_returns k st [] (suc n) h = absurd (omega arith)
  enqueue_all_returns k st (buf ∷ bufs) (suc n) h = elim (Reply-cases (enqueue k st.dev_fd buf).0) [
    | inl (e, failed) ↦ (minus 1, (enqueue k st.dev_fd buf).1, ground arith)
    | inr (u, ok) ↦
        let (r, k', runs) =
          enqueue_all_returns (enqueue k st.dev_fd buf).1 st bufs n (omega arith) in
        (r, k', ground (arith, runs))
  ]

  switch_on_lem :
      (k : Kernel) (st : DeviceStream)
      → ((switch_on driver k st).0 ≡ pos 0)
          × ((switch_on driver k st).2 ≡ record st { state = streaming })
        ⊎ (((switch_on driver k st).0 ≢ pos 0) × ((switch_on driver k st).2 ≡ st))
  unfolding switch_on
  switch_on_lem k st = elim (Reply-cases (stream_on k st.dev_fd st.buf_type).0) [
    | inl (e, failed) ↦ inr ((λ h. ground arith), ground arith)
    | inr (u, ok) ↦ inl (ground arith, ground arith)
  ]

  -- There is a buffer for each that is counted.
  abbrev pub HasBuffers : DeviceStream → Type 0
  HasBuffers st = elim st.buffers [
    | none ↦ st.buffers_count ≡ 0
    | some bufs ↦ st.buffers_count ≤ length bufs
  ]

  enqueue_buffers_returns :
      (k : Kernel) (st : DeviceStream)
      → HasBuffers st
      → (r : ℤ) × (k' : Kernel) × (stream_enqueue_buffers driver k st ≡ done (r, k'))
  unfolding stream_enqueue_buffers
  enqueue_buffers_returns k st has = elim (Option-cases st.buffers) [
    | inl null ↦
        let few : st.buffers_count ≤ 0 = ground arith in
        let (r, k', runs) = enqueue_all_returns k st [] st.buffers_count few in
        (r, k', ground (arith, runs))
    | inr (bufs, at) ↦
        let enough : st.buffers_count ≤ length bufs = ground arith in
        let (r, k', runs) = enqueue_all_returns k st bufs st.buffers_count enough in
        (r, k', ground (arith, runs))
  ]

  start_prepared_lem :
      (k : Kernel) (st : DeviceStream)
      → HasBuffers st
      → (r : ℤ) × (k' : Kernel) × (st' : DeviceStream) × (start_prepared driver k st
          ≡ done (r, k', st'))
        × ((r ≡ pos 0) × (st' ≡ record st { state = streaming }) ⊎ ((r ≢ pos 0) × (st' ≡ st)))
  unfolding start_prepared
  start_prepared_lem k st has = elim (Bool-cases (is_capture st.buf_type)) [
    | inl captures ↦
        let (r, k1, runs) = enqueue_buffers_returns k st has in
        elim (Bool-cases (is_zero r)) [
          | inl ok ↦ (
            (switch_on driver k1 st).0,
            (switch_on driver k1 st).1,
            (switch_on driver k1 st).2,
            ground (arith, runs),
            switch_on_lem k1 st,
          )
          | inr failed ↦ (minus 3, k1, st, ground (arith, runs), inr ((λ h. ground arith), refl))
        ]
    | inr outputs ↦ (
      (switch_on driver k st).0,
      (switch_on driver k st).1,
      (switch_on driver k st).2,
      ground arith,
      switch_on_lem k st,
    )
  ]

  -- `deviceStreamStart` of a stream that has the buffers it counts returns. It returns 0 only for a
  -- prepared stream, which is then streaming; on every error the stream is as it was.
  pub device_stream_start_lem :
      (k : Kernel) (st : DeviceStream)
      → HasBuffers st
      → (r : ℤ) × (k' : Kernel) × (st' : DeviceStream) × (device_stream_start driver k st
          ≡ done (r, k', st'))
        × ((r ≡ pos 0) × (st.state ≡ prepared) × (st' ≡ record st { state = streaming })
            ⊎ ((r ≢ pos 0) × (st' ≡ st)))
  unfolding device_stream_start
  device_stream_start_lem k st has = elim (state-cases st.state) [
    | inl at ↦ (minus enoent, k, st, ground arith, inr ((λ h. ground arith), refl))
    | inr (inl at) ↦
        let (r, k', st', runs, ends) = start_prepared_lem k st has in
        (r, k', st', ground (arith, runs), ground (arith, ends))
    | inr (inr at) ↦ (minus ebusy, k, st, ground arith, inr ((λ h. ground arith), refl))
  ]

  -- `deviceStreamStop` returns 0 exactly if the stream is then not streaming: either the stream is
  -- as it was, or it was streaming and is prepared again, with nothing else changed.
  pub device_stream_stop_lem :
      (k : Kernel) (st : DeviceStream)
      → let (r, k', st') = device_stream_stop driver k st in
        (is_zero r ≡ not (is_streaming st'.state))
        × ((st' ≡ st) ⊎ ((st.state ≡ streaming) × (st' ≡ record st { state = prepared })))
  unfolding device_stream_stop
  device_stream_stop_lem k st = elim (Bool-cases (is_streaming st.state)) [
    | inr quiet ↦ (ground arith, inl (ground arith))
    | inl on ↦ elim (Reply-cases (stream_off k st.dev_fd st.buf_type).0) [
      | inl (e, failed) ↦ (ground arith, inl (ground arith))
      | inr (u, ok) ↦ (ground arith, inr (ground arith, ground arith))
    ]
  ]
