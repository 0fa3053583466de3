-- ===== src/Device/Transfer/Cases.antt =====
-- What deviceStreamPullBuffer and deviceStreamPushBuffer return, case by case.
use malincam.Prelude.{
  ℕ, pos, true, false, none, some, List, ◌≡◌, length, ◌<◌, ◌-◌, arith, inl, inr, ◌⊎◌, ap, ◌∙◌, suc,
}
use malincam.Prelude.Outcome.{done}
use malincam.Device.{Buffer, DeviceStream}
use malincam.Device.Driver.{Driver}
use malincam.Device.Transfer.{device_stream_pull_buffer, device_stream_push_buffer}
use malincam.Device.Transfer.Promises.{QueueLaws, Quiet, Lighter, IsLabelled}
use malincam.Device.Transfer.Laws.{
  IsActive, held, Moves, Unmoved, device_stream_pull_buffer_lem, device_stream_push_buffer_lem,
}

module _ (driver : Driver) (laws : QueueLaws driver) where
  open driver use {Kernel, enqueue, dequeue}
  open laws use {
    queued, dequeued_was_queued, dequeued_is_gone, dequeue_failed, enqueued_was_free,
    enqueued_is_held, enqueue_errno, enqueue_failed,
  }

  -- The two calls, with what they return written out.
  pub pull_cases :
      (k : Kernel) (st : DeviceStream) (bufs : List Buffer)
      → IsActive driver laws k st bufs
      → ((k' : Kernel) × (device_stream_pull_buffer driver k st ≡ done (none, k', st))
          × Unmoved driver laws k k'
          × Lighter driver k k')
        ⊎ ((i : ℕ) × (k' : Kernel) × (bufs' : List Buffer) × (device_stream_pull_buffer driver k st
              ≡ done (some i, k', record st { buffers = some bufs' }))
            × (held driver laws k st i ≡ true)
            × Moves driver laws k st i false k'
            × (length bufs' ≡ length bufs)
            × IsLabelled st bufs'
            × Lighter driver k k'
            × ((q : Quiet driver)
                → q.ready k' st.dev_fd st.buf_type < q.ready k st.dev_fd st.buf_type))
  pull_cases k st bufs active =
      let (r, runs, pulled) = device_stream_pull_buffer_lem driver laws k st bufs active in
      elim pulled [
        | inl (nothing, same, kept, light) ↦
            inl (r.1, runs ∙ (λ i. done (nothing i, r.1, kept i)), same, light)
        | inr (i, bufs', got, was, moves, kept, len, labelled, light, fewer) ↦ inr (
          i,
          r.1,
          bufs',
          runs ∙ (λ j. done (got j, r.1, kept j)),
          was,
          moves,
          len,
          labelled,
          light,
          fewer,
        )
      ]

  pub push_cases :
      (k : Kernel) (st : DeviceStream) (bufs : List Buffer) (i : ℕ)
      → IsActive driver laws k st bufs
      → i < length bufs
      → ((k' : Kernel) × (device_stream_push_buffer driver k st i ≡ done (pos 0, k'))
          × (held driver laws k st i ≡ false)
          × Moves driver laws k st i true k'
          × Lighter driver k k')
        ⊎ ((k' : Kernel) × (n : ℕ) × (device_stream_push_buffer driver k st i
              ≡ done (pos (suc n), k'))
            × Unmoved driver laws k k'
            × Lighter driver k k')
  push_cases k st bufs i active lt =
      let (r, runs, pushed) = device_stream_push_buffer_lem driver laws k st bufs i active lt in
      elim pushed.1 [
        | inl (ok, was, moves) ↦ inl (r.1, runs ∙ (λ j. done (ok j, r.1)), was, moves, pushed.0)
        | inr (errno, failed, positive, same) ↦
            let value : r.0 ≡ pos (suc (errno - 1)) = failed ∙ ap pos (omega arith) in
            inr (r.1, errno - 1, runs ∙ (λ j. done (value j, r.1)), same, pushed.0)
      ]
