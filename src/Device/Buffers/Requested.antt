-- ===== src/Device/Buffers/Requested.antt =====
-- streamRequestBuffers: a request that succeeds gives a buffer for each that is counted.
use malincam.Prelude.{
  ℕ, ℤ, pos, negsuc, is_zero, ◌≡◌, refl, true, false, none, some, List, arith, inl, inr,
  Option-cases, ap, ◌∙◌, length, zero, suc, ◌+◌, [], ◌∷◌, if◌then◌else◌,
}
use malincam.Prelude.Outcome.{Outcome, done, fault, out_of_fuel, ◌>>=◌}
use malincam.V4l2.{Memory}
use malincam.Device.{Buffer, DeviceStream}
use malincam.Device.Driver.{Driver, Reply-cases}
use malincam.Device.Buffers.{
  query_for, query_buffers, buffer_prepare, fresh_buffer, request_memory, stream_request_buffers,
}

module _ (driver : Driver) where
  open driver use {Kernel}

  -- The loop of `streamRequestBuffers` behind its own later rounds, and behind the preparation of
  -- one buffer.
  abbrev with_rest :
      Buffer → Outcome (ℤ × Kernel × List Buffer) → Outcome (ℤ × Kernel × List Buffer)
  with_rest buf rest = do (last, k3, later) ← rest; done (last, k3, buf ∷ later)

  abbrev with_buffer :
      DeviceStream
      → Memory
      → ℕ
      → ℕ
      → Outcome (ℤ × Kernel × Buffer)
      → Outcome (ℤ × Kernel × List Buffer)
  with_buffer st mem i n prepares = do
    (result, k2, buf) ← prepares
    elim (is_zero result) [
      | true ↦ with_rest buf (query_buffers driver k2 st mem (i + 1) n)
      | false ↦ done (pos 1, k2, [])
    ]

  -- If it gives 0, there are `n` buffers.
  abbrev Counts : ℕ → Outcome (ℤ × Kernel × List Buffer) → Type 0
  Counts n o =
      (r : ℤ) (k' : Kernel) (bufs : List Buffer)
      → o ≡ done (r, k', bufs)
      → is_zero r ≡ true
      → length bufs ≡ n

  with_rest-Counts :
      (buf : Buffer) (n : ℕ) (rest : Outcome (ℤ × Kernel × List Buffer))
      → Counts n rest
      → Counts (suc n) (with_rest buf rest)
  with_rest-Counts buf n (done (last, k3, later)) ih r k' bufs runs ok =
      let same : (last ≡ r) × (bufs ≡ buf ∷ later) = ground arith in
      ap length same.1 ∙ ap suc (ih last k3 later refl (ap is_zero same.0 ∙ ok))
  with_rest-Counts buf n fault ih r k' bufs runs ok = absurd (ground arith)
  with_rest-Counts buf n out_of_fuel ih r k' bufs runs ok = absurd (ground arith)

  with_buffer-Counts :
      (st : DeviceStream) (mem : Memory) (i n : ℕ) (prepares : Outcome (ℤ × Kernel × Buffer))
      → ((k : Kernel) → Counts n (query_buffers driver k st mem (i + 1) n))
      → Counts (suc n) (with_buffer st mem i n prepares)
  with_buffer-Counts st mem i n fault ih r k' bufs runs ok = absurd (ground arith)
  with_buffer-Counts st mem i n out_of_fuel ih r k' bufs runs ok = absurd (ground arith)
  with_buffer-Counts st mem i n (done (pos zero, k2, buf)) ih r k' bufs runs ok =
      with_rest-Counts buf n (query_buffers driver k2 st mem (i + 1) n) (ih k2) r k' bufs runs ok
  with_buffer-Counts st mem i n (done (pos (suc e), k2, buf)) ih r k' bufs runs ok =
      absurd (ground arith)
  with_buffer-Counts st mem i n (done (negsuc e, k2, buf)) ih r k' bufs runs ok =
      absurd (ground arith)

  query_buffers-Counts :
      (n : ℕ) (k : Kernel) (st : DeviceStream) (mem : Memory) (i : ℕ)
      → Counts n (query_buffers driver k st mem i n)
  unfolding query_buffers
  query_buffers-Counts zero k st mem i r k' bufs runs ok = ground arith
  query_buffers-Counts (suc n) k st mem i r k' bufs runs ok =
      let (reply, k1) = driver.query_buffer k st.dev_fd (query_for driver st mem i) in
      elim (Reply-cases reply) [
        | inl (e, failed) ↦ absurd (ground arith)
        | inr ((b, queried), found) ↦
            with_buffer-Counts st mem i n
              (buffer_prepare driver k1 st (fresh_buffer b) queried st.buffer_memory)
              (λ k2. query_buffers-Counts n k2 st mem (i + 1)) r k' bufs (ground arith) ok
      ]

  -- What a request of buffers gives if it returns 0.
  abbrev pub Requested : DeviceStream → Outcome (ℤ × Kernel × DeviceStream) → Type 0
  Requested st o =
      (r : ℤ) (k' : Kernel) (st' : DeviceStream)
      → o ≡ done (r, k', st')
      → is_zero r ≡ true
      → (bufs : List Buffer) × (st.buffers ≡ none)
        × (st'.buffers ≡ some bufs)
        × (length bufs ≡ st'.buffers_count)

  -- `streamRequestBuffers`, behind VIDIOC_REQBUFS and behind the loop.
  abbrev pub granted_loop :
      DeviceStream → Outcome (ℤ × Kernel × List Buffer) → Outcome (ℤ × Kernel × DeviceStream)
  granted_loop granted o = do
    (result, k2, buffers) ← o
    if is_zero result
        then done (pos 0, k2, record granted { buffers = some buffers })
        else done (pos 1, k2, record granted { buffers = none })

  granted_loop-Requested :
      (granted : DeviceStream) (o : Outcome (ℤ × Kernel × List Buffer))
      → granted.buffers ≡ none
      → Counts granted.buffers_count o
      → Requested granted (granted_loop granted o)
  granted_loop-Requested granted (done (pos zero, k2, buffers)) null counts r k' st' runs ok =
      (buffers, null, ground arith, counts (pos 0) k2 buffers refl refl ∙ ground arith)
  granted_loop-Requested granted (done (pos (suc e), k2, buffers)) null counts r k' st' runs ok =
      absurd (ground arith)
  granted_loop-Requested granted (done (negsuc e, k2, buffers)) null counts r k' st' runs ok =
      absurd (ground arith)
  granted_loop-Requested granted fault null counts r k' st' runs ok = absurd (ground arith)
  granted_loop-Requested granted out_of_fuel null counts r k' st' runs ok = absurd (ground arith)

  pub request-Requested :
      (k : Kernel) (st : DeviceStream) → Requested st (stream_request_buffers driver k st)
  unfolding stream_request_buffers
  request-Requested k st r k' st' runs ok = elim (Option-cases st.buffers) [
    | inr (old, has) ↦ absurd (ground arith)
    | inl null ↦ elim (Option-cases (request_memory st.buffer_memory)) [
      | inl unknown ↦ absurd (ground arith)
      | inr (mem, known) ↦
          let (reply, k1) = driver.request_buffers k st.dev_fd st.buf_type mem st.buffers_count in
          elim (Reply-cases reply) [
            | inl (e, failed) ↦ absurd (ground arith)
            | inr ((count, capabilities), ok') ↦
                let granted = record st { buffers_count = count } in
                granted_loop-Requested granted (query_buffers driver k1 granted mem 0 count) null
                  (query_buffers-Counts count k1 granted mem 0) r k' st' (ground arith) ok
          ]
    ]
  ]
