-- ===== src/Device/Stream/Again.antt =====
-- deviceStreamPrepare, and what it does to a stream that has been prepared before.
use malincam.Prelude.{
  ℕ, ℤ, pos, minus, is_zero, ◌≡◌, refl, Bool, true, false, none, some, List, arith, ◌⊎◌, inl, inr,
  Bool-cases, sym, ap, ◌∙◌,
}
use malincam.Prelude.Outcome.{Outcome, done, fault, out_of_fuel}
use malincam.Abi.{ebusy}
use malincam.Device.{Buffer, prepared, DeviceStream, PrepareOpts}
use malincam.Device.Driver.{Driver}
use malincam.Device.Picture.{stream_set_format, set_crop, set_compose}
use malincam.Device.Buffers.{stream_request_buffers}
use malincam.Device.Buffers.Requested.{Requested, request-Requested}
use malincam.Device.Stream.{is_streaming, prepare_buffers, prepare_rects, device_stream_prepare}
use malincam.Device.Stream.Machine.{HasBuffers}

-- The stream has the state and the buffers of another.
abbrev pub Alike : DeviceStream → DeviceStream → Type 0
Alike st su = (su.state ≡ st.state) × (su.buffers ≡ st.buffers)

module _ (driver : Driver) where
  open driver use {Kernel}

  set_crop-Alike :
      (k : Kernel) (st : DeviceStream) (w h : ℕ) → Alike st (set_crop driver k st w h).1
  unfolding set_crop
  set_crop-Alike k st w h = ground arith

  set_compose-Alike :
      (k : Kernel) (st : DeviceStream) (w h : ℕ) → Alike st (set_compose driver k st w h).1
  unfolding set_compose
  set_compose-Alike k st w h = ground arith

  prepare_rects-Alike :
      (k : Kernel) (st : DeviceStream) (opts : PrepareOpts)
      → Alike st (prepare_rects driver k st opts).1
        × ((prepare_rects driver k st opts).1.buffers_count ≡ opts.buffers_count)
  unfolding prepare_rects
  prepare_rects-Alike k st opts =
      let cropped =
        set_crop driver k
          (record st {
            crop = record { left = pos 0; top = pos 0; width = opts.width; height = opts.height };
          })
          opts.crop_width opts.crop_height in
      let one =
        set_crop-Alike k
          (record st {
            crop = record { left = pos 0; top = pos 0; width = opts.width; height = opts.height };
          })
          opts.crop_width opts.crop_height in
      let two =
        set_compose-Alike cropped.0 (record cropped.1 { compose = cropped.1.crop }) opts.crop_width
          opts.crop_height in
      ((two.0 ∙ one.0, two.1 ∙ one.1), refl)

  stream_set_format-Alike :
      (k : Kernel) (st : DeviceStream) (f w h : ℕ) (r : ℤ) (k' : Kernel) (st' : DeviceStream)
      → stream_set_format driver k st f w h ≡ done (r, k', st')
      → Alike st st'
  unfolding stream_set_format
  stream_set_format-Alike k st f w h r k' st' runs = ground arith

  request-refused :
      (k : Kernel) (st : DeviceStream) (old : List Buffer)
      → st.buffers ≡ some old
      → stream_request_buffers driver k st ≡ done (minus ebusy, k, st)
  unfolding stream_request_buffers
  request-refused k st old has = ground arith

  prepare_buffers-refused :
      (k : Kernel) (st : DeviceStream) (old : List Buffer)
      → st.buffers ≡ some old
      → prepare_buffers driver k st ≡ done (minus 2, k, st)
  unfolding prepare_buffers
  prepare_buffers-refused k st old has = ground (arith, request-refused k st old has)

  -- The device refuses the format asked for, or takes it.
  abbrev pub Formats : Bool → Kernel → DeviceStream → PrepareOpts → Type 0
  Formats taken k st opts =
      (status : ℤ) × (k1 : Kernel) × (formatted : DeviceStream) × (stream_set_format driver k st
          opts.pixelformat opts.width opts.height
        ≡ done (status, k1, formatted))
      × (is_zero status ≡ taken)

  -- What is left once the format is set, or refused.
  prepare_formatted :
      (k : Kernel) (st : DeviceStream) (opts : PrepareOpts)
      (o : Outcome (ℤ × Kernel × DeviceStream))
      → is_streaming st.state ≡ false
      → stream_set_format driver k st opts.pixelformat opts.width opts.height ≡ o
      → (r : ℤ) (k' : Kernel) (st' : DeviceStream)
      → device_stream_prepare driver k st opts ≡ done (r, k', st')
      → ((r ≡ minus 1) × Formats false k st opts × Alike st st')
        ⊎ (Formats true k st opts
            × (k1 : Kernel) × (ready : DeviceStream) × Alike st ready
            × (ready.buffers_count ≡ opts.buffers_count)
            × (prepare_buffers driver k1 ready ≡ done (r, k', st')))
  unfolding device_stream_prepare
  prepare_formatted k st opts fault quiet formats r k' st' runs = absurd (ground arith)
  prepare_formatted k st opts out_of_fuel quiet formats r k' st' runs = absurd (ground arith)
  prepare_formatted k st opts (done (status, k1, formatted)) quiet formats r k' st' runs =
      let same =
        stream_set_format-Alike k st opts.pixelformat opts.width opts.height status k1 formatted
          formats in
      elim (Bool-cases (is_zero status)) [
        | inr failed ↦ inl (ground arith, (status, k1, formatted, formats, failed), ground arith)
        | inl ok ↦
            let (alike, count) = prepare_rects-Alike k1 formatted opts in
            inr (
              (status, k1, formatted, formats, ok),
              (prepare_rects driver k1 formatted opts).0,
              (prepare_rects driver k1 formatted opts).1,
              (alike.0 ∙ same.0, alike.1 ∙ same.1),
              count,
              ground arith,
            )
      ]

  -- `deviceStreamPrepare` of a stream that has buffers never succeeds: where it returns, it leaves
  -- the buffers and the state as they were. It returns -EBUSY for a streaming stream, which it does
  -- not change at all; and else -1 where the device refuses the format, and -2 where it takes it,
  -- after it has written the new number of buffers over that of the old ones.
  pub prepare_again :
      (k : Kernel) (st : DeviceStream) (opts : PrepareOpts) (old : List Buffer) (r : ℤ)
      (k' : Kernel) (st' : DeviceStream)
      → st.buffers ≡ some old
      → device_stream_prepare driver k st opts ≡ done (r, k', st')
      → Alike st st'
        × ((is_streaming st.state ≡ true) × (r ≡ minus ebusy) × (st' ≡ st) × (k' ≡ k)
            ⊎ ((is_streaming st.state ≡ false)
                × ((r ≡ minus 1) × Formats false k st opts
                    ⊎ ((r ≡ minus 2)
                        × Formats true k st opts
                        × (st'.buffers_count ≡ opts.buffers_count)))))
  unfolding device_stream_prepare
  prepare_again k st opts old r k' st' has runs = elim (Bool-cases (is_streaming st.state)) [
    | inl on ↦ (ground arith, inl (on, ground arith, ground arith, ground arith))
    | inr quiet ↦
        elim (prepare_formatted k st opts
          (stream_set_format driver k st opts.pixelformat opts.width opts.height) quiet refl r k'
          st' runs) [
            | inl (failed, refused, alike) ↦ (alike, inr (quiet, inl (failed, refused)))
            | inr (taken, k1, ready, alike, count, prepares) ↦
                let refused = prepare_buffers-refused k1 ready old (alike.1 ∙ has) in
                let same : (r ≡ minus 2) × (st' ≡ ready) = ground arith in
                (
                  (ap (λ d. d.state) same.1 ∙ alike.0, ap (λ d. d.buffers) same.1 ∙ alike.1),
                  inr (quiet, inr (same.0, taken, ap (λ d. d.buffers_count) same.1 ∙ count)),
                )
          ]
  ]

  prepare_buffers-ok :
      (k : Kernel) (st : DeviceStream) (o : Outcome (ℤ × Kernel × DeviceStream))
      → stream_request_buffers driver k st ≡ o
      → Requested driver st o
      → (k' : Kernel) (st' : DeviceStream) → prepare_buffers driver k st ≡ done (pos 0, k', st')
      → (st.buffers ≡ none) × (st'.state ≡ prepared) × HasBuffers driver st'
  unfolding prepare_buffers
  prepare_buffers-ok k st (done (r, k1, requested)) requests gives k' st' runs =
      elim (Bool-cases (is_zero r)) [
        | inl ok ↦
            let (bufs, null, has, counted) = gives r k1 requested refl ok in
            let same : st' ≡ record requested { state = prepared } = ground arith in
            (null, ap (λ d. d.state) same, ground arith)
        | inr failed ↦ absurd (ground arith)
      ]
  prepare_buffers-ok k st fault requests gives k' st' runs = absurd (ground arith)
  prepare_buffers-ok k st out_of_fuel requests gives k' st' runs = absurd (ground arith)

  -- `deviceStreamPrepare` returns 0 only for a stream that was not streaming and had no buffers;
  -- the stream is then prepared, and has a buffer for each that it counts.
  pub prepare_succeeds :
      (k : Kernel) (st : DeviceStream) (opts : PrepareOpts) (k' : Kernel) (st' : DeviceStream)
      → device_stream_prepare driver k st opts ≡ done (pos 0, k', st')
      → (is_streaming st.state ≡ false)
        × (st.buffers ≡ none)
        × (st'.state ≡ prepared)
        × HasBuffers driver st'
  unfolding device_stream_prepare
  prepare_succeeds k st opts k' st' runs = elim (Bool-cases (is_streaming st.state)) [
    | inl on ↦ absurd (ground arith)
    | inr quiet ↦
        elim (prepare_formatted k st opts
          (stream_set_format driver k st opts.pixelformat opts.width opts.height) quiet refl (pos 0)
          k' st' runs) [
            | inl (failed, refused, alike) ↦ absurd (ground arith)
            | inr (taken, k1, ready, alike, count, prepares) ↦
                let (null, state, has) =
                  prepare_buffers-ok k1 ready (stream_request_buffers driver k1 ready) refl
                    (request-Requested driver k1 ready) k' st' prepares in
                (quiet, sym alike.1 ∙ null, state, has)
          ]
  ]
