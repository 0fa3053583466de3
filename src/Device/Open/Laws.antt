-- ===== src/Device/Open/Laws.antt =====
-- What deviceOpen leaves.
use malincam.Prelude.{
  [], ℕ, ℤ, pos, negsuc, is_zero, ◌≡◌, ◌≢◌, refl, true, false, sym, ap, ◌∙◌, ◌==◌, Option, none,
  some, arith, inl, inr, Bool-cases, ◌⊎◌, has_bits, if◌then◌else◌,
}
use mathlib.Core.Path.{subst}
use malincam.Prelude.Outcome.{Outcome, done, fault, out_of_fuel, ◌>>=◌}
use malincam.V4l2.{
  BufType, no_type, video_capture, video_output, video_capture_mplane, video_output_mplane,
}
use malincam.V4l2Control.{V4l2Controls, create_from_fd}
use malincam.Device.{DeviceStream, idle}
use malincam.Device.Driver.{error, Reply-cases}
use malincam.Device.Picture.{stream_get_format}
use malincam.Device.Open.{
  Device, Host, zero_stream, cap_device_caps, read_capabilities, capture_type, output_type,
  stream_init, init_if, query_capability, device_open,
}

-- The stream is idle and has no buffers, as `deviceStreamPrepare` needs it to be.
abbrev pub Fresh : DeviceStream → Type 0
Fresh st = (st.state ≡ idle) × (st.buffers ≡ none)

-- The stream of a device at a descriptor, of a type; with no type it was not asked about.
abbrev pub Opened : ℕ → BufType → DeviceStream → Type 0
Opened fd t st =
    Fresh st
    × (st.buf_type ≡ t)
    × ((t ≡ no_type) ⊎ ((st.dev_fd ≡ fd) × ((st.buffer_capabilities == 0) ≡ false)))

-- Two streams are alike in what `streamGetFormat` leaves.
abbrev Kept : DeviceStream → DeviceStream → Type 0
Kept st su =
    (su.state ≡ st.state)
    × (su.buffers ≡ st.buffers)
    × (su.buf_type ≡ st.buf_type)
    × (su.dev_fd ≡ st.dev_fd)
    × (su.buffer_capabilities ≡ st.buffer_capabilities)

module _ (host : Host) where
  open host use {driver, Name, files, control_driver, fmtdesc_size, control_size}
  open driver use {Kernel}

  get_format-Kept : (k : Kernel) (st : DeviceStream) → Kept st (stream_get_format driver k st).2
  unfolding stream_get_format
  get_format-Kept k st = ground arith

  stream_init-Opened :
      (k : Kernel) (old : DeviceStream) (fd : ℕ) (t : BufType)
      → is_zero (stream_init host k old fd t).0 ≡ true
      → Opened fd t (stream_init host k old fd t).2
  unfolding stream_init
  stream_init-Opened k old fd t ok =
      let (capabilities, k1) = read_capabilities host k fd t in
      let stream = record (zero_stream fmtdesc_size) {
        dev_fd = fd;
        buf_type = t;
        buffer_capabilities = capabilities;
      } in
      let (state, bufs, type, at, caps) = get_format-Kept k1 stream in
      elim (Bool-cases (capabilities == 0)) [
        | inl none_known ↦ absurd (ground arith)
        | inr known ↦ elim (Bool-cases (is_zero (stream_get_format driver k1 stream).0)) [
          | inr failed ↦ absurd (ground arith)
          | inl formatted ↦
              let made : (stream_init host k old fd t).2 ≡ (stream_get_format driver k1 stream).2 =
                ground arith in
              rw made ((state, bufs), type, inr (at, ap (λ c. c == 0) caps ∙ known))
        ]
      ]

  init_if-Opened :
      (k : Kernel) (old : DeviceStream) (fd : ℕ) (t : BufType)
      → Fresh old
      → is_zero (init_if host k old fd t).0 ≡ true
      → Opened fd t (init_if host k old fd t).2
  unfolding init_if
  init_if-Opened k old fd no_type fresh ok = (fresh, refl, inl refl)
  init_if-Opened k old fd video_capture fresh ok = stream_init-Opened k old fd video_capture ok
  init_if-Opened k old fd video_output fresh ok = stream_init-Opened k old fd video_output ok
  init_if-Opened k old fd video_capture_mplane fresh ok =
      stream_init-Opened k old fd video_capture_mplane ok
  init_if-Opened k old fd video_output_mplane fresh ok =
      stream_init-Opened k old fd video_output_mplane ok

  -- Both streams of a device are opened, each with the type that the capabilities give it.
  abbrev pub BothOpened : Device → Type 0
  BothOpened dev =
      Opened dev.fd (capture_type dev.this_device_caps) dev.capture
      × Opened dev.fd (output_type dev.this_device_caps) dev.output

  -- A VIDIOC_QUERYCAP that fails sets errno to a number other than 0.
  abbrev pub QueryErrno : Type 0
  QueryErrno = (k : Kernel) (fd e : ℕ) (k' : Kernel) → files.query_caps k fd ≡ (error e, k') → e ≢ 0

  query_capability-Opened :
      (k : Kernel) (dev : Device)
      → QueryErrno
      → Fresh dev.capture
      → Fresh dev.output
      → is_zero (query_capability host k dev).0 ≡ true
      → BothOpened (query_capability host k dev).2
  unfolding query_capability
  query_capability-Opened k dev errnos capture output known =
      elim (Reply-cases (files.query_caps k dev.fd).0) [
        | inl (errno, failed) ↦ absurd (
            errnos k dev.fd errno (files.query_caps k dev.fd).1
              (ap (λ r. (r, (files.query_caps k dev.fd).1)) failed) (ground arith))
        | inr ((capabilities, device_caps), ok) ↦
            let caps =
              if has_bits capabilities cap_device_caps then device_caps else capabilities in
            let k1 = (files.query_caps k dev.fd).1 in
            let one = init_if host k1 dev.capture dev.fd (capture_type caps) in
            let two = init_if host one.1 dev.output dev.fd (output_type caps) in
            elim (Bool-cases (is_zero one.0)) [
              | inr failed ↦ absurd (ground (arith, ok))
              | inl first ↦ elim (Bool-cases (is_zero two.0)) [
                | inr failed ↦ absurd (ground (arith, ok))
                | inl second ↦
                    let made : (query_capability host k dev).2
                        ≡ record dev { this_device_caps = caps; capture = one.2; output = two.2 } =
                      ground (arith, ok) in
                    subst BothOpened (sym made) (
                      init_if-Opened k1 dev.capture dev.fd (capture_type caps) capture first,
                      init_if-Opened one.1 dev.output dev.fd (output_type caps) output second,
                    )
              ]
            ]
      ]

  -- `deviceOpen` behind the enumeration of the controls.
  abbrev with_controls : Device → Outcome (V4l2Controls × Kernel) → Outcome (Option Device × Kernel)
  with_controls dev o = do (found, k3) ← o; done (some (record dev { controls = found }), k3)

  with_controls-BothOpened :
      (opened : Device) (o : Outcome (V4l2Controls × Kernel)) (dev : Device) (k' : Kernel)
      → with_controls opened o ≡ done (some dev, k')
      → BothOpened opened
      → BothOpened dev
  with_controls-BothOpened opened (done (found, k3)) dev k' runs both =
      let same : record opened { controls = found } ≡ dev = ground arith in
      subst BothOpened same both
  with_controls-BothOpened opened fault dev k' runs both = absurd (ground arith)
  with_controls-BothOpened opened out_of_fuel dev k' runs both = absurd (ground arith)

  open_file-cases : (fd : ℤ) → ((n : ℕ) × (fd ≡ pos n)) ⊎ ((n : ℕ) × (fd ≡ negsuc n))
  open_file-cases (pos n) = inl (n, refl)
  open_file-cases (negsuc n) = inr (n, refl)

  -- If a VIDIOC_QUERYCAP that fails sets errno, a device that `deviceOpen` returns has two streams
  -- that are idle and have no buffers. Each has the type that the device's capabilities give it,
  -- and where that is a type, the device's descriptor and capabilities of its own that are not 0.
  pub device_open-BothOpened :
      (fuel : ℕ) (k : Kernel) (devname : Name) (dev : Device) (k' : Kernel)
      → QueryErrno
      → device_open host fuel k devname ≡ done (some dev, k')
      → BothOpened dev
  unfolding device_open
  device_open-BothOpened fuel k devname dev k' errnos runs =
      elim (open_file-cases (files.open_file k devname).0) [
        | inr (n, failed) ↦ absurd (ground arith)
        | inl (fd, opened) ↦
            let start : Device = record {
              fd = fd;
              this_device_caps = 0;
              controls = record { fd = 0; controls = [] };
              capture = zero_stream 0;
              output = zero_stream 0;
            } in
            let k1 = (files.open_file k devname).1 in
            let (result, k2, known) = query_capability host k1 start in
            elim (Bool-cases (is_zero result)) [
              | inr failed ↦ absurd (ground arith)
              | inl ok ↦
                  let both = query_capability-Opened k1 start errnos (refl, refl) (refl, refl) ok in
                  with_controls-BothOpened known
                    (create_from_fd Kernel control_driver control_size fuel k2 fd) dev k'
                    (ground arith) both
            ]
      ]
