-- ===== src/Platform/Encoder/Ready.antt =====
-- The encoder that piOpenEncoder opens: its streams are ready to run.
use malincam.Prelude.{ℕ, is_zero, ◌≡◌, Option, none, some}
use malincam.Prelude.Outcome.{done}
use malincam.Prelude.Yields.{Yields, Yields-done, Yields-bind, Yields-test, Yields-option}
use malincam.Device.{memory_dmabuf_export, memory_dmabuf_import}
use malincam.Device.Open.{Device, device_open, device_close}
use malincam.Device.Open.Formats.{device_stream_query_formats}
use malincam.Device.Stream.{device_stream_prepare}
use malincam.Device.Stream.Memory.{IsPrepared, prepare-IsPrepared}
use malincam.Platform.{Platform}
use malincam.Platform.Numbers.{pix_fmt_mjpeg, pix_fmt_h264, pix_fmt_jpeg}
use malincam.Platform.Encoder.{
  PiEncoderType, mjpeg, h264, jpeg, unknown, PiEncoder, encoder_output_opts, encoder_capture_opts,
  fail_encoder, open_encoder_capture, pi_open_encoder_impl, pi_open_encoder,
}
use malincam.Platform.Laws.{OpensTo}

module _ (platform : Platform) where
  open platform use {host, names}
  open host use {driver, Name}
  open driver use {Kernel}

  abbrev EncoderReady : PiEncoder → Type 0
  EncoderReady enc =
      IsPrepared driver memory_dmabuf_import enc.encoder.output
      × IsPrepared driver memory_dmabuf_export enc.encoder.capture

  abbrev Opened : Option PiEncoder × Kernel → Type 0
  Opened = OpensTo EncoderReady

  fail_encoder-none :
      (k : Kernel) (dev : Option Device) → Yields Opened (fail_encoder platform k dev)
  unfolding fail_encoder
  fail_encoder-none k dev =
      Yields-bind Opened (device_close host k dev) _ (λ k1 closes. Yields-done Opened (none, k1) tt)

  open_capture-Ready :
      (fuel : ℕ) (k : Kernel) (dev : Device) (pixfmt : ℕ)
      → IsPrepared driver memory_dmabuf_import dev.output
      → Yields Opened (open_encoder_capture platform fuel k dev pixfmt)
  unfolding open_encoder_capture
  open_capture-Ready fuel k dev pixfmt out_ready =
      Yields-bind Opened (device_stream_query_formats host fuel fuel k dev.capture 0) _
        (λ (queried, k1, listed) lists.
          Yields-test Opened (is_zero queried) _ _
            (λ ok.
              Yields-bind Opened
                (device_stream_prepare driver k1 listed (encoder_capture_opts pixfmt)) _
                (λ (result, k2, ready) prepares.
                  Yields-test Opened (is_zero result) _ _
                    (λ ok'. Yields-done Opened _ (
                      out_ready,
                      prepare-IsPrepared driver k1 listed (encoder_capture_opts pixfmt) result k2
                          ready prepares ok',
                    ))
                    (fail_encoder-none k2 (some (record dev { capture = ready })))))
            (fail_encoder-none k1 (some (record dev { capture = listed }))))

  open_impl-Ready :
      (fuel : ℕ) (k : Kernel) (pixfmt : ℕ) (name : Name)
      → Yields Opened (pi_open_encoder_impl platform fuel k pixfmt name)
  unfolding pi_open_encoder_impl
  open_impl-Ready fuel k pixfmt name =
      Yields-bind Opened (device_open host fuel k name) _ (λ (found, k1) opens.
        Yields-option Opened found _ _ (fail_encoder-none k1 none) (λ dev at.
          Yields-bind Opened (device_stream_query_formats host fuel fuel k1 dev.output 0) _
            (λ (queried, k2, listed) lists.
              Yields-test Opened (is_zero queried) _ _
                (λ ok.
                  Yields-bind Opened (device_stream_prepare driver k2 listed encoder_output_opts) _
                    (λ (result, k3, ready) prepares.
                      Yields-test Opened (is_zero result) _ _
                        (λ ok'.
                          open_capture-Ready fuel k3 (record dev { output = ready }) pixfmt
                            (prepare-IsPrepared driver k2 listed encoder_output_opts result k3 ready
                              prepares ok'))
                        (fail_encoder-none k3 (some (record dev { output = ready })))))
                (fail_encoder-none k2 (some (record dev { output = listed }))))))

  open-Ready :
      (fuel : ℕ) (k : Kernel) (t : PiEncoderType)
      → Yields Opened (pi_open_encoder platform fuel k t)
  unfolding pi_open_encoder
  open-Ready fuel k mjpeg = open_impl-Ready fuel k pix_fmt_mjpeg names.encoder_node
  open-Ready fuel k h264 = open_impl-Ready fuel k pix_fmt_h264 names.encoder_node
  open-Ready fuel k jpeg = open_impl-Ready fuel k pix_fmt_jpeg names.jpeg_encoder_node
  open-Ready fuel k unknown = Yields-done Opened (none, k) tt

  -- The streams of an encoder that `piOpenEncoder` returns, for any type, are prepared, the input
  -- with buffers that it imports and the output with buffers that it exports.
  pub pi_open_encoder-Ready :
      (fuel : ℕ) (k k' : Kernel) (t : PiEncoderType) (enc : PiEncoder)
      → pi_open_encoder platform fuel k t ≡ done (some enc, k')
      → IsPrepared driver memory_dmabuf_import enc.encoder.output
        × IsPrepared driver memory_dmabuf_export enc.encoder.capture
  pi_open_encoder-Ready fuel k k' t enc opened = open-Ready fuel k t (some enc, k') opened
