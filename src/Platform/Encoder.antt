-- ===== src/Platform/Encoder.antt =====
-- Pilatform.c: opening the encoder.
pub mod Ready
use malincam.Prelude.{ℕ, is_zero, Bool, true, false, Option, none, some}
use malincam.Prelude.Outcome.{Outcome, done, ◌>>=◌}
use malincam.Device.{PrepareOpts, memory_dmabuf_export, memory_dmabuf_import}
use malincam.Device.Open.{Device, device_open, device_close}
use malincam.Device.Open.Formats.{device_stream_query_formats}
use malincam.Device.Stream.{device_stream_prepare}
use malincam.Node.{Node}
use malincam.Platform.Numbers.{
  isp_crop_width, isp_crop_height, isp_output_pixfmt, pix_fmt_mjpeg, pix_fmt_h264, pix_fmt_jpeg,
}
use malincam.Platform.{Platform, opts_of}

-- `PiEncoderType`; `unknown` is another number.
pub data PiEncoderType : Type 0 where
  mjpeg h264 jpeg unknown : PiEncoderType

-- `PiEncoder`
pub record PiEncoder : Type 0 where
  pub encoder : Device

abbrev pub node_of_encoder : PiEncoder → Node
node_of_encoder enc = record { input = some enc.encoder.output; output = some enc.encoder.capture }

abbrev pub encoder_output_opts : PrepareOpts
encoder_output_opts = opts_of memory_dmabuf_import isp_output_pixfmt isp_crop_width isp_crop_height

abbrev pub encoder_capture_opts : ℕ → PrepareOpts
encoder_capture_opts pixfmt =
    opts_of memory_dmabuf_export pixfmt encoder_output_opts.width encoder_output_opts.height

module _ (platform : Platform) where
  open platform use {host, names}
  open host use {driver, Name}
  open driver use {Kernel}

  -- The label `fail` of `piOpenEncoderImpl`.
  unfoldable pub fail_encoder : Kernel → Option Device → Outcome (Option PiEncoder × Kernel)
  fail_encoder k encoder = do k' ← device_close host k encoder; done (none, k')

  -- `piOpenEncoderImpl`, its second part, with the output stream prepared.
  unfoldable pub open_encoder_capture :
      ℕ → Kernel → Device → ℕ → Outcome (Option PiEncoder × Kernel)
  unfolding fail_encoder
  open_encoder_capture fuel k encoder pixfmt = do
    (queried, k1, listed) ← device_stream_query_formats host fuel fuel k encoder.capture 0
    elim (is_zero queried) [
      | false ↦ fail_encoder k1 (some (record encoder { capture = listed }))
      | true ↦ do
        (result, k2, ready) ← device_stream_prepare driver k1 listed (encoder_capture_opts pixfmt)
        elim (is_zero result) [
          | false ↦ fail_encoder k2 (some (record encoder { capture = ready }))
          | true ↦ done (some (record { encoder = record encoder { capture = ready } }), k2)
        ]
    ]

  -- `piOpenEncoderImpl`
  unfoldable pub pi_open_encoder_impl : ℕ → Kernel → ℕ → Name → Outcome (Option PiEncoder × Kernel)
  unfolding open_encoder_capture
  pi_open_encoder_impl fuel k pixfmt device_node = do
    (opened, k1) ← device_open host fuel k device_node
    elim opened [
      | none ↦ fail_encoder k1 none
      | some encoder ↦ do
        (queried, k2, listed) ← device_stream_query_formats host fuel fuel k1 encoder.output 0
        elim (is_zero queried) [
          | false ↦ fail_encoder k2 (some (record encoder { output = listed }))
          | true ↦ do
            (result, k3, ready) ← device_stream_prepare driver k2 listed encoder_output_opts
            elim (is_zero result) [
              | false ↦ fail_encoder k3 (some (record encoder { output = ready }))
              | true ↦ open_encoder_capture fuel k3 (record encoder { output = ready }) pixfmt
            ]
        ]
    ]

  -- `piOpenEncoder`
  unfoldable pub pi_open_encoder : ℕ → Kernel → PiEncoderType → Outcome (Option PiEncoder × Kernel)
  unfolding pi_open_encoder_impl
  pi_open_encoder fuel k mjpeg = pi_open_encoder_impl fuel k pix_fmt_mjpeg names.encoder_node
  pi_open_encoder fuel k h264 = pi_open_encoder_impl fuel k pix_fmt_h264 names.encoder_node
  pi_open_encoder fuel k jpeg = pi_open_encoder_impl fuel k pix_fmt_jpeg names.jpeg_encoder_node
  pi_open_encoder fuel k unknown = done (none, k)

  -- `encoderDtor`
  unfoldable pub encoder_dtor : Kernel → Option PiEncoder → Outcome Kernel
  encoder_dtor k none = done k
  encoder_dtor k (some enc) = device_close host k (some enc.encoder)
