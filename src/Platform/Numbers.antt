-- ===== src/Platform/Numbers.antt =====
-- Pilatform.c: the numbers it names, and those of the kernel's headers that it uses, at their
-- documented values.
use malincam.Prelude.{ℕ, ℤ, pos, ◌+◌, ◌*◌, Bool, false, ◌==◌}

-- SENSOR_WIDTH, SENSOR_HEIGHT, ISP_CROP_WIDTH, ISP_CROP_HEIGHT
abbrev pub sensor_width : ℕ
sensor_width = 1332

abbrev pub sensor_height : ℕ
sensor_height = 990

abbrev pub isp_crop_width : ℕ
isp_crop_width = 1332

abbrev pub isp_crop_height : ℕ
isp_crop_height = 976

-- v4l2_fourcc
abbrev pub fourcc : ℕ → ℕ → ℕ → ℕ → ℕ
fourcc a b c d = a + 256 * b + 65536 * c + 16777216 * d

-- MEDIA_BUS_FMT_SRGGB10_1X10, V4L2_PIX_FMT_SBGGR10P, V4L2_PIX_FMT_YUV420
abbrev pub sensor_busfmt : ℕ
sensor_busfmt = 0x300f

abbrev pub camera_pixfmt : ℕ
camera_pixfmt = fourcc b'p' b'B' b'A' b'A'

abbrev pub isp_output_pixfmt : ℕ
isp_output_pixfmt = fourcc b'Y' b'U' b'1' b'2'

-- V4L2_PIX_FMT_MJPEG, V4L2_PIX_FMT_H264, V4L2_PIX_FMT_JPEG
abbrev pub pix_fmt_mjpeg : ℕ
pix_fmt_mjpeg = fourcc b'M' b'J' b'P' b'G'

abbrev pub pix_fmt_h264 : ℕ
pix_fmt_h264 = fourcc b'H' b'2' b'6' b'4'

abbrev pub pix_fmt_jpeg : ℕ
pix_fmt_jpeg = fourcc b'J' b'P' b'E' b'G'

-- The ids of controls.
abbrev pub cid_red_balance : ℕ
cid_red_balance = 0x0098090e

abbrev pub cid_blue_balance : ℕ
cid_blue_balance = 0x0098090f

abbrev pub cid_hflip : ℕ
cid_hflip = 0x00980914

abbrev pub cid_vflip : ℕ
cid_vflip = 0x00980915

abbrev pub cid_camera_sensor_rotation : ℕ
cid_camera_sensor_rotation = 0x009a0923

abbrev pub cid_analogue_gain : ℕ
cid_analogue_gain = 0x009e0903

abbrev pub cid_digital_gain : ℕ
cid_digital_gain = 0x009f0905

-- `case 180`
abbrev pub is_half_turn : ℤ → Bool
is_half_turn (pos n) = n == 180
is_half_turn _ = false
