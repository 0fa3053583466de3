-- ===== src/Abi.antt =====
-- Numbers of the Linux interface that the program writes by name: the headers that define them are
-- not part of the repository. Each is the kernel's documented value.
use malincam.Prelude.{ℕ}

-- errno values (asm-generic/errno-base.h, errno.h)
abbrev pub enoent : ℕ
enoent = 2

abbrev pub eintr : ℕ
eintr = 4

abbrev pub eio : ℕ
eio = 5

abbrev pub eagain : ℕ
eagain = 11

abbrev pub enomem : ℕ
enomem = 12

abbrev pub ebusy : ℕ
ebusy = 16

abbrev pub einval : ℕ
einval = 22

abbrev pub enotty : ℕ
enotty = 25

abbrev pub epipe : ℕ
epipe = 32

abbrev pub eperm : ℕ
eperm = 1

abbrev pub el2hlt : ℕ
el2hlt = 51

-- Request codes of <linux/usb/video.h>
abbrev pub uvc_set_cur : ℕ
uvc_set_cur = 0x01

abbrev pub uvc_get_cur : ℕ
uvc_get_cur = 0x81

abbrev pub uvc_get_min : ℕ
uvc_get_min = 0x82

abbrev pub uvc_get_max : ℕ
uvc_get_max = 0x83

abbrev pub uvc_get_res : ℕ
uvc_get_res = 0x84

abbrev pub uvc_get_len : ℕ
uvc_get_len = 0x85

abbrev pub uvc_get_info : ℕ
uvc_get_info = 0x86

abbrev pub uvc_get_def : ℕ
uvc_get_def = 0x87

-- Control selectors of <linux/usb/video.h>
abbrev pub uvc_vc_request_error_code_control : ℕ
uvc_vc_request_error_code_control = 0x02

abbrev pub uvc_ct_ae_mode_control : ℕ
uvc_ct_ae_mode_control = 0x02

abbrev pub uvc_pu_brightness_control : ℕ
uvc_pu_brightness_control = 0x02

abbrev pub uvc_vs_probe_control : ℕ
uvc_vs_probe_control = 0x01

abbrev pub uvc_vs_commit_control : ℕ
uvc_vs_commit_control = 0x02

-- UVC_CONTROL_CAP_GET, UVC_CONTROL_CAP_SET
abbrev pub cap_get : ℕ
cap_get = 1

abbrev pub cap_set : ℕ
cap_set = 2

-- USB_TYPE_MASK, USB_TYPE_CLASS of <linux/usb/ch9.h>
abbrev pub usb_type_mask : ℕ
usb_type_mask = 0x60

abbrev pub usb_type_class : ℕ
usb_type_class = 0x20

-- sizeof(struct uvc_streaming_control), and the bytes of a response
abbrev pub streaming_control_size : ℕ
streaming_control_size = 34

abbrev pub response_size : ℕ
response_size = 60
