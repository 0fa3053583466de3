-- ===== src/Uvc/Controls.antt =====
-- UVC.c: the controls of the gadget, the functions that answer for each, and the table of them.
use malincam.Prelude.{
  ℕ, ℤ, pos, negsuc, ◌-◌, ◌*◌, ◌/◌, ◌%◌, bit_or, Option, none, some, List, [], ◌∷◌, ◌++◌, ◌==◌,
  ◌||◌, if◌then◌else◌, length, drop, replicate,
}
use malincam.Abi.{
  uvc_get_cur, uvc_get_min, uvc_get_max, uvc_get_res, uvc_get_def,
  uvc_vc_request_error_code_control, uvc_ct_ae_mode_control, uvc_pu_brightness_control,
  uvc_vs_probe_control, uvc_vs_commit_control, cap_get, cap_set, streaming_control_size,
}
use malincam.Uvc.{
  Request, Response, DispatchTag, brightness_get_info, GetFunc, get_error_code, get_ae_mode,
  get_brightness, get_probe_commit, brightness_set, probe_commit_set, UsbUvcControl, Brightness,
  Uvc,
}

-- UVC_REQ_ERROR_NO_ERROR, UVC_REQ_ERROR_INVALID_CONTROL, UVC_REQ_ERROR_INVALID_REQUEST
abbrev pub no_error : ℕ
no_error = 0x00

abbrev pub invalid_control : ℕ
invalid_control = 0x06

abbrev pub invalid_request : ℕ
invalid_request = 0x07

-- A number's bytes in memory, lowest first.
abbrev pub le16 : ℕ → List ℕ
le16 n = n % 256 ∷ n / 256 % 256 ∷ []

abbrev pub le32 : ℕ → List ℕ
le32 n = n % 256 ∷ n / 256 % 256 ∷ n / 65536 % 256 ∷ n / 16777216 % 256 ∷ []

-- The bits of an `int64_t` that an `s16` keeps.
abbrev pub s16_bits : ℤ → ℕ
s16_bits (pos n) = n % 65536
s16_bits (negsuc n) = 65535 - n % 65536

-- A structure written over the start of the response's data.
abbrev pub overwrite : List ℕ → List ℕ → List ℕ
overwrite start bytes = start ++ drop (length start) bytes

-- `uvcHandleVcInterfaceErrorCodeControl`
unfoldable pub error_code_get : Uvc → Request → Response → ℕ × Response
error_code_get uvc req response =
    if req.request == uvc_get_cur
    then (
      no_error,
      record { length = pos 1; bytes = overwrite (uvc.request_error_code ∷ []) response.bytes },
    )
    else (invalid_request, response)

-- The `struct uvc_streaming_control` that answers GET_CUR, GET_MIN, GET_DEF and GET_MAX.
abbrev pub streaming_control : List ℕ
streaming_control =
    le16 1
    ++ (1 ∷ 1 ∷ le32 83333
        ++ (replicate 10 0
            ++ (le32 (1332 * 976 * 2) ++ (le32 1024 ++ (le32 0 ++ (3 ∷ 1 ∷ 1 ∷ 1 ∷ []))))))

-- `uvcHandleVsInterfaceProbeCommitControl`
unfoldable pub probe_commit_get : Uvc → Request → Response → ℕ × Response
probe_commit_get uvc req response =
    let sized = record response { length = pos streaming_control_size } in
    (
      no_error,
      if req.request == uvc_get_cur
            || req.request == uvc_get_min
            || req.request == uvc_get_def
            || req.request == uvc_get_max
          then record sized { bytes = overwrite streaming_control response.bytes }
          else if req.request == uvc_get_res
          then record sized {
            bytes = overwrite (replicate streaming_control_size 0) response.bytes;
          }
          else sized,
    )

-- `uvcVcPuBrightnessGetInfo`
unfoldable pub brightness_info : Uvc → ℕ
brightness_info uvc = elim uvc.brightness [ none ↦ 0 | some v4l2 ↦ bit_or cap_get cap_set ]

-- The `switch` of `uvcVcPuBrightnessGet`: what it writes to `wBrightness`, if it writes. GET_MAX
-- reads the minimum, as in the code.
unfoldable pub brightness_value : Brightness → ℕ → Option ℤ
brightness_value v4l2 request =
    if request == uvc_get_cur
    then some v4l2.value
    else if request == uvc_get_min
    then some v4l2.minimum
    else if request == uvc_get_def
    then some v4l2.default_value
    else if request == uvc_get_max
    then some v4l2.minimum
    else if request == uvc_get_res
    then some (pos 1)
    else none

-- `uvcVcPuBrightnessGet`
unfoldable pub brightness_get : Uvc → Request → Response → ℕ × Response
unfolding brightness_value
brightness_get uvc req response = elim uvc.brightness [
  | none ↦ (invalid_control, response)
  | some v4l2 ↦
      let sized = record response { length = pos 2 } in
      (
        no_error,
        elim (brightness_value v4l2 req.request) [
          | none ↦ sized
          | some v ↦ record sized { bytes = overwrite (le16 (s16_bits v)) response.bytes }
        ],
      )
]

-- UVC_VC_CAM_AE_MODE_AUTO
abbrev pub ae_mode_auto : ℕ
ae_mode_auto = 0x02

-- `uvcHandleVcCamAeModeGet`: the length is set on every branch.
unfoldable pub ae_mode_get : Uvc → Request → Response → ℕ × Response
ae_mode_get uvc req response =
    let sized = record response { length = pos 1 } in
    if req.request == uvc_get_cur || req.request == uvc_get_def || req.request == uvc_get_res
    then (no_error, record sized { bytes = overwrite (ae_mode_auto ∷ []) response.bytes })
    else (invalid_request, sized)

-- A call through the member `get`.
unfoldable pub call_get : GetFunc → Uvc → Request → Response → ℕ × Response
unfolding error_code_get ae_mode_get brightness_get probe_commit_get
call_get get_error_code uvc req response = error_code_get uvc req response
call_get get_ae_mode uvc req response = ae_mode_get uvc req response
call_get get_brightness uvc req response = brightness_get uvc req response
call_get get_probe_commit uvc req response = probe_commit_get uvc req response

abbrev pub tag : ℕ → ℕ → ℕ → DispatchTag
tag interface entity control = record {
  interface = interface;
  entity_id = entity;
  control_selector = control;
}

-- UVC_INTF_VIDEO_CONTROL, UVC_INTF_VIDEO_STREAMING, and the entities of the two
abbrev pub video_control : ℕ
video_control = 0

abbrev pub video_streaming : ℕ
video_streaming = 1

abbrev pub interface_entity : ℕ
interface_entity = 0

abbrev pub camera_terminal : ℕ
camera_terminal = 1

abbrev pub processing_unit : ℕ
processing_unit = 2

abbrev pub error_code_control : UsbUvcControl
error_code_control = record {
  dispatch = tag video_control interface_entity uvc_vc_request_error_code_control;
  info_caps = cap_get;
  len = 1;
  get_info = none;
  get = get_error_code;
  set_data = none;
}

abbrev pub ae_mode_control : UsbUvcControl
ae_mode_control = record {
  dispatch = tag video_control camera_terminal uvc_ct_ae_mode_control;
  info_caps = cap_get;
  len = 1;
  get_info = none;
  get = get_ae_mode;
  set_data = none;
}

abbrev pub brightness_control : UsbUvcControl
brightness_control = record {
  dispatch = tag video_control processing_unit uvc_pu_brightness_control;
  info_caps = 0;
  len = 2;
  get_info = some brightness_get_info;
  get = get_brightness;
  set_data = some brightness_set;
}

abbrev pub streaming_control_of : ℕ → UsbUvcControl
streaming_control_of selector = record {
  dispatch = tag video_streaming interface_entity selector;
  info_caps = bit_or cap_get cap_set;
  len = streaming_control_size;
  get_info = none;
  get = get_probe_commit;
  set_data = some probe_commit_set;
}

-- `default_dispatch_table`
abbrev pub default_dispatch_table : List UsbUvcControl
default_dispatch_table =
    error_code_control
    ∷ ae_mode_control
    ∷ brightness_control
    ∷ streaming_control_of uvc_vs_probe_control
    ∷ streaming_control_of uvc_vs_commit_control
    ∷ []
