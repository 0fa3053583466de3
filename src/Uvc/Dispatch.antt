-- ===== src/Uvc/Dispatch.antt =====
-- UVC.c: finding the control of a request, and answering the request.
use malincam.Prelude.{
  ℕ, pos, ◌/◌, ◌%◌, not, Option, none, some, List, [], ◌∷◌, ◌==◌, ◌||◌, if◌then◌else◌, has_bits,
  replicate,
}
use malincam.Abi.{
  uvc_set_cur, uvc_get_cur, uvc_get_min, uvc_get_max, uvc_get_res, uvc_get_len, uvc_get_info,
  uvc_get_def, cap_get, cap_set,
}
use malincam.Uvc.{Request, Response, tag_of, dispatch_tag, brightness_get_info, UsbUvcControl, Uvc}
use malincam.Uvc.Controls.{no_error, invalid_request, overwrite, brightness_info, call_get}

-- `usbUvcDispatchFindControlByTag`
unfoldable pub find_control_by_tag : List UsbUvcControl → ℕ → Option UsbUvcControl
find_control_by_tag [] tag = none
find_control_by_tag (ctrl ∷ rest) tag =
    let later = find_control_by_tag rest tag in
    if tag_of ctrl.dispatch == tag then some ctrl else later

-- The capabilities that UVC_GET_INFO answers with.
unfoldable pub info_of : Uvc → UsbUvcControl → ℕ
unfolding brightness_info
info_of uvc ctrl = elim ctrl.get_info [
  | none ↦ ctrl.info_caps % 256
  | some brightness_get_info ↦ brightness_info uvc
]

-- The `switch` of `usbUvcDispatchRequest`, for a control that was found.
unfoldable pub dispatch_to : UsbUvcControl → Uvc → Request → Response → ℕ × Response × Uvc
unfolding info_of call_get
dispatch_to ctrl uvc req response =
    if req.request == uvc_get_len
    then (
      no_error,
      record {
        length = pos 2;
        bytes = overwrite (ctrl.len / 256 ∷ ctrl.len % 256 ∷ []) response.bytes;
      },
      uvc,
    )
    else if req.request == uvc_get_info
    then (
      no_error,
      record { length = pos 1; bytes = overwrite (info_of uvc ctrl ∷ []) response.bytes },
      uvc,
    )
    else if req.request == uvc_set_cur
    then (if not (has_bits ctrl.info_caps cap_set) then (invalid_request, response, uvc) else (
      no_error,
      record { length = pos ctrl.len; bytes = overwrite (replicate ctrl.len 0) response.bytes },
      record uvc { data_phase_control = some ctrl },
    ))
    else if req.request == uvc_get_cur
        || req.request == uvc_get_min
        || req.request == uvc_get_def
        || req.request == uvc_get_max
        || req.request == uvc_get_res
    then (if not (has_bits ctrl.info_caps cap_get)
        then (invalid_request, response, uvc)
        else (let (result, answer) = call_get ctrl.get uvc req response in (result, answer, uvc)))
    else (invalid_request, response, uvc)

-- `usbUvcDispatchRequest`; `none` is USB_UVC_DISPATCH_NO_CONTROL.
unfoldable pub dispatch_request :
    List UsbUvcControl → Uvc → Request → Response → Option ℕ × Response × Uvc
dispatch_request table uvc req response =
    elim (find_control_by_tag table (tag_of (dispatch_tag req))) [
      | none ↦ (none, response, uvc)
      | some ctrl ↦
          let (result, answer, uvc') = dispatch_to ctrl uvc req response in
          (some result, answer, uvc')
    ]
