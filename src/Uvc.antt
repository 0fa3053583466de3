-- ===== src/Uvc.antt =====
-- UVC.c: the USB video class gadget. Its state, requests and responses; the children model the
-- control table, the dispatch of requests, and the events.
pub mod Controls
pub mod Dispatch
pub mod Events
pub mod Safety
pub mod Bounds
pub mod Tags
pub mod Open
mod Tests
use malincam.Prelude.{ℕ, ℤ, ◌+◌, ◌*◌, ◌%◌, ◌/◌, Option, List, []}

-- `struct usb_ctrlrequest` of <linux/usb/ch9.h>
pub record Request : Type 0 where
  pub request_type : ℕ
  pub request : ℕ
  pub value : ℕ
  pub index : ℕ
  pub length : ℕ

-- `struct uvc_request_data` of <linux/usb/g_uvc.h>; a negative length is a STALL.
pub record Response : Type 0 where
  pub length : ℤ
  pub bytes : List ℕ

-- `UsbDispatchTag`, the union of four bytes and the number that they make, lowest byte first.
pub record DispatchTag : Type 0 where
  pub interface : ℕ
  pub entity_id : ℕ
  pub control_selector : ℕ

-- The member `tag` of the union.
abbrev pub tag_of : DispatchTag → ℕ
tag_of t = t.interface + 256 * t.entity_id + 65536 * t.control_selector

-- `makeDispatchTag`: its arguments are bytes.
unfoldable pub make_dispatch_tag : ℕ → ℕ → ℕ → DispatchTag
make_dispatch_tag interface entity control_selector = record {
  interface = interface % 256;
  entity_id = entity % 256;
  control_selector = control_selector % 256;
}

-- `usbUvcControlDispatchArgs`: the tag of a request.
unfoldable pub dispatch_tag : Request → DispatchTag
unfolding make_dispatch_tag
dispatch_tag req = make_dispatch_tag (req.index % 256) (req.index / 256) (req.value / 256)

-- The functions that the members of `UsbUvcControl` can point at.
pub data GetInfoFunc : Type 0 where
  brightness_get_info : GetInfoFunc

pub data GetFunc : Type 0 where
  get_error_code get_ae_mode get_brightness get_probe_commit : GetFunc

pub data SetDataFunc : Type 0 where
  brightness_set probe_commit_set : SetDataFunc

-- `UsbUvcControl`
pub record UsbUvcControl : Type 0 where
  pub dispatch : DispatchTag
  pub info_caps : ℕ
  pub len : ℕ
  pub get_info : Option GetInfoFunc
  pub get : GetFunc
  pub set_data : Option SetDataFunc

-- The fields of `V4l2Control` that UVC.c reads.
pub record Brightness : Type 0 where
  pub value : ℤ
  pub minimum : ℤ
  pub maximum : ℤ
  pub default_value : ℤ

-- `UvcGadget`, without its node and device: the `usb` state and the mapped control.
pub record Uvc : Type 0 where
  pub brightness : Option Brightness
  pub request_error_code : ℕ
  pub data_phase_control : Option UsbUvcControl
