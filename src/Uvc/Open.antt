-- ===== src/Uvc/Open.antt =====
-- UVC.c: opening the gadget.
use malincam.Prelude.{
  ℕ, ℤ, pos, is_zero, true, false, not, Option, none, some, List, [], ◌∷◌, if◌then◌else◌, has_bits,
}
use malincam.Prelude.Outcome.{Outcome, done, ◌>>=◌}
use malincam.Device.Open.{
  Device, Host, cap_video_output, device_open, device_close, device_event_subscribe,
}
use malincam.Uvc.{Uvc}

-- V4L2_CAP_STREAMING
abbrev pub cap_streaming : ℕ
cap_streaming = 0x04000000

-- UVC_EVENT_STREAMON, UVC_EVENT_STREAMOFF, UVC_EVENT_SETUP and UVC_EVENT_DATA of
-- <linux/usb/g_uvc.h>
abbrev pub uvc_event_streamon : ℕ
uvc_event_streamon = 0x08000002

abbrev pub uvc_event_streamoff : ℕ
uvc_event_streamoff = 0x08000003

abbrev pub uvc_event_setup : ℕ
uvc_event_setup = 0x08000004

abbrev pub uvc_event_data : ℕ
uvc_event_data = 0x08000005

-- The events that `subscribe` asks for, in order.
abbrev pub subscribed_events : List ℕ
subscribed_events = uvc_event_setup ∷ uvc_event_data ∷ uvc_event_streamon ∷ uvc_event_streamoff ∷ []

module _ (host : Host) where
  open host use {driver, Name}
  open driver use {Kernel}

  -- `subscribe`, over the events that are left.
  unfoldable pub subscribe : Kernel → Device → List ℕ → ℤ × Kernel
  subscribe k dev [] = (pos 0, k)
  subscribe k dev (event ∷ rest) =
      let (result, k') = device_event_subscribe host k dev event in
      if not (is_zero result) then (pos 1, k') else subscribe k' dev rest

  -- `uvcOpen`: the device and the zeroed gadget, or NULL, the device closed. Its checks of the
  -- capabilities of the device, and the subscription, in the order of the code.
  unfoldable pub uvc_open : ℕ → Kernel → Name → Outcome (Option (Device × Uvc) × Kernel)
  unfolding subscribe
  uvc_open fuel k dev_name = do
    (opened, k1) ← device_open host fuel k dev_name
    elim opened [
      | none ↦ done (none, k1)
      | some dev ↦
          let (result, k2) =
            if not (has_bits dev.this_device_caps cap_streaming)
            then (pos 1, k1)
            else if not (has_bits dev.this_device_caps cap_video_output)
            then (pos 1, k1)
            else subscribe k1 dev subscribed_events in
          elim (is_zero result) [
            | true ↦ done (
              some (
                dev,
                record { brightness = none; request_error_code = 0; data_phase_control = none },
              ),
              k2,
            )
            | false ↦ do k3 ← device_close host k2 (some dev); done (none, k3)
          ]
    ]

  -- `uvcDtor`
  unfoldable pub uvc_dtor : Kernel → Option Device → Outcome Kernel
  uvc_dtor k none = done k
  uvc_dtor k (some dev) = device_close host k (some dev)
