-- ===== src/Uvc/Events.antt =====
-- UVC.c: the events of the gadget's device, and the phases of a control request.
use malincam.Prelude.{
  ℕ, ℤ, pos, negsuc, minus, is_zero, ◌+◌, ◌%◌, bit_and, true, false, not, Option, none, some, ◌==◌,
  if◌then◌else◌, replicate, zero, suc,
}
use malincam.Prelude.Outcome.{Outcome, done, fault, out_of_fuel, ◌>>=◌}
use malincam.Abi.{enoent, el2hlt, usb_type_mask, usb_type_class, response_size}
use malincam.Device.{DeviceStream, PrepareOpts, memory_dmabuf_import}
use malincam.Device.Driver.{Driver, Reply, success, error}
use malincam.Device.Stream.{device_stream_prepare}
use malincam.Uvc.{Request, Response, SetDataFunc, brightness_set, probe_commit_set, Uvc}
use malincam.Uvc.Controls.{no_error, invalid_request, default_dispatch_table}
use malincam.Uvc.Dispatch.{dispatch_request}

-- `struct v4l2_event`, by type; `other` is one that the gadget does not expect.
pub data Event : Type 0 where
  connect disconnect stream_on stream_off : Event
  setup : Request → Event
  data_phase : Response → Event
  other : ℕ → Event

-- The zeroed response, with the length that stalls.
abbrev pub empty_response : Response
empty_response = record { length = minus el2hlt; bytes = replicate response_size 0 }

-- `processEventSetup`, the `switch` on the result of the dispatch.
unfoldable pub conclude : Option ℕ → Response → Uvc → Response × Uvc
conclude none response uvc =
    (record response { length = negsuc 0 }, record uvc { request_error_code = invalid_request })
conclude (some code) response uvc = (
  if not (code == no_error) then record response { length = negsuc 0 } else response,
  record uvc { request_error_code = code % 256 },
)

-- `processEventSetup`, what it does to the gadget before the dispatch. A type other than
-- USB_TYPE_CLASS is noted, and the request goes on.
unfoldable pub open_setup : Uvc → Request → Uvc
open_setup uvc req =
    let cleared = record uvc { data_phase_control = none } in
    if not (bit_and req.request_type usb_type_mask == usb_type_class)
    then record cleared { request_error_code = invalid_request }
    else cleared

-- `processEventSetup` up to the sending of the response.
unfoldable pub answer_setup : Uvc → Request → Response × Uvc
unfolding conclude
answer_setup uvc req =
    let (result, response, uvc') =
      dispatch_request default_dispatch_table (open_setup uvc req) req empty_response in
    conclude result response uvc'

-- A call through the member `set_data`. Both functions only log; that of the brightness asserts
-- that the control is there.
unfoldable pub call_set_data : SetDataFunc → Uvc → Outcome ℤ
call_set_data brightness_set uvc = elim uvc.brightness [ none ↦ fault | some v4l2 ↦ done (pos 0) ]
call_set_data probe_commit_set uvc = done (pos 0)

-- `processEventData`
unfoldable pub process_event_data : Uvc → Response → Outcome (ℤ × Uvc)
unfolding call_set_data
process_event_data uvc received =
    let over = record uvc { data_phase_control = none } in
    elim uvc.data_phase_control [
      | none ↦ done (pos 0, over)
      | some control ↦ elim control.set_data [
        | none ↦ done (pos 0, over)
        | some f ↦ do result ← call_set_data f uvc; done (result, over)
      ]
    ]

-- What the gadget asks of the kernel beside its stream: UVCIOC_SEND_RESPONSE and VIDIOC_DQEVENT.
pub record Gadget (Kernel : Type 0) : Type 0 where
  pub send_response : Kernel → Response → Reply (Unit {0}) × Kernel
  pub get_event : Kernel → Reply Event × Kernel

-- The options of `uvcPrepare`.
abbrev pub prepare_opts : ℕ → PrepareOpts
prepare_opts mjpeg = record {
  buffer_memory = memory_dmabuf_import;
  buffers_count = 3;
  pixelformat = mjpeg;
  width = 1332;
  height = 976;
  crop_width = 0;
  crop_height = 0;
}

module _ (driver : Driver) (gadget : Gadget driver.Kernel) (mjpeg : ℕ) (App : Type 0) where
  open driver use {Kernel}
  open gadget use {send_response, get_event}

  -- The gadget, its output stream, and what the callback of its owner sees.
  pub record World : Type 0 where
    pub kernel : Kernel
    pub output : DeviceStream
    pub uvc : Uvc
    pub app : App

  -- `processEventSetup`
  unfoldable pub process_event_setup : World → Request → ℤ × World
  process_event_setup w req =
      let (response, uvc) = answer_setup w.uvc req in
      let (reply, k) = send_response w.kernel response in
      let w' = record w { kernel = k; uvc = uvc } in
      elim reply [ success _ ↦ (pos 0, w') | error errno ↦ (minus errno, w') ]

  -- `uvcPrepare`: what `deviceStreamPrepare` returns is only logged.
  unfoldable pub uvc_prepare : World → Outcome World
  uvc_prepare w = do
    (result, k, output) ← device_stream_prepare driver w.kernel w.output (prepare_opts mjpeg)
    done (record w { kernel = k; output = output })

  -- `processEvent`; `event_streamon` is the callback of `UvcOpenArgs`.
  unfoldable pub process_event :
      (ℕ → World → Outcome (ℤ × World)) → World → Event → Outcome (ℤ × World)
  unfolding process_event_setup uvc_prepare process_event_data
  process_event event_streamon w connect = done (pos 0, w)
  process_event event_streamon w disconnect = done (pos 0, w)
  process_event event_streamon w stream_on = do
    ready ← uvc_prepare w
    (result, started) ← event_streamon 1 ready
    done (pos 0, started)
  process_event event_streamon w stream_off = do
    (result, stopped) ← event_streamon 0 w
    done (pos 0, stopped)
  process_event event_streamon w (setup req) = done (process_event_setup w req)
  process_event event_streamon w (data_phase received) = do
    (result, uvc) ← process_event_data w.uvc received
    done (result, record w { uvc = uvc })
  process_event event_streamon w (other n) = done (pos 0, w)

  -- `uvcProcessEvents`, with `events` counted so far; one unit of fuel for an event.
  unfoldable pub process_events :
      (ℕ → World → Outcome (ℤ × World)) → ℕ → ℕ → World → Outcome (ℤ × World)
  unfolding process_event
  process_events event_streamon zero events w = out_of_fuel
  process_events event_streamon (suc fuel) events w =
      let (reply, k) = get_event w.kernel in
      let w' = record w { kernel = k } in
      elim reply [
        | error errno ↦ if errno == enoent then done (pos events, w') else done (minus 1, w')
        | success event ↦ do
          (result, w'') ← process_event event_streamon w' event
          elim (is_zero result) [
            | true ↦ process_events event_streamon fuel (events + 1) w''
            | false ↦ done (minus 1, w'')
          ]
      ]
