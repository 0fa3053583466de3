-- ===== src/Main.antt =====
-- main.c: the pipeline from the camera to the gadget, and its state. The children model its start
-- and stop, its rounds, and its making and destroying.
pub mod Switch
pub mod Rounds
pub mod Setup
pub mod Bench
pub mod Laws
mod Tests
use malincam.Prelude.{
  ℕ, ℤ, pos, ◌%◌, ◌^◌, bit_and, bit_or, Bool, true, false, Option, none, some, List, ◌==◌,
}
use malincam.Device.{DeviceStream}
use malincam.Node.{Node}
use malincam.Pump.{Pump}
use malincam.Pollinator.{PollinatorFd, Epoll}
use malincam.Led.{Sysfs}
use malincam.Platform.{Platform}
use malincam.Uvc.Events.{Gadget, World}

-- CAM_TO_ISP_BIT, ISP_TO_ENC_BIT, ENC_TO_UVC_BIT, UVC_EVENTS_BIT
abbrev pub cam_to_isp_bit : ℕ
cam_to_isp_bit = 1

abbrev pub isp_to_enc_bit : ℕ
isp_to_enc_bit = 2

abbrev pub enc_to_uvc_bit : ℕ
enc_to_uvc_bit = 4

abbrev pub uvc_events_bit : ℕ
uvc_events_bit = 8

-- The functions that main.c registers with the pollinator.
pub data Func : Type 0 where
  bit_set_func : Func

-- `Pipeline`, but for `uvc`, which the events of the gadget keep, with the slots of `pol` and the
-- static state of Led.c.
pub record Pipeline : Type 0 where
  pub cam : Node
  pub isp : Node
  pub enc : Node
  pub fds : List (PollinatorFd Func)
  pub cam_to_isp : Option Pump
  pub isp_to_enc : Option Pump
  pub enc_to_uvc : Option Pump
  pub fd_bits : ℕ
  pub led_enabled : ℕ
  pub led_on : ℕ

-- All that is outside of the program: the platform, the gadget's device and its name, epoll, the
-- LED's file, the clock in microseconds with `g_begin_us`, and V4L2_PIX_FMT_MJPEG.
pub record Machine : Type 1 where
  pub platform : Platform
  pub uvc_node : platform.host.Name
  pub gadget : Gadget platform.host.driver.Kernel
  pub epoll : Epoll platform.host.driver.Kernel
  pub sysfs : Sysfs platform.host.driver.Kernel
  pub begin_us : ℕ
  pub clock : platform.host.driver.Kernel → ℕ × platform.host.driver.Kernel
  pub mjpeg : ℕ

-- `bitSetFunc`, on the word that its `arg1` points at, which is `fd_bits` in every registration.
unfoldable pub call_func : Func → ℤ → ℕ → ℕ → ℕ → ℕ → ℤ × ℕ
call_func bit_set_func fd flags arg1 arg2 bits = (pos 0, bit_or bits arg2 % 2 ^ 32)

-- The four nodes, the ends that a pump or a registration names, and the three pumps.
pub data Part : Type 0 where
  camera processor encoder gadget : Part

pub data Side : Type 0 where
  input_side output_side : Side

pub record End : Type 0 where
  pub part : Part
  pub side : Side

pub data Link : Type 0 where
  first_link second_link third_link : Link

-- The streams that `pumpCreate` is called with, and the bit of `fd_bits` for the pump.
abbrev pub source : Link → End
source first_link = record { part = camera; side = output_side }
source second_link = record { part = processor; side = output_side }
source third_link = record { part = encoder; side = output_side }

abbrev pub destination : Link → End
destination first_link = record { part = processor; side = input_side }
destination second_link = record { part = encoder; side = input_side }
destination third_link = record { part = gadget; side = input_side }

abbrev pub bit_of : Link → ℕ
bit_of first_link = cam_to_isp_bit
bit_of second_link = isp_to_enc_bit
bit_of third_link = enc_to_uvc_bit

-- The members `cam_to_isp`, `isp_to_enc` and `enc_to_uvc`, read and written.
abbrev pub pump_at : Pipeline → Link → Option Pump
pump_at p first_link = p.cam_to_isp
pump_at p second_link = p.isp_to_enc
pump_at p third_link = p.enc_to_uvc

abbrev pub put_pump : Pipeline → Link → Option Pump → Pipeline
put_pump p first_link pump = record p { cam_to_isp = pump }
put_pump p second_link pump = record p { isp_to_enc = pump }
put_pump p third_link pump = record p { enc_to_uvc = pump }

-- The stream at an end of a node, read and written.
abbrev pub side_of : Node → Side → Option DeviceStream
side_of node input_side = node.input
side_of node output_side = node.output

abbrev pub put_side : Node → Side → DeviceStream → Node
put_side node input_side st = record node { input = some st }
put_side node output_side st = record node { output = some st }

-- `node.input` of the gadget's node is the output stream of its device; it has no other.
abbrev pub or_else : Option DeviceStream → DeviceStream → DeviceStream
or_else none old = old
or_else (some st) old = st

module _ (machine : Machine) where
  open machine use {platform, mjpeg}

  -- The whole program's state.
  abbrev pub State : Type 0
  State = World platform.host.driver machine.gadget mjpeg Pipeline

  abbrev pub node_at : State → Part → Node
  node_at w camera = w.app.cam
  node_at w processor = w.app.isp
  node_at w encoder = w.app.enc
  node_at w gadget = record { input = some w.output; output = none }

  abbrev pub put_node : State → Part → Node → State
  put_node w camera node = record w { app = record w.app { cam = node } }
  put_node w processor node = record w { app = record w.app { isp = node } }
  put_node w encoder node = record w { app = record w.app { enc = node } }
  put_node w gadget node = record w { output = or_else node.input w.output }

  abbrev pub stream_at : State → End → Option DeviceStream
  stream_at w end = side_of (node_at w end.part) end.side

  abbrev pub put_stream : State → End → DeviceStream → State
  put_stream w end st = put_node w end.part (put_side (node_at w end.part) end.side st)
