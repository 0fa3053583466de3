-- ===== src/Platform/Bench.antt =====
-- A platform on the kernel in memory, for the witnesses.
use malincam.Prelude.{ℕ, pos}
use malincam.Abi.{einval, enoent}
use malincam.V4l2.{zero_rect}
use malincam.Device.Bench.{Bench, bench}
use malincam.Device.Driver.{success, error}
use malincam.Device.Open.{Files, Host}
use malincam.V4l2Control.{ControlDriver}
use malincam.Subdev.{SubdevDriver, SubdevPad, active}
use malincam.Platform.{Platform}

-- A device's name is the descriptor that it is opened at. Each has a capture and an output stream,
-- and answers none of the enumerations.
abbrev pub numbered_files : Files Bench ℕ (Unit {0})
numbered_files = record {
  open_file = λ k name. (pos name, k);
  close_file = λ k fd. k;
  query_caps = λ k fd. (success (0x04008002, 0), k);
  enum_format = λ k fd t code i. (error einval, k);
  enum_frame_size = λ k fd f i. (error einval, k);
  subscribe_event = λ k fd event. (success tt, k);
  dequeue_event = λ k fd. (error enoent, k);
}

abbrev no_controls : ControlDriver Bench
no_controls = record {
  query_control = λ k fd id. (error einval, k);
  query_menu = λ k fd id j. (error einval, k);
  get_control = λ k fd id. (error einval, k);
  set_control = λ k fd id v. (error einval, k);
}

abbrev pub numbered_host : Host
numbered_host = record {
  driver = bench;
  Name = ℕ;
  Event = Unit {0};
  files = numbered_files;
  control_driver = no_controls;
  fmtdesc_size = 64;
  control_size = 8;
}

-- A sensor that takes every format.
abbrev pub obliging : SubdevDriver Bench
obliging = record {
  query_caps = λ k fd. (success tt, k);
  get_format = λ k fd format. (success format, k);
  set_format = λ k fd format. (success format, k);
  get_selection = λ k fd which pad target. (success zero_rect, k);
  get_frame_interval = λ k fd pad. (success tt, k);
  enum_frame_interval = λ k fd i pad code w h. (error einval, k);
  enum_frame_size = λ k fd i pad code. (error einval, k);
  enum_mbus_code = λ k fd i pad. (error einval, k);
}

abbrev pub zero_pad : SubdevPad
zero_pad = record {
  format = record { pad = 0; which = active; code = 0; width = 0; height = 0; other = 0 };
  native = zero_rect;
  crop = zero_rect;
  crop_bounds = zero_rect;
  crop_default = zero_rect;
}

abbrev pub test_platform : Platform
test_platform = record {
  host = numbered_host;
  subdevs = obliging;
  names = record {
    sensor_node = 10;
    camera_node = 11;
    isp_out_node = 12;
    isp_cap_node = 13;
    encoder_node = 14;
    jpeg_encoder_node = 15;
  };
  garbage = zero_pad;
}
