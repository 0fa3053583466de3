-- ===== src/Main/Bench.antt =====
-- A machine on the kernel in memory, for the witnesses.
use malincam.Prelude.{pos, true, []}
use malincam.Abi.{enoent}
use malincam.Device.Driver.{success, error}
use malincam.Pollinator.{events}
use malincam.Platform.Bench.{test_platform}
use malincam.Main.{Machine}

abbrev pub test_machine : Machine
test_machine = record {
  platform = test_platform;
  uvc_node = 16;
  gadget = record {
    send_response = λ k response. (success tt, k);
    get_event = λ k. (error enoent, k);
  };
  epoll = record {
    control = λ k op fd e. (true, k);
    wait = λ k timeout. (events [], k);
    create = λ k. (pos 8, k);
    close = λ k. k;
  };
  sysfs = record {
    open_brightness = λ k. (pos 9, k);
    write = λ k fd bytes. (pos 1, k);
    close = λ k fd. k;
  };
  begin_us = 0;
  clock = λ k. (0, k);
  mjpeg = 7;
}
