-- ===== src/Device/Open/Tests.antt =====
-- Opening a device, on a kernel in memory.
use malincam.Prelude.{[], pos, ◌≡◌, refl, Option, some}
use malincam.Prelude.Outcome.{Outcome, done}
use malincam.Abi.{einval, enoent}
use malincam.V4l2Control.{ControlDriver, create_from_fd}
use malincam.Device.Picture.{stream_get_format}
use malincam.Device.Driver.{success, error}
use malincam.Device.Bench.{Bench, bench}
use malincam.Device.Bench.Streams.{filled_bench}
use malincam.Device.Open.{Device, Host, Files, zero_stream, device_open}
use malincam.Device.Open.Laws.{BothOpened, QueryErrno, device_open-BothOpened}

-- A camera at descriptor 3 that answers none of the questions about formats and controls.
abbrev one_file : Files Bench (Unit {0}) (Unit {0})
one_file = record {
  open_file = λ k name. (pos 3, k);
  close_file = λ k fd. k;
  query_caps = λ k fd. (success (0x1, 0), k);
  enum_format = λ k fd t code i. (error einval, k);
  enum_frame_size = λ k fd f i. (error einval, k);
  subscribe_event = λ k fd event. (success tt, k);
  dequeue_event = λ k fd. (error enoent, k);
}

abbrev no_controls : ControlDriver Bench
no_controls = record {
  query_control = λ k fd id. (error einval, k);
  query_menu = λ k fd id j. (error einval, k);
  get_control = λ k fd id. (error einval, k);
  set_control = λ k fd id v. (error einval, k);
}

abbrev test_host : Host
test_host = record {
  driver = bench;
  Name = Unit {0};
  Event = Unit {0};
  files = one_file;
  control_driver = no_controls;
  fmtdesc_size = 64;
  control_size = 8;
}

-- What a run left.
abbrev opened : Outcome (Option Device × Bench) → Device × Bench
opened (done (some dev, k)) = (dev, k)
opened _ = (
  record {
    fd = 0;
    this_device_caps = 0;
    controls = record { fd = 0; controls = [] };
    capture = zero_stream 0;
    output = zero_stream 0;
  },
  filled_bench,
)

abbrev run : Outcome (Option Device × Bench)
run = device_open test_host 1 filled_bench tt

opens : run ≡ done (some (opened run).0, (opened run).1)
unfolding device_open stream_get_format create_from_fd
opens = refl

one_file_errno : QueryErrno test_host
one_file_errno k fd e k' fails none_set = cc

device_open-BothOpened_example : BothOpened test_host (opened run).0
device_open-BothOpened_example =
    device_open-BothOpened test_host 1 filled_bench tt (opened run).0 (opened run).1 one_file_errno
      opens
