-- ===== src/Main/Setup.antt =====
-- main.c: `pipelineCreate` and `pipelineDestroy`.
use malincam.Prelude.{ℕ, Option, none, some, List, [], ◌∷◌}
use malincam.Prelude.Outcome.{Outcome, done, ◌>>=◌}
use malincam.Pump.Create.{pump_destroy}
use malincam.Pollinator.{fd_except, PollinatorFd, pollinator_create, pollinator_destroy}
use malincam.Platform.{PiCamera, node_of_camera, pi_open_camera, camera_dtor}
use malincam.Platform.Isp.{PiIsp, node_of_isp, pi_open_isp, isp_dtor}
use malincam.Platform.Encoder.{PiEncoder, jpeg, node_of_encoder, pi_open_encoder, encoder_dtor}
use malincam.Uvc.{Uvc}
use malincam.Uvc.Open.{uvc_open}
use malincam.Device.Open.{Device}
use malincam.Main.{Func, uvc_events_bit, Machine, gadget, input_side, Pipeline, State}
use malincam.Main.Switch.{Watch, watch_all}

-- The pipeline of three open nodes, with nothing running, and the LED as Led.c initialises it.
abbrev pub zero_pipeline : PiCamera → PiIsp → PiEncoder → Pipeline
zero_pipeline cam isp enc = record {
  cam = node_of_camera cam;
  isp = node_of_isp isp;
  enc = node_of_encoder enc;
  fds = [];
  cam_to_isp = none;
  isp_to_enc = none;
  enc_to_uvc = none;
  fd_bits = 0;
  led_enabled = 0;
  led_on = 1;
}

-- The call of `pollinatorMonitorFd` for the events of the gadget.
abbrev pub first_watch : List Watch
first_watch =
    record {
      end = record { part = gadget; side = input_side };
      event_bits = fd_except;
      arg2 = uvc_events_bit;
    }
    ∷ []

module _ (machine : Machine) where
  open machine use {platform, uvc_node, epoll}
  open platform use {host}
  open host.driver use {Kernel}

  abbrev pub fresh_state :
      Kernel
      → PiCamera
      → PiIsp
      → PiEncoder
      → Device × Uvc
      → List (PollinatorFd Func)
      → State machine
  fresh_state k cam isp enc (dev, uvc) fds = record {
    kernel = k;
    output = dev.output;
    uvc = uvc;
    app = record (zero_pipeline cam isp enc) { fds = fds };
  }

  -- `pipelineCreate`, with the four nodes open.
  unfoldable pub begin_pipeline :
      Kernel → PiCamera → PiIsp → PiEncoder → Device × Uvc → Outcome (State machine)
  unfolding watch_all
  begin_pipeline k cam isp enc uvc = do
    (fds, k') ← pollinator_create Func Kernel epoll k
    watch_all machine (fresh_state k' cam isp enc uvc fds) first_watch

  -- `pipelineCreate`; `none` is a return of 1.
  unfoldable pub pipeline_create : ℕ → Kernel → Outcome (Option (State machine) × Kernel)
  unfolding begin_pipeline
  pipeline_create fuel k = do
    (opened_cam, k1) ← pi_open_camera platform fuel k
    elim opened_cam [
      | none ↦ done (none, k1)
      | some cam ↦ do
        (opened_isp, k2) ← pi_open_isp platform fuel k1
        elim opened_isp [
          | none ↦ done (none, k2)
          | some isp ↦ do
            (opened_enc, k3) ← pi_open_encoder platform fuel k2 jpeg
            elim opened_enc [
              | none ↦ done (none, k3)
              | some enc ↦ do
                (opened_uvc, k4) ← uvc_open host fuel k3 uvc_node
                elim opened_uvc [
                  | none ↦ done (none, k4)
                  | some uvc ↦ do w ← begin_pipeline k4 cam isp enc uvc; done (some w, w.kernel)
                ]
            ]
        ]
    ]

  -- `pipelineDestroy`; the nodes are destroyed as the structures that hold them, which are given.
  unfoldable pub pipeline_destroy : State machine → PiCamera → PiIsp → PiEncoder → Outcome Kernel
  pipeline_destroy w cam isp enc = do
    second ← pump_destroy w.app.isp_to_enc
    first ← pump_destroy w.app.cam_to_isp
    k1 ← encoder_dtor platform w.kernel (some enc)
    k2 ← isp_dtor platform k1 (some isp)
    k3 ← camera_dtor platform k2 (some cam)
    done (pollinator_destroy Func Kernel epoll k3 (some w.app.fds))
