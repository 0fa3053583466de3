-- ===== src/Main/Laws/Setup.antt =====
-- The pipeline that `pipelineCreate` makes: its nodes are ready to start.
use malincam.Prelude.{ℕ, ◌≡◌, refl, sym, ap, ◌∙◌, List, Option, none, some}
use mathlib.Core.Path.{subst}
use malincam.Prelude.Outcome.{done}
use malincam.Prelude.Yields.{Yields, Yields-done, Yields-bind, Yields-option}
use malincam.Device.{DeviceStream, BufferMemory, memory_dmabuf_export, memory_dmabuf_import}
use malincam.Device.Open.{Device}
use malincam.Device.Stream.Memory.{IsPrepared}
use malincam.Uvc.{Uvc}
use malincam.Uvc.Open.{uvc_open}
use malincam.Platform.{PiCamera, pi_open_camera}
use malincam.Platform.Isp.{PiIsp, pi_open_isp}
use malincam.Platform.Encoder.{PiEncoder, jpeg, pi_open_encoder}
use malincam.Platform.Encoder.Ready.{pi_open_encoder-Ready}
use malincam.Platform.Laws.{OpensTo, pi_open_camera-Ready, pi_open_isp-Ready}
use malincam.Main.{
  Machine, State, Pipeline, Func, Link, first_link, second_link, third_link, pump_at,
}
use malincam.Pollinator.{PollinatorFd, pollinator_create}
use malincam.Main.Laws.Watches.{watch_all-Watched}
use malincam.Main.Setup.{first_watch, fresh_state, zero_pipeline, begin_pipeline, pipeline_create}

module _ (machine : Machine) where
  open machine use {platform, uvc_node}
  open platform use {host}
  open host use {driver}
  open driver use {Kernel}

  -- A stream is there, prepared with buffers of the memory.
  abbrev pub ReadyEnd : BufferMemory → Option DeviceStream → Type 0
  ReadyEnd mem end = (st : DeviceStream) × (end ≡ some st) × IsPrepared driver mem st

  -- The nodes of the platform are prepared, and no pump is there.
  pub record NodesReady (p : Pipeline) : Type 0 where
    pub cam_input : p.cam.input ≡ none
    pub cam_output : ReadyEnd memory_dmabuf_export p.cam.output
    pub isp_input : ReadyEnd memory_dmabuf_import p.isp.input
    pub isp_output : ReadyEnd memory_dmabuf_export p.isp.output
    pub enc_input : ReadyEnd memory_dmabuf_import p.enc.input
    pub enc_output : ReadyEnd memory_dmabuf_export p.enc.output
    pub no_pump : (link : Link) → pump_at p link ≡ none

  no_pump :
      (cam : PiCamera) (isp : PiIsp) (enc : PiEncoder) (fds : List (PollinatorFd Func))
      (link : Link)
      → pump_at (record (zero_pipeline cam isp enc) { fds = fds }) link ≡ none
  no_pump cam isp enc fds first_link = refl
  no_pump cam isp enc fds second_link = refl
  no_pump cam isp enc fds third_link = refl

  begin-Ready :
      (k : Kernel) (cam : PiCamera) (isp : PiIsp) (enc : PiEncoder) (uvc : Device × Uvc)
      → IsPrepared driver memory_dmabuf_export cam.camera.capture
      → IsPrepared driver memory_dmabuf_import isp.output.output
        × IsPrepared driver memory_dmabuf_export isp.capture.capture
      → IsPrepared driver memory_dmabuf_import enc.encoder.output
        × IsPrepared driver memory_dmabuf_export enc.encoder.capture
      → Yields (λ (w : State machine). NodesReady w.app) (begin_pipeline machine k cam isp enc uvc)
  unfolding begin_pipeline
  begin-Ready k cam isp enc uvc cam_ready isp_ready enc_ready =
      Yields-bind (λ (w : State machine). NodesReady w.app)
        (pollinator_create Func Kernel machine.epoll k) _
        (λ (slots, k1) made w runs.
          let (k', fds, same) =
            watch_all-Watched machine first_watch (fresh_state machine k1 cam isp enc uvc slots) w
              runs in
          subst (λ (w : State machine). NodesReady w.app) (sym same)
            (record {
              cam_input = refl;
              cam_output = (cam.camera.capture, refl, cam_ready);
              isp_input = (isp.output.output, refl, isp_ready.0);
              isp_output = (isp.capture.capture, refl, isp_ready.1);
              enc_input = (enc.encoder.output, refl, enc_ready.0);
              enc_output = (enc.encoder.capture, refl, enc_ready.1);
              no_pump = no_pump cam isp enc fds;
            }))

  -- The pipeline that `pipelineCreate` makes has a prepared stream at each end of its platform's
  -- nodes, those that a pump takes from with buffers to export and those that it fills with buffers
  -- to import.
  pub pipeline_create-Ready :
      (fuel : ℕ) (k k' : Kernel) (w : State machine)
      → pipeline_create machine fuel k ≡ done (some w, k')
      → NodesReady w.app
  unfolding pipeline_create
  pipeline_create-Ready fuel k k' w created =
      let goal : Option (State machine) × Kernel → Type 0 =
        OpensTo (λ (w : State machine). NodesReady w.app) in
      Yields-bind goal (pi_open_camera platform fuel k) _
        (λ (opened_cam, k1) opens1.
          Yields-option goal opened_cam _ _ (Yields-done goal (none, k1) tt) (λ cam at1.
            Yields-bind goal (pi_open_isp platform fuel k1) _ (λ (opened_isp, k2) opens2.
              Yields-option goal opened_isp _ _ (Yields-done goal (none, k2) tt) (λ isp at2.
                Yields-bind goal (pi_open_encoder platform fuel k2 jpeg) _
                  (λ (opened_enc, k3) opens3.
                    Yields-option goal opened_enc _ _ (Yields-done goal (none, k3) tt) (λ enc at3.
                      Yields-bind goal (uvc_open host fuel k3 uvc_node) _
                        (λ (opened_uvc, k4) opens4.
                          Yields-option goal opened_uvc _ _ (Yields-done goal (none, k4) tt)
                            (λ uvc at4.
                              Yields-bind goal (begin_pipeline machine k4 cam isp enc uvc) _
                                (λ w' begins. Yields-done goal _ (
                                  begin-Ready k4 cam isp enc uvc
                                    (pi_open_camera-Ready platform fuel k k1 cam
                                      (opens1 ∙ ap (λ o. done (o, k1)) at1))
                                    (pi_open_isp-Ready platform fuel k1 k2 isp
                                      (opens2 ∙ ap (λ o. done (o, k2)) at2))
                                    (pi_open_encoder-Ready platform fuel k2 k3 jpeg enc
                                      (opens3 ∙ ap (λ o. done (o, k3)) at3))
                                    w' begins))))))))))
        (some w, k') created
