-- ===== src/Main/Laws/Streamoff.antt =====
-- A round of the pipeline that processes UVC_EVENT_STREAMOFF.
use malincam.Prelude.{
  ℕ, ℤ, pos, is_negative, ◌⊎◌, inl, inr, arith, ◌≡◌, refl, false, some, none, suc, ◌==◌, bit_and,
}
use malincam.Prelude.Outcome.{done, fault}
use malincam.Abi.{enoent}
use malincam.Device.Driver.{Reply, success, error}
use malincam.Uvc.Events.{Event, stream_off, process_event, process_events}
use malincam.Main.{Machine, Pipeline, uvc_events_bit, Link, pump_at, State}
use malincam.Main.Switch.{pipeline_stop, uvc_event_streamon}
use malincam.Main.Rounds.{wait_round, run_events, pipeline_process}
use malincam.Main.Laws.{SteadyNodes, SteadyNodes-trans}
use malincam.Main.Laws.Pumps.{Destroyable}
use malincam.Main.Laws.Starts.{AllWired, SteadyNodes-AllWired, same_nodes-Steady}
use malincam.Main.Laws.Runs.{StopRefused, pipeline_stop_lem}
use malincam.Main.Laws.Rounds.{process-stopped}

module _ (machine : Machine) where
  open machine use {platform, epoll, gadget, mjpeg}
  open platform.host.driver use {Kernel}

  -- The next event of the gadget, if any, and the state once it has been asked for.
  abbrev pub heard : State machine → State machine
  heard w = record w { kernel = (gadget.get_event w.kernel).1 }

  abbrev pub NextEvent : State machine → Reply Event → Type 0
  NextEvent w reply = (gadget.get_event w.kernel).0 ≡ reply

  silent_events :
      (fuel n : ℕ) (w : State machine)
      → NextEvent w (error enoent)
      → process_events platform.host.driver gadget mjpeg Pipeline
          (uvc_event_streamon machine)
          (suc fuel)
          n
          w
        ≡ done (pos n, heard w)
  unfolding process_events
  silent_events fuel n w empty = rw (process_events, empty) refl

  streamoff_events :
      (fuel : ℕ) (w w2 : State machine)
      → NextEvent w (success stream_off)
      → pipeline_stop machine (heard w) ≡ done (pos 0, w2)
      → NextEvent w2 (error enoent)
      → process_events platform.host.driver gadget mjpeg Pipeline
          (uvc_event_streamon machine)
          (suc (suc fuel))
          0
          w
        ≡ done (pos 1, heard w2)
  unfolding process_events process_event uvc_event_streamon
  streamoff_events fuel w w2 first stops empty =
      rw (process_events, first, process_event, uvc_event_streamon, stops)
        (silent_events fuel 1 w2 empty)

  streamoff_run :
      (fuel : ℕ) (w w2 : State machine)
      → (bit_and w.app.fd_bits uvc_events_bit == 0) ≡ false
      → NextEvent w (success stream_off)
      → pipeline_stop machine (heard w) ≡ done (pos 0, w2)
      → NextEvent w2 (error enoent)
      → run_events machine (suc (suc fuel)) w ≡ done (heard w2)
  unfolding run_events
  streamoff_run fuel w w2 bit first stops empty =
      rw (run_events, bit, streamoff_events fuel w w2 first stops empty) refl

  streamoff_faults :
      (fuel : ℕ) (w : State machine)
      → (bit_and w.app.fd_bits uvc_events_bit == 0) ≡ false
      → NextEvent w (success stream_off)
      → pipeline_stop machine (heard w) ≡ fault
      → run_events machine (suc (suc fuel)) w ≡ fault
  unfolding run_events process_events process_event uvc_event_streamon
  streamoff_faults fuel w bit first fails =
      rw (run_events, bit, process_events, first, process_event, uvc_event_streamon, fails) refl

  process-faults :
      (fuel : ℕ) (w w1 : State machine) (r : ℤ)
      → wait_round machine fuel w ≡ done (r, w1)
      → is_negative r ≡ false
      → run_events machine fuel w1 ≡ fault
      → pipeline_process machine fuel w ≡ fault
  unfolding pipeline_process
  process-faults fuel w w1 r waits polled fails = ground (arith, waits, fails)

  -- A round of `pipelineProcess` in which the gadget's bit is set and its one event is
  -- UVC_EVENT_STREAMOFF returns 0 and ends with no pump, the blinking disabled and the flag of the
  -- LED set to on, and the streams with all but their states, if the nodes can be connected and the
  -- pumps have not been destroyed before; unless, with the nodes stopped, epoll refuses a
  -- registration of `pipelineStop`, which fails an ASSERT.
  pub process-streamoff :
      (fuel : ℕ) (w w1 : State machine) (r : ℤ)
      → wait_round machine (suc (suc fuel)) w ≡ done (r, w1)
      → is_negative r ≡ false
      → (bit_and w1.app.fd_bits uvc_events_bit == 0) ≡ false
      → NextEvent w1 (success stream_off)
      → ((w2 : State machine)
          → pipeline_stop machine (heard w1) ≡ done (pos 0, w2)
          → NextEvent w2 (error enoent))
      → AllWired machine w1
      → ((link : Link) → Destroyable w1.app link)
      → ((pipeline_process machine (suc (suc fuel)) w ≡ fault) × StopRefused machine (heard w1))
        ⊎ ((w' : State machine) × (pipeline_process machine (suc (suc fuel)) w
              ≡ done (some (pos 0), w'))
            × SteadyNodes machine w1 w'
            × ((link : Link) → pump_at w'.app link ≡ none)
            × (w'.app.led_enabled ≡ 0)
            × (w'.app.led_on ≡ 1))
  process-streamoff fuel w w1 r waits polled bit first silent wired can =
      let same = same_nodes-Steady machine w1 (heard w1).kernel w1.app refl refl refl in
      elim (pipeline_stop_lem machine (heard w1)
        (SteadyNodes-AllWired machine w1 (heard w1) same wired) can) [
          | inl (fails, refused) ↦ inl (
            process-faults (suc (suc fuel)) w w1 r waits polled
                (streamoff_faults fuel w1 bit first fails),
            refused,
          )
          | inr (w2, stops, steady, none_left, enabled, on, lit) ↦ inr (
            heard w2,
            process-stopped machine (suc (suc fuel)) w w1 (heard w2) r waits polled
                (streamoff_run fuel w1 w2 bit first stops (silent w2 stops)) none_left,
            SteadyNodes-trans machine w1 w2 (heard w2)
                (SteadyNodes-trans machine w1 (heard w1) w2 same steady)
                (same_nodes-Steady machine w2 (heard w2).kernel w2.app refl refl refl),
            none_left,
            enabled,
            on,
          )
        ]
