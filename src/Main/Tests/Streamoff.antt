-- ===== src/Main/Tests/Streamoff.antt =====
-- A round of the pipeline at a concrete input: the gadget's event is UVC_EVENT_STREAMOFF.
use malincam.Prelude.{
  ℕ, ℤ, pos, is_negative, ◌≡◌, ◌⊎◌, refl, sym, ◌∙◌, arith, false, true, none, some, [], ◌∷◌, List,
  bit_and, ◌==◌,
}
use mathlib.Core.Path.{subst}
use malincam.Prelude.Outcome.{Outcome, done, fault}
use malincam.Abi.{enoent}
use malincam.V4l2.{no_type}
use malincam.Array.{Block}
use malincam.Array
use malincam.Queue.{Queue}
use malincam.Queue
use malincam.Device.Driver.{Reply, success, error}
use malincam.Device.Bench.{Bench}
use malincam.Device.Stream.{device_stream_stop}
use malincam.Node.{node_stop}
use malincam.Led.{blink_update, blink_enable}
use malincam.Pump.{pass_dmabuf_sp, Pump}
use malincam.Pump.Create.{pump_destroy}
use malincam.Pollinator.{events, poll, monitor_fd}
use malincam.Uvc.Events.{Event, stream_off}
use malincam.Main.{
  Link, first_link, second_link, third_link, pump_at, State, Machine, bit_set_func, uvc_events_bit,
  call_func,
}
use malincam.Main.Switch.{pipeline_stop}
use malincam.Main.Rounds.{wait_round, pipeline_process}
use malincam.Main.Bench.{test_machine}
use malincam.Main.Tests.{ready_state, ready_pipeline, output_of, input_of}
use malincam.Main.Laws.{SteadyNodes}
use malincam.Main.Laws.Runs.{StopRefused}
use malincam.Main.Laws.Pumps.{Destroyable}
use malincam.Main.Laws.Starts.{AllWired}
use malincam.Main.Laws.Streamoff.{NextEvent, heard, process-streamoff}

-- A gadget with an event as long as the queue of its descriptor is not empty.
abbrev next_event : Bench → List ℕ → Reply Event × Bench
next_event k [] = (error enoent, k)
next_event k (i ∷ rest) = (success stream_off, record k { done_in = λ fd t. [] })

abbrev off_machine : Machine
off_machine = record test_machine {
  gadget = record test_machine.gadget { get_event = λ k. next_event k (k.done_in 16 no_type) };
  epoll = record test_machine.epoll {
    wait = λ k timeout. (
      events (
          record {
            index = 0;
            epollin = false;
            epollout = false;
            epollpri = true;
            epollerr = false;
            epollhup = false;
          }
          ∷ []),
      k,
    );
  };
}

abbrev running_pump : Pump
running_pump = record {
  next_in_queue = none;
  acquired_to_source = none ∷ none ∷ [];
  available = record {
    array = record {
      block = Block.live (some 0 ∷ some 1 ∷ []);
      size = 2;
      capacity = 2;
      item_size = 4;
    };
    front = 0;
  };
  pass_func = pass_dmabuf_sp;
  planes_count = 1;
}

-- Three pumps, the gadget watched, and an event in its queue.
abbrev pumping_state : State off_machine
pumping_state = record {
  kernel = record { queued = ready_state.kernel.queued; done_in = λ fd t. 0 ∷ [] };
  output = ready_state.output;
  uvc = ready_state.uvc;
  app = record ready_pipeline {
    fds = record { fd = pos 16; func = bit_set_func; arg1 = 0; arg2 = uvc_events_bit } ∷ [];
    cam_to_isp = some running_pump;
    isp_to_enc = some running_pump;
    enc_to_uvc = some running_pump;
    led_enabled = 1;
  };
}

abbrev waited : Outcome (ℤ × State off_machine) → ℤ × State off_machine
waited (done x) = x
waited _ = (pos 0, pumping_state)

abbrev polled : ℤ × State off_machine
polled = waited (wait_round off_machine 2 pumping_state)

polls : wait_round off_machine 2 pumping_state ≡ done (polled.0, polled.1)
unfolding wait_round poll
polls = refl

polled_well : is_negative polled.0 ≡ false
unfolding wait_round poll call_func
polled_well = refl

bit_is_set : (bit_and polled.1.app.fd_bits uvc_events_bit == 0) ≡ false
unfolding wait_round poll call_func
bit_is_set = refl

off_comes : NextEvent off_machine polled.1 (success stream_off)
unfolding wait_round poll blink_update
off_comes = refl

polled-AllWired : AllWired off_machine polled.1
unfolding wait_round poll
polled-AllWired first_link = record {
  src = output_of 11;
  dst = input_of 12;
  src_at = refl;
  dst_at = refl;
  exports = refl;
  imports = refl;
  some_room = omega arith;
}
polled-AllWired second_link = record {
  src = output_of 13;
  dst = input_of 14;
  src_at = refl;
  dst_at = refl;
  exports = refl;
  imports = refl;
  some_room = omega arith;
}
polled-AllWired third_link = record {
  src = output_of 15;
  dst = input_of 16;
  src_at = refl;
  dst_at = refl;
  exports = refl;
  imports = refl;
  some_room = omega arith;
}

polled-Destroyable : (link : Link) → Destroyable polled.1.app link
unfolding wait_round poll pump_destroy Queue.finalize Array.destroy
polled-Destroyable first_link = refl
polled-Destroyable second_link = refl
polled-Destroyable third_link = refl

abbrev left : State off_machine
left = (waited (pipeline_stop off_machine (heard off_machine polled.1))).1

stops : pipeline_stop off_machine (heard off_machine polled.1) ≡ done (pos 0, left)
unfolding wait_round poll blink_update pipeline_stop pump_destroy Queue.finalize Array.destroy
    blink_enable monitor_fd node_stop device_stream_stop
stops = refl

left_silent : NextEvent off_machine left (error enoent)
unfolding wait_round poll blink_update pipeline_stop pump_destroy Queue.finalize Array.destroy
    blink_enable monitor_fd node_stop device_stream_stop
left_silent = refl

done-inj :
    (w w' : State off_machine)
    → ◌≡◌ {A = Outcome (ℤ × State off_machine)} (done (pos 0, w)) (done (pos 0, w'))
    → w ≡ w'
done-inj w w' same = cc

silent_after :
    (w : State off_machine)
    → pipeline_stop off_machine (heard off_machine polled.1) ≡ done (pos 0, w)
    → NextEvent off_machine w (error enoent)
silent_after w at =
    subst (λ w'. NextEvent off_machine w' (error enoent)) (done-inj left w (sym stops ∙ at))
      left_silent

process-streamoff_example :
    ((pipeline_process off_machine 2 pumping_state ≡ fault)
      × StopRefused off_machine (heard off_machine polled.1))
    ⊎ ((w' : State off_machine) × (pipeline_process off_machine 2 pumping_state
          ≡ done (some (pos 0), w'))
        × SteadyNodes off_machine polled.1 w'
        × ((link : Link) → pump_at w'.app link ≡ none)
        × (w'.app.led_enabled ≡ 0)
        × (w'.app.led_on ≡ 1))
process-streamoff_example =
    process-streamoff off_machine 0 pumping_state polled.1 polled.0 polls polled_well bit_is_set
      off_comes silent_after polled-AllWired polled-Destroyable
