-- ===== src/Main/Rounds.antt =====
-- main.c: `pipelineProcess`, a round of the pipeline, and the loop of `main`.
use malincam.Prelude.{
  ℕ, ℤ, pos, is_negative, is_zero, bit_and, ◌+◌, ◌-◌, ◌%◌, ◌^◌, ◌/◌, ◌==◌, zero, suc, true, false,
  Option, none, some,
}
use malincam.Prelude.Outcome.{Outcome, done, out_of_fuel, ◌>>=◌}
use malincam.Pump.{Pump}
use malincam.Pump.Cycle.{assert_some, pump_pump}
use malincam.Pollinator.{poll}
use malincam.Led.{blink_update}
use malincam.Uvc.Events.{process_events}
use malincam.Main.{
  uvc_events_bit, Func, Pipeline, Machine, Link, first_link, second_link, third_link, source,
  destination, bit_of, pump_at, put_pump, call_func, State, stream_at, put_stream,
}
use malincam.Main.Switch.{led_of, put_led, uvc_event_streamon}

module _ (machine : Machine) where
  open machine use {platform, gadget, epoll, sysfs, clock, mjpeg, begin_us}
  open platform.host.driver use {Kernel}

  -- `nowUs`, a `uint64_t`.
  unfoldable pub now_us : Kernel → ℕ × Kernel
  now_us k = let (us, k') = clock k in ((us + (2 ^ 64 - begin_us % 2 ^ 64)) % 2 ^ 64, k')

  -- A call of `pumpPump`, whose result is only logged.
  unfoldable pub pump_link : ℕ → State machine → Link → Pump → Outcome (State machine)
  pump_link fuel w link pump = do
    src ← assert_some (stream_at machine w (source link))
    dst ← assert_some (stream_at machine w (destination link))
    (result, e) ←
        pump_pump platform.host.driver fuel
          (record { kernel = w.kernel; src = src; dst = dst; pump = pump })
    let sourced = put_stream machine w (source link) e.src
    let w' = put_stream machine sourced (destination link) e.dst
    done (record w' { kernel = e.kernel; app = put_pump w'.app link (some e.pump) })

  -- `pipelineProcess`, one of its three guarded pumps.
  unfoldable pub run_pump : ℕ → State machine → Link → Outcome (State machine)
  unfolding pump_link
  run_pump fuel w link = elim (pump_at w.app link) [
    | none ↦ done w
    | some pump ↦ elim (bit_and w.app.fd_bits (bit_of link) == 0) [
      | true ↦ done w
      | false ↦ pump_link fuel w link pump
    ]
  ]

  -- `pipelineProcess`, its part after the events.
  unfoldable pub run_pumps : ℕ → State machine → Outcome (State machine)
  unfolding run_pump
  run_pumps fuel w = do
    w1 ← run_pump fuel w first_link
    w2 ← run_pump fuel w1 second_link
    run_pump fuel w2 third_link

  -- `pipelineProcess`, the gadget's events, whose result is dropped.
  unfoldable pub run_events : ℕ → State machine → Outcome (State machine)
  run_events fuel w = elim (bit_and w.app.fd_bits uvc_events_bit == 0) [
    | true ↦ done w
    | false ↦ do
      (result, w') ←
          process_events platform.host.driver gadget mjpeg Pipeline (uvc_event_streamon machine)
            fuel 0 w
      done w'
  ]

  -- `pipelineProcess` up to the update of the LED: what `pollinatorPoll` returned. The time before
  -- the wait is only logged; the time in milliseconds is passed as a `uint32_t`.
  unfoldable pub wait_round : ℕ → State machine → Outcome (ℤ × State machine)
  unfolding now_us
  wait_round fuel w = do
    let (poll_pre, k1) = now_us w.kernel
    (result, k2, bits) ← poll Func Kernel epoll ℕ call_func fuel k1 w.app.fds 5000 0
    let (us, k3) = now_us k2
    let polled = record w { kernel = k3; app = record w.app { fd_bits = bits } }
    done (
      result,
      put_led machine polled
          (blink_update Kernel sysfs (led_of machine polled) (us / 1000 % 2 ^ 32)),
    )

  -- `pipelineProcess`; `none` is `exit(1)`.
  unfoldable pub pipeline_process : ℕ → State machine → Outcome (Option ℤ × State machine)
  unfolding wait_round run_events run_pumps
  pipeline_process fuel w = do
    (result, w1) ← wait_round fuel w
    elim (is_negative result) [
      | true ↦ done (none, w1)
      | false ↦ do w2 ← run_events fuel w1; w3 ← run_pumps fuel w2; done (some (pos 0), w3)
    ]

  -- The loop of `main`, one unit of fuel for a round, with `inner` for the loops inside.
  unfoldable pub main_loop : ℕ → ℕ → State machine → Outcome (Option ℤ × State machine)
  unfolding pipeline_process
  main_loop zero inner w = out_of_fuel
  main_loop (suc rounds) inner w = do
    (result, w') ← pipeline_process inner w
    elim result [
      | none ↦ done (none, w')
      | some r ↦ elim (is_zero r) [ true ↦ main_loop rounds inner w' | false ↦ done (some r, w') ]
    ]
