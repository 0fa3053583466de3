-- ===== src/Main/Switch.antt =====
-- main.c: `pipelineStart` and `pipelineStop`.
use malincam.Prelude.{
  ℕ, ℤ, pos, minus, is_zero, bit_or, zero, suc, true, false, List, [], ◌∷◌, none,
}
use malincam.Prelude.Outcome.{Outcome, done, ◌>>=◌}
use malincam.Abi.{einval}
use malincam.Node.{node_start, node_stop}
use malincam.Pump.Create.{pump_create, pump_destroy}
use malincam.Pump.Cycle.{assert_some}
use malincam.Pollinator.{fd_read, fd_write, fd_except, MonitorFd, monitor_fd}
use malincam.Led.{Led, blink_enable}
use malincam.Main.{
  cam_to_isp_bit, isp_to_enc_bit, enc_to_uvc_bit, uvc_events_bit, Func, bit_set_func, Machine, Part,
  camera, processor, encoder, gadget, input_side, output_side, End, Link, first_link, second_link,
  third_link, source, destination, pump_at, put_pump, State, node_at, put_node, stream_at,
}

-- The nodes in the order in which they are started, and stopped.
abbrev pub node_order : List Part
node_order = gadget ∷ encoder ∷ processor ∷ camera ∷ []

-- A call of `pollinatorMonitorFd`: the stream that has the descriptor, `event_bits` and `arg2`.
pub record Watch : Type 0 where
  pub end : End
  pub event_bits : ℕ
  pub arg2 : ℕ

-- The calls of `pipelineStart`.
abbrev pub start_watches : List Watch
start_watches =
    record {
      end = record { part = camera; side = output_side };
      event_bits = bit_or fd_read fd_write;
      arg2 = cam_to_isp_bit;
    }
    ∷ record {
      end = record { part = processor; side = input_side };
      event_bits = bit_or fd_read fd_write;
      arg2 = cam_to_isp_bit;
    }
    ∷ record {
      end = record { part = processor; side = output_side };
      event_bits = bit_or fd_read fd_write;
      arg2 = isp_to_enc_bit;
    }
    ∷ record {
      end = record { part = encoder; side = input_side };
      event_bits = bit_or fd_read fd_write;
      arg2 = bit_or isp_to_enc_bit enc_to_uvc_bit;
    }
    ∷ record {
      end = record { part = gadget; side = input_side };
      event_bits = bit_or (bit_or fd_except fd_write) fd_read;
      arg2 = bit_or enc_to_uvc_bit uvc_events_bit;
    }
    ∷ []

-- The calls of `pipelineStop`: four removals, and the gadget's device for its events alone.
abbrev pub stop_watches : List Watch
stop_watches =
    record { end = record { part = camera; side = output_side }; event_bits = 0; arg2 = 0 }
    ∷ record { end = record { part = processor; side = input_side }; event_bits = 0; arg2 = 0 }
    ∷ record { end = record { part = processor; side = output_side }; event_bits = 0; arg2 = 0 }
    ∷ record { end = record { part = encoder; side = input_side }; event_bits = 0; arg2 = 0 }
    ∷ record {
      end = record { part = gadget; side = input_side };
      event_bits = fd_except;
      arg2 = uvc_events_bit;
    }
    ∷ []

module _ (machine : Machine) where
  open machine use {platform, epoll, sysfs}
  open platform.host.driver use {Kernel}

  -- A call of `nodeStart`.
  unfoldable pub start_part : State machine → Part → Outcome (ℤ × State machine)
  start_part w part = do
    (result, k, node) ← node_start platform.host.driver w.kernel (node_at machine w part)
    done (result, record (put_node machine w part node) { kernel = k })

  -- `pipelineStart`, the nodes that are left to start: 1 at the first that fails.
  unfoldable pub start_parts : State machine → List Part → Outcome (ℤ × State machine)
  unfolding start_part
  start_parts w [] = done (pos 0, w)
  start_parts w (part ∷ rest) = do
    (result, w') ← start_part w part
    elim (is_zero result) [ true ↦ start_parts w' rest | false ↦ done (pos 1, w') ]

  -- `pipelineStop`, the nodes that are left to stop; what `nodeStop` returns is dropped.
  unfoldable pub stop_parts : State machine → List Part → State machine
  stop_parts w [] = w
  stop_parts w (part ∷ rest) =
      let (result, k, node) = node_stop platform.host.driver w.kernel (node_at machine w part) in
      stop_parts (record (put_node machine w part node) { kernel = k }) rest

  -- `p->link = pumpCreate(...)`
  unfoldable pub make_pump : State machine → Link → Outcome (State machine)
  make_pump w link = do
    src ← assert_some (stream_at machine w (source link))
    dst ← assert_some (stream_at machine w (destination link))
    pump ← pump_create src dst
    done (record w { app = put_pump w.app link pump })

  -- `pumpDestroy(p->link); p->link = NULL`
  unfoldable pub drop_pump : State machine → Link → Outcome (State machine)
  drop_pump w link = do
    freed ← pump_destroy (pump_at w.app link)
    done (record w { app = put_pump w.app link none })

  -- The calls of `pollinatorMonitorFd` that are left. A removal does not read `func`; `arg1`, the
  -- address of `fd_bits`, is the same in all of them.
  unfoldable pub watch_all : State machine → List Watch → Outcome (State machine)
  watch_all w [] = done w
  watch_all w (watch ∷ rest) = do
    st ← assert_some (stream_at machine w watch.end)
    let reg : MonitorFd Func = record {
      fd = pos st.dev_fd;
      event_bits = watch.event_bits;
      func = bit_set_func;
      arg1 = 0;
      arg2 = watch.arg2;
    }
    (result, k, fds) ← monitor_fd Func Kernel epoll w.kernel w.app.fds reg
    watch_all (record w { kernel = k; app = record w.app { fds = fds } }) rest

  -- `ledBlinkEnable`
  abbrev pub led_of : State machine → Led Kernel
  led_of w = record { enabled = w.app.led_enabled; on = w.app.led_on; kernel = w.kernel }

  abbrev pub put_led : State machine → Led Kernel → State machine
  put_led w led = record w {
    kernel = led.kernel;
    app = record w.app { led_enabled = led.enabled; led_on = led.on };
  }

  -- `pipelineStart`, with the four nodes started.
  unfoldable pub start_pumps : State machine → Outcome (State machine)
  unfolding make_pump watch_all
  start_pumps w = do
    w1 ← make_pump w first_link
    w2 ← make_pump w1 second_link
    w3 ← make_pump w2 third_link
    w4 ← watch_all w3 start_watches
    done (put_led w4 (blink_enable Kernel sysfs (led_of w4) 1))

  -- `pipelineStart`
  unfoldable pub pipeline_start : State machine → Outcome (ℤ × State machine)
  unfolding start_parts start_pumps
  pipeline_start w = do
    (result, started) ← start_parts w node_order
    elim (is_zero result) [
      | false ↦ done (result, started)
      | true ↦ do w' ← start_pumps started; done (pos 0, w')
    ]

  -- `pipelineStop`, with the four nodes stopped.
  unfoldable pub stop_pumps : State machine → Outcome (State machine)
  unfolding drop_pump watch_all
  stop_pumps w = do
    w1 ← drop_pump w third_link
    w2 ← drop_pump w1 second_link
    w3 ← drop_pump w2 first_link
    watch_all w3 stop_watches

  -- `pipelineStop`
  unfoldable pub pipeline_stop : State machine → Outcome (ℤ × State machine)
  unfolding stop_parts stop_pumps
  pipeline_stop w = do
    let lit = put_led w (blink_enable Kernel sysfs (led_of w) 0)
    w' ← stop_pumps (stop_parts lit node_order)
    done (pos 0, w')

  -- `uvcEventStreamon`
  unfoldable pub uvc_event_streamon : ℕ → State machine → Outcome (ℤ × State machine)
  unfolding pipeline_start pipeline_stop
  uvc_event_streamon zero w = pipeline_stop w
  uvc_event_streamon (suc zero) w = pipeline_start w
  uvc_event_streamon (suc (suc n)) w = done (minus einval, w)
