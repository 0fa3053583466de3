-- ===== src/Main/Laws/Runs.antt =====
-- `pipelineStop` as a whole, and after `pipelineStart`.
use malincam.Prelude.{pos, ◌≡◌, refl, ap, ◌∙◌, ◌⊎◌, none, inl, inr}
use malincam.Prelude.Outcome.{done, fault}
use malincam.Led.{Led, SetTo, blink_enable, blink_disabled}
use malincam.Pump.Create.{pump_destroy}
use malincam.Main.{
  Machine, Pipeline, Link, first_link, second_link, third_link, pump_at, put_pump, State,
}
use malincam.Main.Switch.{
  node_order, stop_watches, stop_parts, led_of, put_led, pipeline_stop, stop_pumps,
}
use malincam.Main.Laws.{SamePumps, SteadyNodes, AllReady, SteadyNodes-trans}
use malincam.Main.Laws.Watches.{watch_all_cases}
use malincam.Main.Laws.Nodes.{stop_parts_lem}
use malincam.Main.Laws.Pumps.{Destroyable, drop_pump_lem}
use malincam.Main.Laws.Starts.{
  PumpsRefused, AllWired, SteadyNodes-AllWired, watched_Present, same_nodes-Steady,
}

module _ (machine : Machine) where
  open machine use {platform, sysfs}
  open platform.host.driver use {Kernel}

  pub same_pump :
      (p p' : Pipeline) → SamePumps p p' → (link : Link) → pump_at p' link ≡ pump_at p link
  same_pump p p' same first_link = same.0
  same_pump p p' same second_link = same.1
  same_pump p p' same third_link = same.2

  lit_pump :
      (w : State machine) (link : Link)
      → pump_at (put_led machine w (blink_enable Kernel sysfs (led_of machine w) 0)).app link
        ≡ pump_at w.app link
  lit_pump w first_link = refl
  lit_pump w second_link = refl
  lit_pump w third_link = refl

  no_pumps :
      (p : Pipeline)
      → p.cam_to_isp ≡ none
      → p.isp_to_enc ≡ none
      → p.enc_to_uvc ≡ none
      → (link : Link) → pump_at p link ≡ none
  no_pumps p one two three first_link = one
  no_pumps p one two three second_link = two
  no_pumps p one two three third_link = three

  -- `pipelineStop`, from the pumps on.
  stop_pumps_lem :
      (w : State machine)
      → AllWired machine w
      → ((link : Link) → Destroyable w.app link)
      → ((stop_pumps machine w ≡ fault) × PumpsRefused machine w stop_watches)
        ⊎ ((w' : State machine) × (stop_pumps machine w ≡ done w')
            × SteadyNodes machine w w'
            × ((link : Link) → pump_at w'.app link ≡ none)
            × (w'.app.led_enabled ≡ w.app.led_enabled)
            × (w'.app.led_on ≡ w.app.led_on))
  unfolding stop_pumps
  stop_pumps_lem w wired can =
      let w1 : State machine = record w { app = put_pump w.app third_link none } in
      let w2 : State machine = record w1 { app = put_pump w1.app second_link none } in
      let w3 : State machine = record w2 { app = put_pump w2.app first_link none } in
      let drops1 = drop_pump_lem machine w third_link (can third_link) in
      let drops2 = drop_pump_lem machine w1 second_link (can second_link) in
      let drops3 = drop_pump_lem machine w2 first_link (can first_link) in
      let wired3 =
        SteadyNodes-AllWired machine w w3
          (same_nodes-Steady machine w w3.kernel w3.app refl refl refl) wired in
      elim (watch_all_cases machine stop_watches w3 (watched_Present machine w3 wired3)) [
        | inl (fails, refused) ↦
            inl (rw (drops1, drops2, drops3, fails) refl, (w3.app, refl, refused))
        | inr (k, fds, watches) ↦
            let w4 : State machine = record w3 { kernel = k; app = record w3.app { fds = fds } } in
            inr (
              w4,
              rw (drops1, drops2, drops3, watches) refl,
              same_nodes-Steady machine w w4.kernel w4.app refl refl refl,
              no_pumps w4.app refl refl refl,
              refl,
              refl,
            )
      ]

  -- `pipelineStop` up to the pumps: the LED is set and the nodes are stopped.
  abbrev stopped_nodes : State machine → State machine
  stopped_nodes w =
      stop_parts machine (put_led machine w (blink_enable Kernel sysfs (led_of machine w) 0))
        node_order

  -- The LED is set to on, as the kernel sees it, before the nodes and the pumps are stopped.
  abbrev pub LitFirst : State machine → State machine → Type 0
  LitFirst w w' =
      (lit : Led Kernel) × SetTo Kernel sysfs 1 (led_of machine w) lit
      × (stop_pumps machine (stop_parts machine (put_led machine w lit) node_order) ≡ done w')

  -- Once the nodes are stopped, epoll refuses a registration of `pipelineStop`.
  abbrev pub StopRefused : State machine → Type 0
  StopRefused w = PumpsRefused machine (stopped_nodes w) stop_watches

  pub pipeline_stop_lem :
      (w : State machine)
      → AllWired machine w
      → ((link : Link) → Destroyable w.app link)
      → ((pipeline_stop machine w ≡ fault) × StopRefused w)
        ⊎ ((w' : State machine) × (pipeline_stop machine w ≡ done (pos 0, w'))
            × SteadyNodes machine w w'
            × ((link : Link) → pump_at w'.app link ≡ none)
            × (w'.app.led_enabled ≡ 0)
            × (w'.app.led_on ≡ 1)
            × LitFirst w w')
  unfolding pipeline_stop blink_enable
  pipeline_stop_lem w wired can =
      let lit : State machine =
        put_led machine w (blink_enable Kernel sysfs (led_of machine w) 0) in
      let stopped : State machine = stop_parts machine lit node_order in
      let (steady, same) = stop_parts_lem machine node_order lit in
      let lit_steady = same_nodes-Steady machine w lit.kernel lit.app refl refl refl in
      let steady' = SteadyNodes-trans machine w lit stopped lit_steady steady in
      elim (stop_pumps_lem stopped (SteadyNodes-AllWired machine w stopped steady' wired) (λ link.
        ap pump_destroy (same_pump lit.app stopped.app same link ∙ lit_pump w link) ∙ can link)) [
          | inl (fails, refused) ↦ inl (rw fails refl, refused)
          | inr (w', stops, later, none_left, enabled, on) ↦ inr (
            w',
            rw stops refl,
            SteadyNodes-trans machine w stopped w' steady' later,
            none_left,
            enabled ∙ same.4,
            on ∙ (same.5 ∙ (blink_disabled Kernel sysfs (led_of machine w) 0).0.0),
            (
              blink_enable Kernel sysfs (led_of machine w) 0,
              (blink_disabled Kernel sysfs (led_of machine w) 0).0,
              stops,
            ),
          )
        ]

  -- `pipelineStop` of what a `pipelineStart` of `w` left, undoing it.
  abbrev pub Undone : State machine → State machine → Type 0
  Undone w w' =
      ((pipeline_stop machine w' ≡ fault) × StopRefused w')
      ⊎ ((w'' : State machine) × (pipeline_stop machine w' ≡ done (pos 0, w''))
          × SteadyNodes machine w w''
          × ((link : Link) → pump_at w''.app link ≡ none)
          × (w''.app.led_enabled ≡ 0)
          × (w''.app.led_on ≡ 1)
          × AllReady machine w'')
