-- ===== src/Main/Laws/Rounds.antt =====
-- The rounds of the pipeline.
use malincam.Prelude.{
  ◌∙◌, sym, negsuc, Option-cases, inl, inr, ℕ, ℤ, pos, is_negative, is_zero, ◌≡◌, refl, true, false,
  Option, none, some, arith, zero, suc,
}
use malincam.Prelude.Outcome.{Outcome, done}
use malincam.Prelude.Yields.{Yields, Yields-done, Yields-bind, Yields-test}
use malincam.Main.{Machine, Link, first_link, second_link, third_link, pump_at, State}
use malincam.Main.Rounds.{wait_round, run_events, run_pump, run_pumps, pipeline_process, main_loop}

some-inj : {x y : ℤ} → some x ≡ some y → x ≡ y
some-inj same = cc

module _ (machine : Machine) where
  run_pump-none :
      (fuel : ℕ) (w : State machine) (link : Link)
      → pump_at w.app link ≡ none
      → run_pump machine fuel w link ≡ done w
  unfolding run_pump
  run_pump-none fuel w link at = ground (arith, at)

  -- A round in which the events leave no pump moves no buffer, whatever bits are set: its state is
  -- the one that the events left.
  pub process-stopped :
      (fuel : ℕ) (w w1 w2 : State machine) (r : ℤ)
      → wait_round machine fuel w ≡ done (r, w1)
      → is_negative r ≡ false
      → run_events machine fuel w1 ≡ done w2
      → ((link : Link) → pump_at w2.app link ≡ none)
      → pipeline_process machine fuel w ≡ done (some (pos 0), w2)
  unfolding pipeline_process run_pumps
  process-stopped fuel w w1 w2 r waits polled events stopped = ground (
    arith,
    waits,
    events,
    run_pump-none fuel w2 first_link (stopped first_link),
    run_pump-none fuel w2 second_link (stopped second_link),
    run_pump-none fuel w2 third_link (stopped third_link),
  )

  -- `pollinatorPoll` failed in a round that ended in `w'`.
  abbrev pub PollFails : ℕ → State machine → Type 0
  PollFails fuel w' =
      (w : State machine) × (r : ℤ) × (wait_round machine fuel w ≡ done (r, w'))
      × (is_negative r ≡ true)

  -- `pipelineProcess` returns 0, or exits for a wait that failed.
  abbrev Continues : ℕ → Option ℤ × State machine → Type 0
  Continues fuel (none, w') = PollFails fuel w'
  Continues fuel (some r, w') = r ≡ pos 0

  process-Continues :
      (fuel : ℕ) (w : State machine) → Yields (Continues fuel) (pipeline_process machine fuel w)
  unfolding pipeline_process
  process-Continues fuel w =
      let Goes = Continues fuel in
      Yields-bind Goes (wait_round machine fuel w) _ (λ (r, w1) waits.
        Yields-test Goes (is_negative r) _ _
          (λ failed. Yields-done Goes (none, w1) (w, r, waits, failed))
          (Yields-bind Goes (run_events machine fuel w1) _ (λ w2 events.
            Yields-bind Goes (run_pumps machine fuel w2) _
              (λ w3 runs. Yields-done Goes (some (pos 0), w3) refl))))

  continued :
      (fuel : ℕ) (result : Option ℤ) (w : State machine)
      → Continues fuel (result, w)
      → (r : ℤ) → result ≡ some r
      → r ≡ pos 0
  continued fuel none w goes r at = absurd (ground arith)
  continued fuel (some r') w goes r at = sym (some-inj at) ∙ goes

  -- What the loop of `main` gives: an exit.
  abbrev pub Exits : ℕ → Option ℤ × State machine → Type 0
  Exits fuel (result, w') = (result ≡ none) × PollFails fuel w'

  Exits-none :
      (fuel : ℕ) (result : Option ℤ) (w' : State machine)
      → Continues fuel (result, w')
      → result ≡ none
      → Yields (Exits fuel) (done (none, w'))
  Exits-none fuel none w' goes at = Yields-done (Exits fuel) (none, w') (refl, goes)
  Exits-none fuel (some r) w' goes at = absurd (ground arith)

  Exits-unless :
      (fuel : ℕ) (r : ℤ) (w : State machine) (later : Outcome (Option ℤ × State machine))
      → r ≡ pos 0
      → Yields (Exits fuel) later
      → Yields (Exits fuel) (elim (is_zero r) [ true ↦ later | false ↦ done (some r, w) ])
  Exits-unless fuel (pos zero) w later zero_r exits = exits
  Exits-unless fuel (pos (suc n)) w later zero_r exits = absurd (ground arith)
  Exits-unless fuel (negsuc n) w later zero_r exits = absurd (ground arith)

  main_loop-Exits :
      (rounds inner : ℕ) (w : State machine)
      → Yields (Exits inner) (main_loop machine rounds inner w)
  unfolding main_loop
  main_loop-Exits zero inner w = λ x runs. absurd (ground arith)
  main_loop-Exits (suc rounds) inner w =
      Yields-bind (Exits inner) (pipeline_process machine inner w) _ (λ (result, w') processes.
        let goes = process-Continues inner w (result, w') processes in
        elim (Option-cases result) [
          | inl gone ↦ rw gone (Exits-none inner result w' goes gone)
          | inr (r, at) ↦ rw at (
              Exits-unless inner r w' (main_loop machine rounds inner w')
                (continued inner result w' goes r at) (main_loop-Exits rounds inner w'))
        ])

  -- Where the loop of `main` ends, other than by a failed ASSERT, it is by `exit(1)` in a round
  -- whose `pollinatorPoll` returned a negative value: it never gives a value back, so that
  -- `pipelineDestroy` is not reached.
  pub main_loop-exits :
      (rounds inner : ℕ) (w w' : State machine) (result : Option ℤ)
      → main_loop machine rounds inner w ≡ done (result, w')
      → (result ≡ none) × PollFails inner w'
  main_loop-exits rounds inner w w' result ends = main_loop-Exits rounds inner w (result, w') ends
