-- ===== src/Pump/Ownership/Safety.antt =====
-- `pumpPump` as a whole: the invariant, the absence of faults, and termination.
use malincam.Prelude.{
  ℕ, ℤ, Option, none, some, List, ◌≡◌, ◌≢◌, ◌<◌, ◌≤◌, refl, sym, ◌∙◌, arith, ◌⊎◌, inl, inr,
}
use mathlib.Core.Path.{subst, subst₂}
use malincam.Prelude.Outcome.{Outcome, done, fault, out_of_fuel}
use malincam.Device.{Buffer}
use malincam.Device.Driver.{Driver}
use malincam.Device.Transfer.Promises.{Documented, NoEio, QueueLaws, without_eio, Quiet}
use malincam.Pump.{pass_dmabuf_sp, pass_mmap_to_userptr_sp, Pump}
use malincam.Pump.Cycle.{Env, return_completed, take_newest, pass_waiting, pump_pump}
use malincam.Pump.Ownership.{Inv}
use malincam.Pump.Ownership.Rounds.{
  Later, Ends, Ends-weaken, Waiting, return_completed-Ends, take_newest-Ends,
}
use malincam.Pump.Ownership.Passing.{
  PassWorks, dmabuf_sp_works, userptr_sp_works, pass_waiting-Ends,
}

module _ (driver : Driver) (laws : QueueLaws driver) where
  open driver use {Kernel}

  -- What running out of fuel says of the two queues.
  abbrev Starved : ℕ → Env driver → Type 0
  Starved n e =
      (q : Quiet driver)
      → (n ≤ q.ready e.kernel e.dst.dev_fd e.dst.buf_type)
        ⊎ (n ≤ q.ready e.kernel e.src.dev_fd e.src.buf_type)

  module _ (fuel : ℕ) (e : Env driver)
      (works : PassWorks e.pump.pass_func e.pump.planes_count) where
    -- `pumpPump` behind its first loop, and behind its second.
    behind_take :
        (e1 : Env driver)
        → return_completed driver fuel e ≡ done (none, e1)
        → Later driver laws e e1
        → (o : Outcome (Option ℤ × Env driver)) → take_newest driver fuel e1 ≡ o
        → Ends driver laws (Waiting driver laws fuel e1.kernel e1.src) e1 o
        → Ends driver laws (Starved fuel e) e (pump_pump driver fuel e)
    unfolding pump_pump
    behind_take e1 first later (done (some r, e2)) second (sb, db, inv, still) = rw first (
        rw second (
          Ends-weaken driver laws {S = ⊥} {T = Starved fuel e} e e1 (done (r, e2)) later absurd
            (sb, db, inv, still)))
    behind_take e1 first later (done (none, e2)) second (sb, db, inv, still) =
        let works' : PassWorks e2.pump.pass_func e2.pump.planes_count =
          subst₂ PassWorks (sym (still.2 ∙ later.2)) (sym (still.3 ∙ later.3)) works in
        let end = pass_waiting-Ends driver laws e2 sb db inv works' in
        rw first (
          rw second (
            Ends-weaken driver laws {S = ⊥} {T = Starved fuel e} e e1 (pass_waiting driver e2) later
              absurd
              (Ends-weaken driver laws {S = ⊥} {T = ⊥} e1 e2 (pass_waiting driver e2) still
                (λ (x : ⊥). x) end)))
    behind_take e1 first later fault second end = absurd end
    behind_take e1 first later out_of_fuel second starved = rw first (
        rw second (λ q.
          let enough = subst₂ (λ fd t. fuel ≤ q.ready e1.kernel fd t) later.0 later.1 (starved q) in
          inr (omega (arith, enough, later.4 q e.src.dev_fd e.src.buf_type))))

    behind_return :
        (o : Outcome (Option ℤ × Env driver))
        → return_completed driver fuel e ≡ o
        → Ends driver laws (Waiting driver laws fuel e.kernel e.dst) e o
        → Ends driver laws (Starved fuel e) e (pump_pump driver fuel e)
    unfolding pump_pump
    behind_return (done (some r, e1)) first end = rw first end
    behind_return (done (none, e1)) first (sb, db, inv, later) =
        behind_take e1 first later (take_newest driver fuel e1) refl
          (take_newest-Ends driver laws fuel e1 sb db inv)
    behind_return fault first end = absurd end
    behind_return out_of_fuel first starved = rw first (λ q. inl (starved q))

    pump_pump-Ends :
        (sb db : List Buffer)
        → Inv driver laws e sb db
        → Ends driver laws (Starved fuel e) e (pump_pump driver fuel e)
    pump_pump-Ends sb db inv =
        behind_return (return_completed driver fuel e) refl
          (return_completed-Ends driver laws fuel e sb db inv)

    ended :
        (o : Outcome (ℤ × Env driver)) (q : Quiet driver)
        → q.ready e.kernel e.dst.dev_fd e.dst.buf_type < fuel
        → q.ready e.kernel e.src.dev_fd e.src.buf_type < fuel
        → Ends driver laws (Starved fuel e) e o
        → (result : ℤ) × (e' : Env driver) × (sb' : List Buffer) × (db' : List Buffer) × (o
            ≡ done (result, e'))
          × Inv driver laws e' sb' db'
    ended (done (result, e')) q a b (sb, db, inv, later) = (result, e', sb, db, refl, inv)
    ended fault q a b end = absurd end
    ended out_of_fuel q a b starved = absurd (omega (arith, starved q))

-- The pump passes buffers between single-planar streams.
abbrev pub IsSinglePlanar : Pump → Type 0
IsSinglePlanar pump =
    (pump.planes_count ≡ 1)
    × ((pump.pass_func ≡ pass_dmabuf_sp) ⊎ (pump.pass_func ≡ pass_mmap_to_userptr_sp))

single_works : (pump : Pump) → IsSinglePlanar pump → PassWorks pump.pass_func pump.planes_count
single_works pump (one, inl func) = subst₂ PassWorks (sym func) (sym one) dmabuf_sp_works
single_works pump (one, inr func) = subst₂ PassWorks (sym func) (sym one) userptr_sp_works

module _ (driver : Driver) (documented : Documented driver) (no_eio : NoEio driver) (fuel : ℕ)
    (e : Env driver) (single : IsSinglePlanar e.pump) where
  -- `pumpPump` between single-planar streams, started where each buffer has one owner at most,
  -- never faults, on a kernel that answers as documented and no VIDIOC_DQBUF of which fails with
  -- EIO: its ASSERTs hold, and it follows no pointer or index out of range.
  pub pump_pump-ne_fault :
      (sb db : List Buffer)
      → Inv driver (without_eio driver documented no_eio) e sb db
      → pump_pump driver fuel e ≢ fault
  pump_pump-ne_fault sb db inv h =
      let laws = without_eio driver documented no_eio in
      subst (Ends driver laws (Starved driver laws fuel e) e) h
        (pump_pump-Ends driver laws fuel e (single_works e.pump single) sb db inv)

  -- `pumpPump` between single-planar streams, on a kernel that answers as documented and no
  -- VIDIOC_DQBUF of which fails with EIO, keeps the ownership of buffers, whatever it returns: no
  -- source buffer is with the kernel, waiting in the pump or filling a destination buffer at once,
  -- none fills two, and the kernel holds just the destination buffers that are filled.
  pub pump_pump-Inv :
      (sb db : List Buffer) (result : ℤ) (e' : Env driver)
      → Inv driver (without_eio driver documented no_eio) e sb db
      → pump_pump driver fuel e ≡ done (result, e')
      → (sb' : List Buffer) × (db' : List Buffer) × Inv driver
          (without_eio driver documented no_eio)
          e'
          sb'
          db'
  pump_pump-Inv sb db result e' inv h =
      let laws = without_eio driver documented no_eio in
      let (sb', db', inv', later) =
        subst (Ends driver laws (Starved driver laws fuel e) e) h
          (pump_pump-Ends driver laws fuel e (single_works e.pump single) sb db inv) in
      (sb', db', inv')

  -- `pumpPump` between single-planar streams, started where each buffer has one owner at most, on a
  -- kernel that answers as documented, no VIDIOC_DQBUF of which fails with EIO, and that gives
  -- finitely many buffers while it is called, returns, with more rounds of fuel than either stream
  -- will still give buffers, and it keeps the ownership of buffers.
  pub pump_pump_returns :
      (sb db : List Buffer) (q : Quiet driver)
      → Inv driver (without_eio driver documented no_eio) e sb db
      → q.ready e.kernel e.dst.dev_fd e.dst.buf_type < fuel
      → q.ready e.kernel e.src.dev_fd e.src.buf_type < fuel
      → (result : ℤ) × (e' : Env driver) × (sb' : List Buffer) × (db' : List Buffer) × (pump_pump
            driver fuel e
          ≡ done (result, e'))
        × Inv driver (without_eio driver documented no_eio) e' sb' db'
  pump_pump_returns sb db q inv few_dst few_src =
      let laws = without_eio driver documented no_eio in
      let works = single_works e.pump single in
      ended driver laws fuel e works (pump_pump driver fuel e) q few_dst few_src
        (pump_pump-Ends driver laws fuel e works sb db inv)
