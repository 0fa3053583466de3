-- ===== src/Main/Laws/Watches.antt =====
-- The registrations of main.c: they fail only where epoll refuses one of
-- them, and change the table alone.
use malincam.Prelude.{
  ℤ, pos, ◌≡◌, refl, ◌∙◌, ap, Option, none, some, List, [], ◌∷◌, ◌==◌, inl, inr, ◌⊎◌, false,
  if◌then◌else◌, arith, set, negsuc, Bool-cases,
}
use malincam.Prelude.Outcome.{done, fault}
use malincam.Prelude.Yields.{Yields, Yields-done, Yields-bind}
use malincam.Pump.Cycle.{assert_some}
use malincam.Pollinator.{
  Epoll, EpollOp, EpollEvent, ctl_del, PollinatorFd, MonitorFd, slot_for, event_of, entry_of,
  write_item, monitor_fd,
}
use malincam.Pollinator.Slots.{find_pfd_lem}
use malincam.Device.{DeviceStream}
use malincam.Main.{
  side_of, Part, camera, processor, encoder, gadget, node_at, Func, bit_set_func, Machine, State,
  stream_at,
}
use malincam.Main.Switch.{Watch, watch_all}

module _ (F K : Type 0) (epoll : Epoll K) where
  -- What `pollinatorMonitorFd` calls EPOLL_CTL with, and that epoll refuses that call.
  abbrev call_due : List (PollinatorFd F) → MonitorFd F → EpollOp × Option EpollEvent
  call_due fds reg =
      if reg.event_bits == 0
      then (ctl_del, none)
      else ((slot_for F fds reg).0, some (event_of F reg (slot_for F fds reg).1))

  abbrev pub Refuses : K → List (PollinatorFd F) → MonitorFd F → Type 0
  Refuses k fds reg = (epoll.control k (call_due fds reg).0 reg.fd (call_due fds reg).1).0 ≡ false

  pub monitor_fd_cases :
      (k : K) (fds : List (PollinatorFd F)) (reg : MonitorFd F)
      → ((monitor_fd F K epoll k fds reg ≡ fault) × Refuses k fds reg)
        ⊎ ((r : ℤ) × (k' : K) × (fds' : List (PollinatorFd F)) × (monitor_fd F K epoll k fds reg
              ≡ done (r, k', fds')))
  unfolding monitor_fd
  monitor_fd_cases k fds reg = elim (Bool-cases (reg.event_bits == 0)) [
    | inr wanted ↦
        let (op, index) = slot_for F fds reg in
        elim (Bool-cases (epoll.control k op reg.fd (some (event_of F reg index))).0) [
          | inr refused ↦ inl (ground arith, ground arith)
          | inl ok ↦ inr (
            pos 0,
            (epoll.control k op reg.fd (some (event_of F reg index))).1,
            write_item F fds index (entry_of F reg),
            ground arith,
          )
        ]
    | inl unwanted ↦ elim (find_pfd_lem F fds reg.fd 0) [
      | inl (missing, absent) ↦ inr (pos 0, k, fds, ground (arith, missing))
      | inr (j, p, found, at, same) ↦ elim (Bool-cases (epoll.control k ctl_del reg.fd none).0) [
        | inr refused ↦ inl (ground (arith, found, at), ground arith)
        | inl ok ↦ inr (
          pos 0,
          (epoll.control k ctl_del reg.fd none).1,
          set fds j (record p { fd = negsuc 0 }),
          ground (arith, found, at),
        )
      ]
    ]
  ]

module _ (machine : Machine) where
  open machine use {platform, epoll}
  open platform.host.driver use {Kernel}

  -- Each stream that the registrations name is there.
  abbrev pub Present : State machine → List Watch → Type 0
  Present w [] = Unit
  Present w (watch ∷ rest) =
      ((st : DeviceStream) × (stream_at machine w watch.end ≡ some st)) × Present w rest

  stream_at-with :
      (w : State machine) (k : Kernel) (fds : List (PollinatorFd Func)) (part : Part)
      → node_at machine (record w { kernel = k; app = record w.app { fds = fds } }) part
        ≡ node_at machine w part
  stream_at-with w k fds camera = refl
  stream_at-with w k fds processor = refl
  stream_at-with w k fds encoder = refl
  stream_at-with w k fds gadget = refl

  Present-with :
      (w : State machine) (k : Kernel) (fds : List (PollinatorFd Func)) (ws : List Watch)
      → Present w ws
      → Present (record w { kernel = k; app = record w.app { fds = fds } }) ws
  Present-with w k fds [] present = tt
  Present-with w k fds (watch ∷ rest) ((st, at), present) = (
    (st, ap (λ node. side_of node watch.end.side) (stream_at-with w k fds watch.end.part) ∙ at),
    Present-with w k fds rest present,
  )

  -- The registration of a stream, and the state once the table is written.
  abbrev reg_of : DeviceStream → Watch → MonitorFd Func
  reg_of st watch = record {
    fd = pos st.dev_fd;
    event_bits = watch.event_bits;
    func = bit_set_func;
    arg1 = 0;
    arg2 = watch.arg2;
  }

  abbrev with_table : State machine → Kernel → List (PollinatorFd Func) → State machine
  with_table w k fds = record w { kernel = k; app = record w.app { fds = fds } }

  -- Epoll refuses one of the registrations, after it has accepted those before it.
  abbrev pub RefusesOne : State machine → List Watch → Type 0
  RefusesOne w [] = ⊥
  RefusesOne w (watch ∷ rest) =
      (st : DeviceStream) × (stream_at machine w watch.end ≡ some st)
      × (Refuses Func Kernel epoll w.kernel w.app.fds (reg_of st watch)
          ⊎ ((r : ℤ) × (k : Kernel) × (fds : List (PollinatorFd Func)) × (monitor_fd Func Kernel
                  epoll w.kernel w.app.fds (reg_of st watch)
                ≡ done (r, k, fds))
              × RefusesOne (with_table w k fds) rest))

  pub watch_all_cases :
      (ws : List Watch) (w : State machine)
      → Present w ws
      → ((watch_all machine w ws ≡ fault) × RefusesOne w ws)
        ⊎ ((k : Kernel) × (fds : List (PollinatorFd Func)) × (watch_all machine w ws
              ≡ done (record w { kernel = k; app = record w.app { fds = fds } })))
  unfolding watch_all
  watch_all_cases [] w present = inr (w.kernel, w.app.fds, refl)
  watch_all_cases (watch ∷ rest) w ((st, at), present) =
      elim (monitor_fd_cases Func Kernel epoll w.kernel w.app.fds (reg_of st watch)) [
        | inl (fails, refused) ↦ inl (ground (arith, at, fails), (st, at, inl refused))
        | inr (r, k, fds, runs) ↦
            elim (watch_all_cases rest (with_table w k fds) (Present-with w k fds rest present)) [
              | inl (fails, refused) ↦
                  inl (ground (arith, at, runs, fails), (st, at, inr (r, k, fds, runs, refused)))
              | inr (k', fds', later) ↦ inr (k', fds', ground (arith, at, runs, later))
            ]
      ]

  -- Whatever epoll answers, the registrations change the table alone.
  abbrev pub Watched : State machine → State machine → Type 0
  Watched w w' =
      (k : Kernel) × (fds : List (PollinatorFd Func)) × (w'
        ≡ record w { kernel = k; app = record w.app { fds = fds } })

  pub watch_all-Watched :
      (ws : List Watch) (w : State machine) → Yields (Watched w) (watch_all machine w ws)
  unfolding watch_all
  watch_all-Watched [] w = Yields-done (Watched w) w (w.kernel, w.app.fds, refl)
  watch_all-Watched (watch ∷ rest) w =
      Yields-bind (Watched w) (assert_some (stream_at machine w watch.end)) _ (λ st at.
        Yields-bind (Watched w)
          (monitor_fd Func Kernel epoll w.kernel w.app.fds (record {
            fd = pos st.dev_fd;
            event_bits = watch.event_bits;
            func = bit_set_func;
            arg1 = 0;
            arg2 = watch.arg2;
          }))
          _
          (λ (r, k, fds) runs.
            watch_all-Watched rest (record w { kernel = k; app = record w.app { fds = fds } })))
