-- ===== src/Pollinator.antt =====
-- pollinator.c: callbacks registered by file descriptor, over epoll.
pub mod Slots
pub mod Table
mod Tests
use malincam.Prelude.{
  ℕ, ℤ, pos, negsuc, is_negative, zero, suc, ◌+◌, Bool, true, false, not, ◌||◌, Option, none, some,
  List, [], ◌∷◌, ◌++◌, ◌==◌, if◌then◌else◌, length, get_elem?, set, has_bits,
}
use malincam.Prelude.Outcome.{Outcome, done, fault, out_of_fuel, assert, ◌>>=◌, ◌>>◌}
use malincam.Abi.{eintr}

abbrev pub same_int : ℤ → ℤ → Bool
same_int (pos a) (pos b) = a == b
same_int (negsuc a) (negsuc b) = a == b
same_int _ _ = false

-- POLLIN_FD_READ, POLLIN_FD_WRITE, POLLIN_FD_EXCEPT, POLLIN_FD_ERR
abbrev pub fd_read : ℕ
fd_read = 1

abbrev pub fd_write : ℕ
fd_write = 2

abbrev pub fd_except : ℕ
fd_except = 4

abbrev pub fd_err : ℕ
fd_err = 8

-- `struct epoll_event`: the index in `data.u32`, and a Boolean for each bit of `events` that is
-- used. EPOLLET is always asked for.
pub record EpollEvent : Type 0 where
  pub index : ℕ
  pub epollin : Bool
  pub epollout : Bool
  pub epollpri : Bool
  pub epollerr : Bool
  pub epollhup : Bool

pub data EpollOp : Type 0 where
  ctl_add ctl_mod ctl_del : EpollOp

abbrev pub is_above_zero : ℤ → Bool
is_above_zero (pos zero) = false
is_above_zero (pos (suc n)) = true
is_above_zero (negsuc n) = false

-- What the kernel answers: whether EPOLL_CTL succeeded, and for epoll_wait the events or an errno.
pub data Waited : Type 0 where
  events : List EpollEvent → Waited
  failed : ℕ → Waited

pub record Epoll (Kernel : Type 0) : Type 0 where
  pub control : Kernel → EpollOp → ℤ → Option EpollEvent → Bool × Kernel
  pub wait : Kernel → ℕ → Waited × Kernel
  pub create : Kernel → ℤ × Kernel
  pub close : Kernel → Kernel

module _ (Func : Type 0) where
  -- `PollinatorFd`; a negative `fd` marks a free slot.
  pub record PollinatorFd : Type 0 where
    pub fd : ℤ
    pub func : Func
    pub arg1 : ℕ
    pub arg2 : ℕ

  -- `PollinatorMonitorFd`
  pub record MonitorFd : Type 0 where
    pub fd : ℤ
    pub event_bits : ℕ
    pub func : Func
    pub arg1 : ℕ
    pub arg2 : ℕ

  -- `findPfd`, from index `i` on. The array `fds` is the list of its items.
  unfoldable pub find_pfd : List PollinatorFd → ℤ → ℕ → Option ℕ
  find_pfd [] fd i = none
  find_pfd (pfd ∷ rest) fd i =
      let later = find_pfd rest fd (i + 1) in if same_int pfd.fd fd then some i else later

  -- The loop of `allocPfd`, from index `i` on. Where none is free the array grows by one.
  unfoldable pub find_free : List PollinatorFd → ℕ → ℕ
  find_free [] i = i
  find_free (pfd ∷ rest) i =
      let later = find_free rest (i + 1) in if is_negative pfd.fd then i else later

  -- The write of an item, to a slot of the array or to the one that `arrayAppend` has just added.
  abbrev pub write_item : List PollinatorFd → ℕ → PollinatorFd → List PollinatorFd
  write_item [] i pfd = pfd ∷ []
  write_item (x ∷ xs) zero pfd = pfd ∷ xs
  write_item (x ∷ xs) (suc i) pfd = x ∷ write_item xs i pfd

  abbrev pub entry_of : MonitorFd → PollinatorFd
  entry_of reg = record { fd = reg.fd; func = reg.func; arg1 = reg.arg1; arg2 = reg.arg2 }

  -- `pollinatorMonitorFd`, a registration: the slot, and whether it is new to epoll.
  unfoldable pub slot_for : List PollinatorFd → MonitorFd → EpollOp × ℕ
  unfolding find_pfd find_free
  slot_for fds reg = elim (find_pfd fds reg.fd 0) [
    | some index ↦ (ctl_mod, index)
    | none ↦ (ctl_add, find_free fds 0)
  ]

  unfoldable pub event_of : MonitorFd → ℕ → EpollEvent
  event_of reg index = record {
    index = index;
    epollin = has_bits reg.event_bits fd_read;
    epollout = has_bits reg.event_bits fd_write;
    epollpri = has_bits reg.event_bits fd_except;
    epollerr = has_bits reg.event_bits fd_err;
    epollhup = false;
  }

  -- `pollinatorPoll`, the flags for a callback.
  unfoldable pub flags_of : EpollEvent → ℕ
  flags_of e =
      (if e.epollin then fd_read else 0)
      + (if e.epollout then fd_write else 0)
      + (if e.epollpri then fd_except else 0)
      + (if e.epollerr || e.epollhup then fd_err else 0)

  module _ (Kernel : Type 0) (epoll : Epoll Kernel) where
    -- `pollinatorCreate`: an empty table, and a descriptor above 0.
    unfoldable pub pollinator_create : Kernel → Outcome (List PollinatorFd × Kernel)
    pollinator_create k =
        let (fd, k') = epoll.create k in assert (is_above_zero fd) >> done ([], k')

    -- `pollinatorDestroy`
    unfoldable pub pollinator_destroy : Kernel → Option (List PollinatorFd) → Kernel
    pollinator_destroy k none = k
    pollinator_destroy k (some fds) = epoll.close k

    -- `pollinatorMonitorFd`
    unfoldable pub monitor_fd :
        Kernel → List PollinatorFd → MonitorFd → Outcome (ℤ × Kernel × List PollinatorFd)
    unfolding slot_for event_of find_pfd
    monitor_fd k fds reg =
        if reg.event_bits == 0
        then elim (find_pfd fds reg.fd 0) [
          | none ↦ done (pos 0, k, fds)
          | some index ↦ elim (get_elem? fds index) [
            | none ↦ fault
            | some pfd ↦
                let (ok, k') = epoll.control k ctl_del reg.fd none in
                assert ok >> done (pos 0, k', set fds index (record pfd { fd = negsuc 0 }))
          ]
        ]
        else (let (op, index) = slot_for fds reg in
            let (ok, k') = epoll.control k op reg.fd (some (event_of reg index)) in
            assert ok >> done (pos 0, k', write_item fds index (entry_of reg)))

    module _ (App : Type 0) (call : Func → ℤ → ℕ → ℕ → ℕ → App → ℤ × App) where
      -- `pollinatorPoll`, what a callback's value does to the result: POLLINATOR_CONTINUE and
      -- POLLINATOR_STOP leave it.
      abbrev pub fold_result : ℤ → ℤ → ℤ
      fold_result result (pos zero) = result
      fold_result result (pos (suc zero)) = result
      fold_result result (pos (suc (suc n))) = pos (suc (suc n))
      fold_result result (negsuc n) = negsuc n

      -- `pollinatorPoll`, the loop over the events.
      unfoldable pub dispatch_events :
          List PollinatorFd → List EpollEvent → ℤ → App → Outcome (ℤ × App)
      unfolding flags_of
      dispatch_events fds [] result app = done (result, app)
      dispatch_events fds (e ∷ es) result app = elim (get_elem? fds e.index) [
        | none ↦ fault
        | some pfd ↦ elim (flags_of e == 0) [
          | true ↦ dispatch_events fds es result app
          | false ↦
              let (value, app') = call pfd.func pfd.fd (flags_of e) pfd.arg1 pfd.arg2 app in
              dispatch_events fds es (fold_result result value) app'
        ]
      ]

      -- `pollinatorPoll`: a wait that a signal interrupts is made again, at a unit of fuel.
      unfoldable pub poll : ℕ → Kernel → List PollinatorFd → ℕ → App → Outcome (ℤ × Kernel × App)
      unfolding dispatch_events
      poll zero k fds timeout app = out_of_fuel
      poll (suc fuel) k fds timeout app =
          let (waited, k') = epoll.wait k timeout in
          elim waited [
            | events es ↦ do
              (result, app') ← dispatch_events fds es (pos 0) app
              done (result, k', app')
            | failed errno ↦ elim (errno == eintr) [
              | true ↦ poll fuel k' fds timeout app
              | false ↦ done (negsuc 0, k', app)
            ]
          ]
