-- ===== src/Pollinator/Tests.antt =====
-- The table of descriptors at concrete inputs.
use malincam.Prelude.{
  ℕ, ℤ, pos, negsuc, is_negative, zero, suc, ◌≡◌, ◌≢◌, refl, true, false, none, some, List, [], ◌∷◌,
  arith, get_elem?,
}
use malincam.Prelude.Outcome.{done}
use malincam.Pollinator.{events, Epoll, PollinatorFd, MonitorFd, find_pfd, entry_of, monitor_fd}
use malincam.Pollinator.Table.{IsTable, monitor_fd-registers, monitor_fd-removes}

abbrev willing : Epoll ℕ
willing = record {
  control = λ k op fd e. (true, k);
  wait = λ k timeout. (events [], k);
  create = λ k. (pos 3, k);
  close = λ k. k;
}

abbrev slot : ℤ → ℕ → PollinatorFd ℕ
slot fd func = record { fd = fd; func = func; arg1 = 0; arg2 = 0 }

-- A used slot, a free one, and another used one.
abbrev table : List (PollinatorFd ℕ)
table = slot (pos 3) 30 ∷ slot (negsuc 0) 40 ∷ slot (pos 5) 50 ∷ []

table-IsTable : IsTable ℕ table
table-IsTable zero zero p q at_p at_q live same = refl
table-IsTable zero (suc zero) p q at_p at_q live same = absurd (ground arith)
table-IsTable zero (suc (suc zero)) p q at_p at_q live same = absurd (ground arith)
table-IsTable (suc zero) j p q at_p at_q live same = absurd (ground arith)
table-IsTable (suc (suc zero)) zero p q at_p at_q live same = absurd (ground arith)
table-IsTable (suc (suc zero)) (suc zero) p q at_p at_q live same = absurd (ground arith)
table-IsTable (suc (suc zero)) (suc (suc zero)) p q at_p at_q live same = refl
table-IsTable (suc (suc (suc i))) j p q at_p at_q live same = absurd (ground arith)
table-IsTable zero (suc (suc (suc j))) p q at_p at_q live same = absurd (ground arith)
table-IsTable (suc (suc zero)) (suc (suc (suc j))) p q at_p at_q live same = absurd (ground arith)

abbrev wanted : MonitorFd ℕ
wanted = record { fd = pos 7; event_bits = 1; func = 70; arg1 = 0; arg2 = 0 }

abbrev unwanted : MonitorFd ℕ
unwanted = record { fd = pos 3; event_bits = 0; func = 0; arg1 = 0; arg2 = 0 }

one-ne-zero : wanted.event_bits ≢ 0
one-ne-zero h = omega arith

monitor_fd-registers_example :
    (k' : ℕ) × (fds' : List (PollinatorFd ℕ)) × (j : ℕ) × (monitor_fd ℕ ℕ willing 0 table wanted
      ≡ done (pos 0, k', fds'))
    × IsTable ℕ fds'
    × (find_pfd ℕ fds' (pos 7) 0 ≡ some j)
    × (get_elem? fds' j ≡ some (entry_of ℕ wanted))
    × ((i : ℕ) (p : PollinatorFd ℕ)
        → get_elem? table i ≡ some p
        → is_negative p.fd ≡ false
        → p.fd ≢ pos 7
        → get_elem? fds' i ≡ some p)
monitor_fd-registers_example =
    monitor_fd-registers ℕ ℕ willing 0 table wanted table-IsTable refl one-ne-zero
      (λ op j due. refl)

monitor_fd-removes_example :
    (k' : ℕ) × (fds' : List (PollinatorFd ℕ)) × (monitor_fd ℕ ℕ willing 0 table unwanted
      ≡ done (pos 0, k', fds'))
    × IsTable ℕ fds'
    × (find_pfd ℕ fds' (pos 3) 0 ≡ none)
    × ((i : ℕ) (p : PollinatorFd ℕ)
        → get_elem? table i ≡ some p
        → p.fd ≢ pos 3
        → get_elem? fds' i ≡ some p)
monitor_fd-removes_example =
    monitor_fd-removes ℕ ℕ willing 0 table unwanted table-IsTable refl refl refl
