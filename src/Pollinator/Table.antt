-- ===== src/Pollinator/Table.antt =====
-- The table of pollinator.c: what registering and removing a descriptor does to its slots.
use malincam.Prelude.{
  ℕ, ℤ, pos, negsuc, is_negative, ◌+◌, ◌≡◌, ◌≢◌, ◌≤◌, refl, sym, ap, ◌∙◌, true, false, none, some,
  List, arith, length, get_elem?, set, inl, inr, get_elem?-set, get_elem?-set_ne, lt_of_get_elem?,
}
use native.Mathlib.Decide.{ℕ_discrete}
use malincam.Prelude.Outcome.{done}
use malincam.Pollinator.{
  EpollOp, ctl_add, ctl_mod, ctl_del, Epoll, PollinatorFd, MonitorFd, find_pfd, write_item,
  entry_of, slot_for, event_of, monitor_fd,
}
use malincam.Pollinator.Slots.{
  find_pfd_lem, find_free_lem, get_elem?-write_item, get_elem?-write_item_ne,
}

module _ (Func : Type 0) where
  -- No descriptor has two slots; the slots with a negative one are free.
  abbrev pub IsTable : List (PollinatorFd Func) → Type 0
  IsTable fds =
      (i j : ℕ) (p q : PollinatorFd Func)
      → get_elem? fds i ≡ some p
      → get_elem? fds j ≡ some q
      → is_negative p.fd ≡ false
      → p.fd ≡ q.fd
      → i ≡ j

  -- `fds'` is `fds` but for slot `j`, which holds `e`.
  record Written (fds fds' : List (PollinatorFd Func)) (j : ℕ) (e : PollinatorFd Func)
      : Type 0 where
    pub here : get_elem? fds' j ≡ some e
    pub there : (i : ℕ) → j ≢ i → get_elem? fds' i ≡ get_elem? fds i

  -- No slot but `j` has the descriptor.
  abbrev Elsewhere : List (PollinatorFd Func) → ℤ → ℕ → Type 0
  Elsewhere fds fd j =
      (i : ℕ) (p : PollinatorFd Func) → get_elem? fds i ≡ some p → j ≢ i → p.fd ≢ fd

  Written-IsTable :
      (fds fds' : List (PollinatorFd Func)) (j : ℕ) (e : PollinatorFd Func)
      → IsTable fds
      → Written fds fds' j e
      → Elsewhere fds e.fd j
      → IsTable fds'
  Written-IsTable fds fds' j e table written others a b p q at_a at_b live same =
      elim (ℕ_discrete j a) [
        | yes ja ↦ elim (ℕ_discrete j b) [
          | yes jb ↦ omega arith
          | no nb ↦
              let was : get_elem? fds b ≡ some q = sym (written.there b nb) ∙ at_b in
              let e_at : p ≡ e = ground (arith, written.here) in
              absurd (others b q was nb (sym same ∙ ap (λ z. z.fd) e_at))
        ]
        | no na ↦
            let was_a : get_elem? fds a ≡ some p = sym (written.there a na) ∙ at_a in
            elim (ℕ_discrete j b) [
              | yes jb ↦
                  let e_at : q ≡ e = ground (arith, written.here) in
                  absurd (others a p was_a na (same ∙ ap (λ z. z.fd) e_at))
              | no nb ↦ table a b p q was_a (sym (written.there b nb) ∙ at_b) live same
            ]
      ]

  find-Written :
      (fds fds' : List (PollinatorFd Func)) (j : ℕ) (e : PollinatorFd Func)
      → Written fds fds' j e
      → is_negative e.fd ≡ false
      → IsTable fds'
      → find_pfd Func fds' e.fd 0 ≡ some j
  find-Written fds fds' j e written live table = elim (find_pfd_lem Func fds' e.fd 0) [
    | inl (missing, absent) ↦ absurd (absent j e written.here refl)
    | inr (i, p, found, at, same) ↦
        found ∙ ap some (omega (arith, table j i e p written.here at live (sym same)))
  ]

  Freed-IsTable :
      (fds fds' : List (PollinatorFd Func)) (j : ℕ) (e : PollinatorFd Func)
      → IsTable fds
      → Written fds fds' j e
      → is_negative e.fd ≡ true
      → IsTable fds'
  Freed-IsTable fds fds' j e table written free a b p q at_a at_b live same =
      elim (ℕ_discrete j a) [
        | yes ja ↦
            let e_at : p ≡ e = ground (arith, written.here) in
            absurd (ground (arith, ap (λ z. is_negative z.fd) e_at))
        | no na ↦ elim (ℕ_discrete j b) [
          | yes jb ↦
              let e_at : q ≡ e = ground (arith, written.here) in
              absurd (ground (arith, ap (λ z. is_negative z.fd) e_at, ap is_negative same))
          | no nb ↦
              table a b p q (sym (written.there a na) ∙ at_a) (sym (written.there b nb) ∙ at_b) live
                same
        ]
      ]

  find-Freed :
      (fds fds' : List (PollinatorFd Func)) (j : ℕ) (e : PollinatorFd Func) (fd : ℤ)
      → Written fds fds' j e
      → is_negative e.fd ≡ true
      → is_negative fd ≡ false
      → ((i : ℕ) (q : PollinatorFd Func) → get_elem? fds i ≡ some q → q.fd ≡ fd → j ≡ i)
      → find_pfd Func fds' fd 0 ≡ none
  find-Freed fds fds' j e fd written free live only = elim (find_pfd_lem Func fds' fd 0) [
    | inl (missing, absent) ↦ missing
    | inr (i, q, found, at, same) ↦ elim (ℕ_discrete j i) [
      | yes ji ↦
          let e_at : q ≡ e = ground (arith, written.here) in
          absurd (ground (arith, ap (λ z. is_negative z.fd) e_at, ap is_negative same))
      | no ne ↦ absurd (ne (only i q (sym (written.there i ne) ∙ at) same))
    ]
  ]

  -- The operation that epoll_ctl(2) asks for: MOD for a descriptor of the table, else ADD.
  abbrev pub IsOpFor : List (PollinatorFd Func) → ℤ → EpollOp → Type 0
  IsOpFor fds fd ctl_add = find_pfd Func fds fd 0 ≡ none
  IsOpFor fds fd ctl_mod = (i : ℕ) × (find_pfd Func fds fd 0 ≡ some i)
  IsOpFor fds fd ctl_del = ⊥

  -- The slot of a registration can be written, and no other has its descriptor.
  slot_for_lem :
      (fds : List (PollinatorFd Func)) (reg : MonitorFd Func)
      → IsTable fds
      → is_negative reg.fd ≡ false
      → (op : EpollOp) × (j : ℕ) × (slot_for Func fds reg ≡ (op, j))
        × IsOpFor fds reg.fd op
        × (j ≤ length fds)
        × Elsewhere fds reg.fd j
        × ((i : ℕ) (p : PollinatorFd Func)
            → get_elem? fds i ≡ some p
            → is_negative p.fd ≡ false
            → p.fd ≢ reg.fd
            → j ≢ i)
  unfolding slot_for
  slot_for_lem fds reg table live = elim (find_pfd_lem Func fds reg.fd 0) [
    | inl (missing, absent) ↦ elim (find_free_lem Func fds 0) [
      | inl full ↦ (
        ctl_add,
        length fds,
        ground (arith, missing, full),
        missing,
        omega arith,
        λ i p at ne. absent i p at,
        λ i p at held other e. absurd (omega (arith, lt_of_get_elem? fds i at)),
      )
      | inr (j, p, found, at, free) ↦ (
        ctl_add,
        j,
        ground (arith, missing, found),
        missing,
        omega (arith, lt_of_get_elem? fds j at),
        λ i q at' ne. absent i q at',
        λ i q at' held other e. absurd (ground arith),
      )
    ]
    | inr (j, p, found, at, same) ↦ (
      ctl_mod,
      j,
      ground (arith, found),
      (0 + j, found),
      omega (arith, lt_of_get_elem? fds j at),
      λ i q at' ne here. ne (table j i p q at at' (ap is_negative same ∙ live) (same ∙ sym here)),
      λ i q at' held other e. absurd (other (ap (λ z. z.fd) {x = q} {y = p} (ground arith) ∙ same)),
    )
  ]

  module _ (Kernel : Type 0) (epoll : Epoll Kernel) where
    -- Registering a descriptor, if epoll accepts the one call that is due, EPOLL_CTL_MOD where the
    -- table has the descriptor and else EPOLL_CTL_ADD, gives 0; the table still has one slot at
    -- most for each descriptor, `findPfd` finds the new entry, which is the last one registered for
    -- that descriptor, and the entry of every other descriptor stays where it is.
    pub monitor_fd-registers :
        (k : Kernel) (fds : List (PollinatorFd Func)) (reg : MonitorFd Func)
        → IsTable fds
        → is_negative reg.fd ≡ false
        → reg.event_bits ≢ 0
        → ((op : EpollOp) (j : ℕ)
            → IsOpFor fds reg.fd op
            → (epoll.control k op reg.fd (some (event_of Func reg j))).0 ≡ true)
        → (k' : Kernel) × (fds' : List (PollinatorFd Func)) × (j : ℕ) × (monitor_fd Func Kernel
              epoll k fds reg
            ≡ done (pos 0, k', fds'))
          × IsTable fds'
          × (find_pfd Func fds' reg.fd 0 ≡ some j)
          × (get_elem? fds' j ≡ some (entry_of Func reg))
          × ((i : ℕ) (p : PollinatorFd Func)
              → get_elem? fds i ≡ some p
              → is_negative p.fd ≡ false
              → p.fd ≢ reg.fd
              → get_elem? fds' i ≡ some p)
    unfolding monitor_fd
    monitor_fd-registers k fds reg table live wanted accepts =
        let (op, j, slot, due, inside, others, apart) = slot_for_lem fds reg table live in
        let fds' = write_item Func fds j (entry_of Func reg) in
        let written : Written fds fds' j (entry_of Func reg) = record {
          here = get_elem?-write_item Func fds j (entry_of Func reg) inside;
          there = λ i ne.
              get_elem?-write_item_ne Func fds {i = j} {j = i} (entry_of Func reg) inside ne;
        } in
        let table' = Written-IsTable fds fds' j (entry_of Func reg) table written others in
        (
          (epoll.control k op reg.fd (some (event_of Func reg j))).1,
          fds',
          j,
          ground (arith, slot, accepts op j due),
          table',
          find-Written fds fds' j (entry_of Func reg) written live table',
          written.here,
          λ i p at held other. written.there i (apart i p at held other) ∙ at,
        )

    -- Removing a descriptor, if epoll accepts it, gives 0, with or without a slot for it; `findPfd`
    -- finds it no more, the table still has one slot at most for each descriptor, and the entry of
    -- every other descriptor stays where it is.
    pub monitor_fd-removes :
        (k : Kernel) (fds : List (PollinatorFd Func)) (reg : MonitorFd Func)
        → IsTable fds
        → is_negative reg.fd ≡ false
        → reg.event_bits ≡ 0
        → (epoll.control k ctl_del reg.fd none).0 ≡ true
        → (k' : Kernel) × (fds' : List (PollinatorFd Func)) × (monitor_fd Func Kernel epoll k fds
              reg
            ≡ done (pos 0, k', fds'))
          × IsTable fds'
          × (find_pfd Func fds' reg.fd 0 ≡ none)
          × ((i : ℕ) (p : PollinatorFd Func)
              → get_elem? fds i ≡ some p
              → p.fd ≢ reg.fd
              → get_elem? fds' i ≡ some p)
    unfolding monitor_fd
    monitor_fd-removes k fds reg table live none_wanted accepts =
        elim (find_pfd_lem Func fds reg.fd 0) [
          | inl (missing, absent) ↦ (k, fds, ground arith, table, missing, λ i p at other. at)
          | inr (j, p, found, at, same) ↦
              let free = record p { fd = negsuc 0 } in
              let fds' = set fds j free in
              let written : Written fds fds' j free = record {
                here = get_elem?-set fds j free (lt_of_get_elem? fds j at);
                there = λ i ne. get_elem?-set_ne fds free ne;
              } in
              (
                (epoll.control k ctl_del reg.fd none).1,
                fds',
                ground (arith, found, at),
                Freed-IsTable fds fds' j free table written refl,
                find-Freed fds fds' j free reg.fd written refl live (λ i q at' same'.
                    table j i p q at at' (ap is_negative same ∙ live) (same ∙ sym same')),
                λ i q at' other.
                    written.there i
                      (λ e. other (ap (λ z. z.fd) {x = q} {y = p} (ground arith) ∙ same))
                    ∙ at',
              )
        ]
