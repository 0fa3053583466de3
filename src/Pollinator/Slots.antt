-- ===== src/Pollinator/Slots.antt =====
-- The slots of pollinator.c's table: looking one up, finding a free one, writing one.
use malincam.Prelude.{
  ℕ, ℤ, pos, negsuc, is_negative, zero, suc, ◌+◌, ◌≡◌, ◌≢◌, ◌≤◌, refl, ap, true, none, some, List,
  [], ◌∷◌, arith, length, get_elem?, ◌⊎◌, inl, inr, Bool-cases,
}
use malincam.Pollinator.{same_int, PollinatorFd, find_pfd, find_free, write_item}

same_int-eq : (a b : ℤ) → same_int a b ≡ true → a ≡ b
same_int-eq (pos a) (pos b) h = ap pos (ground arith)
same_int-eq (negsuc a) (negsuc b) h = ap negsuc (ground arith)
same_int-eq (pos a) (negsuc b) h = absurd (ground arith)
same_int-eq (negsuc a) (pos b) h = absurd (ground arith)

same_int_refl : (a : ℤ) → same_int a a ≡ true
same_int_refl (pos a) = ground arith
same_int_refl (negsuc a) = ground arith

module _ (Func : Type 0) where
  -- No slot has the descriptor.
  abbrev pub Absent : List (PollinatorFd Func) → ℤ → Type 0
  Absent fds fd = (j : ℕ) (p : PollinatorFd Func) → get_elem? fds j ≡ some p → p.fd ≢ fd

  Absent-cons :
      (x : PollinatorFd Func) (xs : List (PollinatorFd Func)) (fd : ℤ)
      → x.fd ≢ fd
      → Absent xs fd
      → Absent (x ∷ xs) fd
  Absent-cons x xs fd ne absent zero p at same = ne (cc)
  Absent-cons x xs fd ne absent (suc j) p at same = absent j p at same

  pub find_pfd_lem :
      (fds : List (PollinatorFd Func)) (fd : ℤ) (i : ℕ)
      → ((find_pfd Func fds fd i ≡ none) × Absent fds fd)
        ⊎ ((j : ℕ) × (p : PollinatorFd Func) × (find_pfd Func fds fd i ≡ some (i + j))
            × (get_elem? fds j ≡ some p)
            × (p.fd ≡ fd))
  unfolding find_pfd
  find_pfd_lem [] fd i = inl (refl, λ j p at. absurd (cc))
  find_pfd_lem (x ∷ xs) fd i = elim (Bool-cases (same_int x.fd fd)) [
    | inl here ↦ inr (0, x, ground arith, refl, same_int-eq x.fd fd here)
    | inr other ↦
        let ne : x.fd ≢ fd =
          λ same. absurd (ground (arith, same_int_refl fd, ap (λ z. same_int z fd) same)) in
        elim (find_pfd_lem xs fd (i + 1)) [
          | inl (missing, absent) ↦ inl (ground (arith, missing), Absent-cons x xs fd ne absent)
          | inr (j, p, found, at, same) ↦ inr (suc j, p, ground arith, at, same)
        ]
  ]

  pub find_free_lem :
      (fds : List (PollinatorFd Func)) (i : ℕ)
      → (find_free Func fds i ≡ i + length fds)
        ⊎ ((j : ℕ) × (p : PollinatorFd Func) × (find_free Func fds i ≡ i + j)
            × (get_elem? fds j ≡ some p)
            × (is_negative p.fd ≡ true))
  unfolding find_free
  find_free_lem [] i = inl (omega arith)
  find_free_lem (x ∷ xs) i = elim (Bool-cases (is_negative x.fd)) [
    | inl free ↦ inr (0, x, ground arith, refl, free)
    | inr used ↦ elim (find_free_lem xs (i + 1)) [
      | inl full ↦ inl (ground (arith, full))
      | inr (j, p, found, at, free) ↦ inr (suc j, p, ground arith, at, free)
    ]
  ]

  pub get_elem?-write_item :
      (fds : List (PollinatorFd Func)) (j : ℕ) (e : PollinatorFd Func)
      → j ≤ length fds
      → get_elem? (write_item Func fds j e) j ≡ some e
  get_elem?-write_item [] zero e h = refl
  get_elem?-write_item [] (suc j) e h = absurd (omega arith)
  get_elem?-write_item (x ∷ xs) zero e h = refl
  get_elem?-write_item (x ∷ xs) (suc j) e h = get_elem?-write_item xs j e (omega arith)

  pub get_elem?-write_item_ne :
      (fds : List (PollinatorFd Func)) {i j : ℕ} (e : PollinatorFd Func)
      → i ≤ length fds
      → i ≢ j
      → get_elem? (write_item Func fds i e) j ≡ get_elem? fds j
  get_elem?-write_item_ne [] {i = zero} {j = zero} e h ne = absurd (ne refl)
  get_elem?-write_item_ne [] {i = zero} {j = suc j} e h ne = refl
  get_elem?-write_item_ne [] {i = suc i} e h ne = absurd (omega arith)
  get_elem?-write_item_ne (x ∷ xs) {i = zero} {j = zero} e h ne = absurd (ne refl)
  get_elem?-write_item_ne (x ∷ xs) {i = zero} {j = suc j} e h ne = refl
  get_elem?-write_item_ne (x ∷ xs) {i = suc i} {j = zero} e h ne = refl
  get_elem?-write_item_ne (x ∷ xs) {i = suc i} {j = suc j} e h ne =
      get_elem?-write_item_ne xs e (omega arith) (λ q. ne (ap suc q))
