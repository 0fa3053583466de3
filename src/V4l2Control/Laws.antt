-- ===== src/V4l2Control/Laws.antt =====
-- What v4l2ControlSetById does to the controls.
use malincam.Prelude.{
  ℕ, ℤ, pos, minus, zero, suc, ◌+◌, ◌≡◌, ◌≢◌, refl, none, some, List, [], ◌∷◌, ◌==◌, arith,
  get_elem?, set, ◌⊎◌, inl, inr, get_elem?-set, get_elem?-set_ne, lt_of_get_elem?, Option-cases,
  Bool-cases,
}
use malincam.Prelude.Outcome.{done}
use malincam.Abi.{enoent, eperm}
use malincam.Device.Driver.{success, error, Reply-cases}
use malincam.V4l2Control.{
  V4l2Control, V4l2Controls, ControlDriver, ExtValue, find_control, control_get, ext_value,
  control_set, control_set_by_id,
}

none_in_cons :
    (c : V4l2Control) (rest : List V4l2Control) (ctrl : ℕ)
    → c.query.id ≢ ctrl
    → ((j : ℕ) (d : V4l2Control) → get_elem? rest j ≡ some d → d.query.id ≢ ctrl)
    → (j : ℕ) (d : V4l2Control) → get_elem? (c ∷ rest) j ≡ some d
    → d.query.id ≢ ctrl
none_in_cons c rest ctrl ne none_has zero d at = ground arith
none_in_cons c rest ctrl ne none_has (suc j) d at = none_has j d at

-- The first control with the id, or none has it.
pub find_control_lem :
    (controls : List V4l2Control) (ctrl i : ℕ)
    → ((find_control controls ctrl i ≡ none)
        × ((j : ℕ) (c : V4l2Control) → get_elem? controls j ≡ some c → c.query.id ≢ ctrl))
      ⊎ ((j : ℕ) × (c : V4l2Control) × (find_control controls ctrl i ≡ some (i + j))
          × (get_elem? controls j ≡ some c)
          × (c.query.id ≡ ctrl))
unfolding find_control
find_control_lem [] ctrl i = inl (refl, λ j c h. absurd (cc))
find_control_lem (c ∷ rest) ctrl i = elim (Bool-cases (c.query.id == ctrl)) [
  | inl here ↦ inr (0, c, ground arith, refl, ground arith)
  | inr other ↦ elim (find_control_lem rest ctrl (i + 1)) [
    | inl (missing, none_has) ↦
        inl (ground (arith, missing), none_in_cons c rest ctrl (ground arith) none_has)
    | inr (j, d, found, at, same) ↦ inr (suc j, d, ground arith, at, same)
  ]
]

module _ (Kernel : Type 0) (driver : ControlDriver Kernel) where
  open driver use {set_control}

  -- `v4l2ControlSetById` always returns. With no control of the id it returns -ENOENT, with a
  -- control of an unsupported type -EPERM, and it asks nothing of the kernel. Otherwise it asks the
  -- kernel to set the control once: where that fails it returns minus the errno and changes no
  -- control; where it succeeds it returns 0, the control keeps the value that was asked for, and no
  -- other changes.
  pub control_set_by_id_lem :
      (k : Kernel) (controls : V4l2Controls) (id : ℕ) (value : ℤ)
      → ((control_set_by_id Kernel driver k controls id value ≡ done (minus enoent, k, controls))
          × ((j : ℕ) (c : V4l2Control) → get_elem? controls.controls j ≡ some c → c.query.id ≢ id))
        ⊎ ((j : ℕ) × (c : V4l2Control) × (get_elem? controls.controls j ≡ some c)
            × (c.query.id ≡ id)
            × ((ext_value c.query.ctrl_type value ≡ none)
                  × (control_set_by_id Kernel driver k controls id value
                      ≡ done (minus eperm, k, controls))
                ⊎ ((val : ExtValue) × (errno : ℕ) × (k' : Kernel) × (ext_value c.query.ctrl_type
                        value
                      ≡ some val)
                    × (set_control k controls.fd id val ≡ (error errno, k'))
                    × (control_set_by_id Kernel driver k controls id value
                        ≡ done (minus errno, k', controls)))
                ⊎ ((val : ExtValue) × (k' : Kernel) × (after : List V4l2Control) × (ext_value
                        c.query.ctrl_type value
                      ≡ some val)
                    × (set_control k controls.fd id val ≡ (success tt, k'))
                    × (control_set_by_id Kernel driver k controls id value
                        ≡ done (pos 0, k', record controls { controls = after }))
                    × (get_elem? after j ≡ some (record c { value = value }))
                    × ((i : ℕ) → j ≢ i → get_elem? after i ≡ get_elem? controls.controls i))))
  unfolding control_set_by_id control_set control_get
  control_set_by_id_lem k controls id value = elim (find_control_lem controls.controls id 0) [
    | inl (missing, none_has) ↦ inl (ground (arith, missing), none_has)
    | inr (j, c, found, at, same) ↦ inr (
      j,
      c,
      at,
      same,
      elim (Option-cases (ext_value c.query.ctrl_type value)) [
        | inl unsupported ↦ inl (unsupported, ground arith)
        | inr (val, supported) ↦ elim (Reply-cases (set_control k controls.fd c.query.id val).0) [
          | inl (errno, failed) ↦
              inr (
                inl (val, errno, (set_control k controls.fd id val).1, supported, cc, ground arith))
          | inr (u, ok) ↦ inr (
              inr (
                val,
                (set_control k controls.fd id val).1,
                set controls.controls j (record c { value = value }),
                supported,
                cc,
                ground arith,
                get_elem?-set controls.controls j (record c { value = value })
                    (lt_of_get_elem? controls.controls j at),
                λ i ne. get_elem?-set_ne controls.controls (record c { value = value }) ne,
              ))
        ]
      ],
    )
  ]
