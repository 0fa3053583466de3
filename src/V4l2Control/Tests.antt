-- ===== src/V4l2Control/Tests.antt =====
-- The controls at concrete inputs.
use malincam.Prelude.{ℕ, pos, minus, ◌≡◌, ◌≢◌, none, some, List, [], ◌∷◌, get_elem?, ◌⊎◌}
use malincam.Prelude.Outcome.{done}
use malincam.Abi.{enoent, eperm}
use malincam.Device.Driver.{success, error}
use malincam.V4l2Control.{
  CtrlType, integer, other, ExtValue, V4l2Control, V4l2Controls, ControlDriver, ext_value,
  control_set_by_id,
}
use malincam.V4l2Control.Laws.{control_set_by_id_lem}

abbrev control : ℕ → CtrlType → V4l2Control
control id t = record {
  query = record {
    id = id;
    ctrl_type = t;
    minimum = pos 0;
    maximum = pos 9;
    default_value = pos 0;
    flags = 0;
  };
  value = pos 0;
}

abbrev controls : V4l2Controls
controls = record { fd = 3; controls = control 10 other ∷ control 11 integer ∷ [] }

abbrev agreeable : ControlDriver ℕ
agreeable = record {
  query_control = λ k fd id. (error 22, k);
  query_menu = λ k fd id j. (error 22, k);
  get_control = λ k fd id. (error 22, k);
  set_control = λ k fd id v. (success tt, k);
}

control_set_by_id_lem_example :
    ((control_set_by_id ℕ agreeable 0 controls 11 (pos 5) ≡ done (minus enoent, 0, controls))
      × ((j : ℕ) (c : V4l2Control) → get_elem? controls.controls j ≡ some c → c.query.id ≢ 11))
    ⊎ ((j : ℕ) × (c : V4l2Control) × (get_elem? controls.controls j ≡ some c)
        × (c.query.id ≡ 11)
        × ((ext_value c.query.ctrl_type (pos 5) ≡ none)
              × (control_set_by_id ℕ agreeable 0 controls 11 (pos 5)
                  ≡ done (minus eperm, 0, controls))
            ⊎ ((val : ExtValue) × (errno : ℕ) × (k' : ℕ) × (ext_value c.query.ctrl_type (pos 5)
                  ≡ some val)
                × (agreeable.set_control 0 3 11 val ≡ (error errno, k'))
                × (control_set_by_id ℕ agreeable 0 controls 11 (pos 5)
                    ≡ done (minus errno, k', controls)))
            ⊎ ((val : ExtValue) × (k' : ℕ) × (after : List V4l2Control) × (ext_value
                    c.query.ctrl_type
                    (pos 5)
                  ≡ some val)
                × (agreeable.set_control 0 3 11 val ≡ (success tt, k'))
                × (control_set_by_id ℕ agreeable 0 controls 11 (pos 5)
                    ≡ done (pos 0, k', record controls { controls = after }))
                × (get_elem? after j ≡ some (record c { value = pos 5 }))
                × ((i : ℕ) → j ≢ i → get_elem? after i ≡ get_elem? controls.controls i))))
control_set_by_id_lem_example = control_set_by_id_lem ℕ agreeable 0 controls 11 (pos 5)
