-- ===== src/V4l2Control.antt =====
-- V4l2Control.c: the controls of a device, by id.
pub mod Laws
mod Tests
use malincam.Prelude.{
  ℕ, ℤ, pos, negsuc, minus, zero, suc, ◌+◌, ◌-◌, ◌%◌, ◌^◌, bit_or, Bool, true, false, not, ◌&&◌,
  Option, none, some, List, [], ◌∷◌, ltb, ◌==◌, if◌then◌else◌, get_elem?, set, has_bits, take,
}
use malincam.Prelude.Outcome.{Outcome, done, fault, out_of_fuel, ◌>>=◌}
use malincam.Abi.{enoent, einval, eperm}
use malincam.Array
use malincam.Array.{Array, Block, null, live, freed}
use malincam.Device.Driver.{Reply, success, error}

-- `enum v4l2_ctrl_type`; `other` is one that the program does not tell apart.
pub data CtrlType : Type 0 where
  integer integer64 integer_menu boolean menu other : CtrlType

-- `struct v4l2_query_ext_ctrl`, with the fields that are read for more than a log.
pub record Query : Type 0 where
  pub id : ℕ
  pub ctrl_type : CtrlType
  pub minimum : ℤ
  pub maximum : ℤ
  pub default_value : ℤ
  pub flags : ℕ

-- The member of the union of `struct v4l2_ext_control` that is filled in.
pub data ExtValue : Type 0 where
  value64 : ℤ → ExtValue
  value32 : ℤ → ExtValue

-- V4L2_CTRL_FLAG_WRITE_ONLY, V4L2_CTRL_FLAG_HAS_PAYLOAD, and the two NEXT flags together
abbrev pub write_only : ℕ
write_only = 0x40

abbrev pub has_payload : ℕ
has_payload = 0x100

abbrev pub next_flags : ℕ
next_flags = 0xc0000000

-- `V4l2Control`
pub record V4l2Control : Type 0 where
  pub query : Query
  pub value : ℤ

-- `V4l2Controls`; the array is the list of its items.
pub record V4l2Controls : Type 0 where
  pub fd : ℕ
  pub controls : List V4l2Control

-- What is asked of the kernel: VIDIOC_QUERY_EXT_CTRL for the control behind an id,
-- VIDIOC_G_EXT_CTRLS for the two members of the union as it fills them in, VIDIOC_S_EXT_CTRLS, and
-- VIDIOC_QUERYMENU by id and index.
pub record ControlDriver (Kernel : Type 0) : Type 0 where
  pub query_control : Kernel → ℕ → ℕ → Reply Query × Kernel
  pub get_control : Kernel → ℕ → ℕ → Reply (ℤ × ℤ) × Kernel
  pub query_menu : Kernel → ℕ → ℕ → ℤ → Reply (Unit {0}) × Kernel
  pub set_control : Kernel → ℕ → ℕ → ExtValue → Reply (Unit {0}) × Kernel

-- The conversion of an `int64_t` to the `__s32` of the union.
unfoldable pub to_s32 : ℤ → ℤ
to_s32 v =
    let bits : ℕ = elim v [ pos n ↦ n % 2 ^ 32 | negsuc n ↦ 2 ^ 32 - 1 - n % 2 ^ 32 ] in
    if ltb bits (2 ^ 31) then pos bits else negsuc (2 ^ 32 - 1 - bits)

-- The `switch` of `v4l2ControlSet`.
unfoldable pub ext_value : CtrlType → ℤ → Option ExtValue
unfolding to_s32
ext_value integer64 v = some (value64 v)
ext_value integer v = some (value32 (to_s32 v))
ext_value integer_menu v = some (value32 (to_s32 v))
ext_value boolean v = some (value32 (to_s32 v))
ext_value menu v = some (value32 (to_s32 v))
ext_value other v = none

-- The loop of `v4l2ControlGet`, from index `i` on: the index of the control, or NULL.
unfoldable pub find_control : List V4l2Control → ℕ → ℕ → Option ℕ
find_control [] ctrl i = none
find_control (c ∷ rest) ctrl i =
    let later = find_control rest ctrl (i + 1) in if c.query.id == ctrl then some i else later

-- `v4l2ControlGet`
unfoldable pub control_get : V4l2Controls → ℕ → Option ℕ
unfolding find_control
control_get controls ctrl = find_control controls.controls ctrl 0

-- `j + 1` for an `int`, and the number of turns of `for (j = minimum; j <= maximum; j++)`.
abbrev pub next_int : ℤ → ℤ
next_int (pos n) = pos (suc n)
next_int (negsuc zero) = pos 0
next_int (negsuc (suc n)) = negsuc n

abbrev pub span : ℤ → ℤ → ℕ
span (pos a) (pos b) = b + 1 - a
span (pos a) (negsuc b) = 0
span (negsuc a) (pos b) = b + a + 2
span (negsuc a) (negsuc b) = a + 1 - b

-- The slots of an array's block, and the items among them that were written.
abbrev pub slots_of : Block V4l2Control → List (Option V4l2Control)
slots_of null = []
slots_of (live slots) = slots
slots_of freed = []

abbrev pub present : List (Option V4l2Control) → List V4l2Control
present [] = []
present (none ∷ rest) = present rest
present (some c ∷ rest) = c ∷ present rest

-- `v4l2ControlsDestroy`; NULL is left alone.
unfoldable pub controls_destroy : Option V4l2Controls → Option V4l2Controls
controls_destroy none = none
controls_destroy (some controls) = some (record controls { controls = [] })

module _ (Kernel : Type 0) (driver : ControlDriver Kernel) where
  open driver use {query_control, get_control, query_menu, set_control}

  -- `v4l2ControlSet` of the control at an index of the array, or of NULL.
  unfoldable pub control_set :
      Kernel → V4l2Controls → Option ℕ → ℤ → Outcome (ℤ × Kernel × V4l2Controls)
  unfolding ext_value
  control_set k controls none value = done (minus einval, k, controls)
  control_set k controls (some i) value = elim (get_elem? controls.controls i) [
    | none ↦ fault
    | some ctrl ↦ elim (ext_value ctrl.query.ctrl_type value) [
      | none ↦ done (minus eperm, k, controls)
      | some val ↦
          let (reply, k') = set_control k controls.fd ctrl.query.id val in
          elim reply [
            | error errno ↦ done (minus errno, k', controls)
            | success _ ↦ done (
              pos 0,
              k',
              record controls {
                controls = set controls.controls i (record ctrl { value = value });
              },
            )
          ]
    ]
  ]

  -- `v4l2ControlSetById`
  unfoldable pub control_set_by_id :
      Kernel → V4l2Controls → ℕ → ℤ → Outcome (ℤ × Kernel × V4l2Controls)
  unfolding control_get control_set
  control_set_by_id k controls ctrl_id value = elim (control_get controls ctrl_id) [
    | none ↦ done (minus enoent, k, controls)
    | some i ↦ control_set k controls (some i) value
  ]

  -- `v4l2ControlsCreateFromV4l2Fd`, the value that a control starts with.
  unfoldable pub read_value : Kernel → ℕ → Query → ℤ × Kernel
  read_value k fd qctrl =
      if not (has_bits qctrl.flags write_only) && not (has_bits qctrl.flags has_payload)
      then (let (reply, k') = get_control k fd qctrl.id in
          elim reply [
            | error errno ↦ (qctrl.default_value, k')
            | success (whole, low) ↦ elim qctrl.ctrl_type [
              | integer64 ↦ (whole, k')
              | _ ↦ (low, k')
            ]
          ])
      else (qctrl.default_value, k)

  -- Its loop over the items of a menu, `n` to go: the first error ends it. The items are only
  -- logged.
  unfoldable pub query_items : Kernel → ℕ → ℕ → ℤ → ℕ → Kernel
  query_items k fd id j zero = k
  query_items k fd id j (suc n) =
      let (reply, k') = query_menu k fd id j in
      elim reply [ error errno ↦ k' | success _ ↦ query_items k' fd id (next_int j) n ]

  unfoldable pub query_menu_of : Kernel → ℕ → Query → Kernel
  unfolding query_items
  query_menu_of k fd qctrl = elim qctrl.ctrl_type [
    | menu ↦ query_items k fd qctrl.id qctrl.minimum (span qctrl.minimum qctrl.maximum)
    | integer_menu ↦ query_items k fd qctrl.id qctrl.minimum (span qctrl.minimum qctrl.maximum)
    | _ ↦ k
  ]

  -- Its loop over the controls, one unit of fuel for a control, with the id of the last one.
  unfoldable pub enumerate :
      ℕ → Kernel → ℕ → ℕ → Array V4l2Control → Outcome (Array V4l2Control × Kernel)
  unfolding read_value query_menu_of
  enumerate zero k fd last controls = out_of_fuel
  enumerate (suc fuel) k fd last controls =
      let (reply, k1) = query_control k fd (bit_or last next_flags) in
      elim reply [
        | error errno ↦ done (controls, k1)
        | success qctrl ↦ do
          let (value, k2) = read_value k1 fd qctrl
          let k3 = query_menu_of k2 fd qctrl
          (index, more) ← Array.append controls (some (record { query = qctrl; value = value }))
          enumerate fuel k3 fd qctrl.id more
      ]

  -- `v4l2ControlsCreateFromV4l2Fd`; the size of `V4l2Control` is a parameter.
  unfoldable pub create_from_fd : ℕ → ℕ → Kernel → ℕ → Outcome (V4l2Controls × Kernel)
  unfolding enumerate
  create_from_fd control_size fuel k fd = do
    (controls, k') ← enumerate fuel k fd 0 (Array.init control_size)
    done (record { fd = fd; controls = present (take controls.size (slots_of controls.block)) }, k')
