-- ===== src/Subdev/Formats.antt =====
-- subdev.c: `subdevSet`, a format for a pad.
use malincam.Prelude.{ℕ, ℤ, pos, negsuc, Option, none, some, get_elem?}
use malincam.Abi.{einval}
use malincam.V4l2.{Rect, crop, crop_bounds}
use malincam.Device.Driver.{success, error}
use malincam.Subdev.{try, active, SubdevFormat, SubdevPad, Subdev, SubdevDriver}

-- `SubdevSet`
pub record SubdevSet : Type 0 where
  pub pad : ℤ
  pub mbus_code : ℕ
  pub width : ℕ
  pub height : ℕ
  pub out_crop : Rect

-- The pad of the guard: `none` where it is out of range.
unfoldable pub pad_of : Subdev → ℤ → Option SubdevPad
pad_of sd (pos n) = get_elem? sd.pads n
pad_of sd (negsuc n) = none

-- The number of a pad in the guard's range.
abbrev pub pad_number : ℤ → ℕ
pad_number (pos n) = n
pad_number (negsuc n) = 0

module _ (Kernel : Type 0) (driver : SubdevDriver Kernel) where
  open driver use {get_format, set_format, get_selection}

  -- The last part of `subdevSet`, with the active format set: the active crop bounds and crop.
  unfoldable pub read_crop : Kernel → Subdev → SubdevSet → ℤ × Kernel × SubdevSet
  read_crop k sd set =
      let (bounds, k1) = get_selection k sd.fd active (pad_number set.pad) crop_bounds in
      elim bounds [
        | error errno ↦ (negsuc 0, k1, set)
        | success b ↦
            let (cropped, k2) = get_selection k1 sd.fd active (pad_number set.pad) crop in
            elim cropped [
              | error errno ↦ (negsuc 0, k2, set)
              | success r ↦ (pos 0, k2, record set { out_crop = r })
            ]
      ]

  -- The part before it, with the format that the trial gave: the trial's crop bounds, which are
  -- only printed, and the active format.
  unfoldable pub make_active : Kernel → Subdev → SubdevSet → SubdevFormat → ℤ × Kernel × SubdevSet
  unfolding read_crop
  make_active k sd set tried =
      let (bounds, k1) = get_selection k sd.fd try (pad_number set.pad) crop_bounds in
      elim bounds [
        | error errno ↦ (negsuc 0, k1, set)
        | success b ↦
            let (reply, k2) = set_format k1 sd.fd (record tried { which = active }) in
            elim reply [ error errno ↦ (pos errno, k2, set) | success format ↦ read_crop k2 sd set ]
      ]

  -- The format that `subdevSet` tries.
  abbrev pub wanted_format : SubdevPad → SubdevSet → SubdevFormat
  wanted_format pad set = record pad.format {
    which = try;
    code = set.mbus_code;
    width = set.width;
    height = set.height;
  }

  -- `subdevSet`
  unfoldable pub subdev_set : Kernel → Subdev → SubdevSet → ℤ × Kernel × SubdevSet
  unfolding pad_of make_active
  subdev_set k sd set = elim (pad_of sd set.pad) [
    | none ↦ (pos einval, k, set)
    | some pad ↦
        let (reply, k1) = set_format k sd.fd (wanted_format pad set) in
        elim reply [
          | error errno ↦ (pos errno, k1, set)
          | success format ↦
              let (reply', k2) = get_format k1 sd.fd format in
              elim reply' [
                | error errno ↦ (pos errno, k2, set)
                | success tried ↦ make_active k2 sd set tried
              ]
        ]
  ]
