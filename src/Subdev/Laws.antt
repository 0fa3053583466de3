-- ===== src/Subdev/Laws.antt =====
-- What `subdevSet` does to what it is given, and that the enumerations end.
pub mod Ends
use malincam.Prelude.{
  ℕ, ℤ, pos, negsuc, is_zero, ◌≡◌, ◌≢◌, refl, Option, none, some, arith, inl, inr, ◌⊎◌, ◌+◌,
  Option-cases, sym,
}
use mathlib.Core.Path.{subst}
use malincam.Abi.{einval}
use malincam.V4l2.{SelTarget, crop, crop_bounds}
use malincam.Device.Driver.{success, error, Reply-cases}
use malincam.Subdev.{try, active, SubdevFormat, SubdevPad, Subdev, SubdevDriver, Which}
use malincam.Subdev.Formats.{
  SubdevSet, pad_of, pad_number, read_crop, make_active, wanted_format, subdev_set,
}

module _ (Kernel : Type 0) (driver : SubdevDriver Kernel) where
  open driver use {get_format, set_format, get_selection}

  -- The last call failed, and the result is its errno, or -1 for a selection.
  abbrev pub Refused : Subdev → SubdevSet → ℤ → Kernel → Type 0
  Refused sd set r k =
      (e : ℕ) × (k1 : Kernel) × (((f : SubdevFormat) × (set_format k1 sd.fd f ≡ (error e, k))
          × (r ≡ pos e))
        ⊎ ((f : SubdevFormat) × (get_format k1 sd.fd f ≡ (error e, k)) × (r ≡ pos e))
        ⊎ ((which : Which) × (target : SelTarget) × (get_selection k1 sd.fd which
                (pad_number set.pad) target
              ≡ (error e, k))
            × (r ≡ negsuc 0)))

  -- The result, and what is left of the request: 0 and only a crop that the kernel gave in answer
  -- to the last call, or the error of the last call and the request as it was.
  abbrev pub SetEnds : Subdev → SubdevSet → ℤ × Kernel × SubdevSet → Type 0
  SetEnds sd set (r, k, set') =
      ((r ≡ pos 0)
        × ((k1 : Kernel) × (get_selection k1 sd.fd active (pad_number set.pad) crop
              ≡ (success set'.out_crop, k)))
        × (set' ≡ record set { out_crop = set'.out_crop }))
      ⊎ (Refused sd set r k × (set' ≡ set))

  read_crop-SetEnds :
      (k : Kernel) (sd : Subdev) (set : SubdevSet)
      → SetEnds sd set (read_crop Kernel driver k sd set)
  unfolding read_crop
  read_crop-SetEnds k sd set =
      let (bounds, k1) = get_selection k sd.fd active (pad_number set.pad) crop_bounds in
      elim (Reply-cases bounds) [
        | inl (e, failed) ↦
            inr ((e, k, inr (inr (active, crop_bounds, ground arith, ground arith))), ground arith)
        | inr (b, known) ↦
            elim (Reply-cases (get_selection k1 sd.fd active (pad_number set.pad) crop).0) [
              | inl (e, failed) ↦
                  inr ((e, k1, inr (inr (active, crop, ground arith, ground arith))), ground arith)
              | inr (r, cropped) ↦ inl (ground arith, (k1, ground arith), ground arith)
            ]
      ]

  make_active-SetEnds :
      (k : Kernel) (sd : Subdev) (set : SubdevSet) (tried : SubdevFormat)
      → SetEnds sd set (make_active Kernel driver k sd set tried)
  unfolding make_active
  make_active-SetEnds k sd set tried =
      let (bounds, k1) = get_selection k sd.fd try (pad_number set.pad) crop_bounds in
      elim (Reply-cases bounds) [
        | inl (e, failed) ↦
            inr ((e, k, inr (inr (try, crop_bounds, ground arith, ground arith))), ground arith)
        | inr (b, known) ↦
            let (reply, k2) = set_format k1 sd.fd (record tried { which = active }) in
            elim (Reply-cases reply) [
              | inl (e, failed) ↦ inr (
                (e, k1, inl (record tried { which = active }, ground arith, ground arith)),
                ground arith,
              )
              | inr (format, taken) ↦
                  subst (SetEnds sd set) (sym (ground (arith, known, taken)))
                    (read_crop-SetEnds k2 sd set)
            ]
      ]

  -- `subdevSet` of a pad that is not there returns EINVAL and asks nothing of the kernel. Else it
  -- either leaves the request as it was and returns the errno of a format call that failed, or -1
  -- for a selection that failed, and that call was the last; or it returns 0 and writes nothing of
  -- it but `out_crop`, which is the active crop that the kernel answered last.
  pub subdev_set_lem :
      (k : Kernel) (sd : Subdev) (set : SubdevSet)
      → ((pad_of sd set.pad ≡ none) × (subdev_set Kernel driver k sd set ≡ (pos einval, k, set)))
        ⊎ ((pad : SubdevPad) × (pad_of sd set.pad ≡ some pad)
            × SetEnds sd set (subdev_set Kernel driver k sd set))
  unfolding subdev_set
  subdev_set_lem k sd set = elim (Option-cases (pad_of sd set.pad)) [
    | inl missing ↦ inl (missing, ground (arith, missing))
    | inr (pad, found) ↦ inr (
      pad,
      found,
      let (reply, k1) = set_format k sd.fd (wanted_format Kernel driver pad set) in
          elim (Reply-cases reply) [
            | inl (e, failed) ↦ inr (
              (
                e,
                k,
                inl (wanted_format Kernel driver pad set, ground arith, ground (arith, found)),
              ),
              ground (arith, found),
            )
            | inr (format, taken) ↦
                let (reply', k2) = get_format k1 sd.fd format in
                elim (Reply-cases reply') [
                  | inl (e, failed) ↦ inr (
                    (e, k1, inr (inl (format, ground arith, ground (arith, found, taken)))),
                    ground (arith, found, taken),
                  )
                  | inr (tried, read) ↦
                      subst (SetEnds sd set) (sym (ground (arith, found, taken, read)))
                        (make_active-SetEnds k2 sd set tried)
                ]
          ],
    )
  ]
