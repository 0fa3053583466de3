-- ===== src/Subdev/Laws/Ends.antt =====
-- The enumerations of a subdevice end, and with them the reading of its pads.
use malincam.Prelude.{
  ℕ, ◌≡◌, refl, ap, ◌≤◌, ◌<◌, ◌+◌, zero, suc, List, [], ◌∷◌, length, arith, ◌==◌, Bool-cases, ltb,
  inl, inr,
}
use malincam.Prelude.Outcome.{Outcome, done}
use malincam.Device.Driver.{Reply, success, error, Reply-cases}
use malincam.V4l2.{native_size, crop, crop_default, crop_bounds}
use malincam.Subdev.{
  SubdevPad, FrameSize, SubdevDriver, enum_end, enum_frame_intervals, intervals_of,
  enum_frame_sizes, enum_mbus_codes, read_pad, read_pads, format_get, selection_get,
  frame_interval_get,
}

-- The kernel's three enumerations end with an error at index `n` at the latest.
pub record EndsBy (Kernel : Type 0) (driver : SubdevDriver Kernel) (n : ℕ) : Type 0 where
  pub intervals :
      (k : Kernel) (fd i pad code w h : ℕ)
      → n ≤ i
      → (e : ℕ) × ((driver.enum_frame_interval k fd i pad code w h).0 ≡ error e)
  pub sizes :
      (k : Kernel) (fd i pad code : ℕ)
      → n ≤ i
      → (e : ℕ) × ((driver.enum_frame_size k fd i pad code).0 ≡ error e)
  pub codes :
      (k : Kernel) (fd i pad : ℕ)
      → n ≤ i
      → (e : ℕ) × ((driver.enum_mbus_code k fd i pad).0 ≡ error e)

module _ (Kernel : Type 0) (driver : SubdevDriver Kernel) (n : ℕ)
    (ends : EndsBy Kernel driver n) where
  abbrev Returns {ℓ} : {A : Type ℓ} → Outcome A → Type ℓ
  Returns {A = A} o = (a : A) × (o ≡ done a)

  more-lt {ℓ} :
      {A : Type ℓ} (reply : Reply A) (a : A) (i : ℕ)
      → (n ≤ i → (e : ℕ) × (reply ≡ error e))
      → reply ≡ success a
      → i < n
  more-lt reply a i stops more = elim (Bool-cases (ltb i n)) [
    | inl lt ↦ ground arith
    | inr ge ↦ let (e, failed) = stops (ground arith) in absurd (ground (arith, failed))
  ]

  intervals_return :
      (fuel : ℕ) (k : Kernel) (fd i pad code w h : ℕ)
      → i ≤ n
      → n < fuel + i
      → Returns (enum_frame_intervals Kernel driver fuel k fd i pad code w h)
  unfolding enum_frame_intervals
  intervals_return zero k fd i pad code w h within enough = absurd (omega arith)
  intervals_return (suc fuel) k fd i pad code w h within enough =
      let (reply, k') = driver.enum_frame_interval k fd i pad code w h in
      elim (Reply-cases reply) [
        | inl (e, failed) ↦ ((enum_end e, k'), ground (arith, failed))
        | inr (u, more) ↦
            let lt = more-lt reply u i (ends.intervals k fd i pad code w h) more in
            let (r, runs) =
              intervals_return fuel k' fd (i + 1) pad code w h (omega arith) (omega arith) in
            (r, ground (arith, more, runs))
      ]

  intervals_of-Returns :
      (fuel : ℕ) (k : Kernel) (fd : ℕ) (fsz : FrameSize)
      → n < fuel
      → Returns (intervals_of Kernel driver fuel k fd fsz)
  unfolding intervals_of
  intervals_of-Returns fuel k fd fsz enough =
      let (r, runs) =
        intervals_return fuel k fd 0 fsz.pad fsz.code fsz.min_width fsz.min_height (omega arith)
          (omega arith) in
      let (r', runs') =
        intervals_return fuel r.1 fd 0 fsz.pad fsz.code fsz.max_width fsz.max_height (omega arith)
          (omega arith) in
      elim (Bool-cases (fsz.min_width == fsz.max_width)) [
        | inr wide ↦ (r'.1, rw (runs, wide, runs') refl)
        | inl narrow ↦ elim (Bool-cases (fsz.min_height == fsz.max_height)) [
          | inr high ↦ (r'.1, rw (runs, narrow, high, runs') refl)
          | inl low ↦ (r.1, rw (runs, narrow, low) refl)
        ]
      ]

  sizes_return :
      (fuel inner : ℕ) (k : Kernel) (fd i pad code : ℕ)
      → i ≤ n
      → n < fuel + i
      → n < inner
      → Returns (enum_frame_sizes Kernel driver fuel inner k fd i pad code)
  unfolding enum_frame_sizes
  sizes_return zero inner k fd i pad code within enough deep = absurd (omega arith)
  sizes_return (suc fuel) inner k fd i pad code within enough deep =
      let (reply, k1) = driver.enum_frame_size k fd i pad code in
      elim (Reply-cases reply) [
        | inl (e, failed) ↦ ((enum_end e, k1), ground (arith, failed))
        | inr (fsz, more) ↦
            let lt = more-lt reply fsz i (ends.sizes k fd i pad code) more in
            let (k2, runs) = intervals_of-Returns inner k1 fd fsz deep in
            let (r, later) =
              sizes_return fuel inner k2 fd (i + 1) pad code (omega arith) (omega arith) deep in
            (r, ground (arith, more, runs, later))
      ]

  codes_return :
      (fuel inner : ℕ) (k : Kernel) (fd i pad : ℕ)
      → i ≤ n
      → n < fuel + i
      → n < inner
      → Returns (enum_mbus_codes Kernel driver fuel inner k fd i pad)
  unfolding enum_mbus_codes
  codes_return zero inner k fd i pad within enough deep = absurd (omega arith)
  codes_return (suc fuel) inner k fd i pad within enough deep =
      let (reply, k1) = driver.enum_mbus_code k fd i pad in
      elim (Reply-cases reply) [
        | inl (e, failed) ↦ ((enum_end e, k1), ground (arith, failed))
        | inr (mbc, more) ↦
            let lt = more-lt reply mbc i (ends.codes k fd i pad) more in
            let ((s, k2), runs) =
              sizes_return inner inner k1 fd 0 mbc.pad mbc.code (omega arith) (omega arith) deep in
            let (r, later) =
              codes_return fuel inner k2 fd (i + 1) pad (omega arith) (omega arith) deep in
            (r, ground (arith, more, runs, later))
      ]

  read_pad-Returns :
      (fuel : ℕ) (k : Kernel) (fd i : ℕ) (pad : SubdevPad)
      → n < fuel
      → Returns (read_pad Kernel driver fuel k fd i pad)
  unfolding read_pad
  read_pad-Returns fuel k fd i pad enough =
      let (r1, k1, formatted) = format_get Kernel driver k fd i pad in
      let (r2, k2, native) = selection_get Kernel driver k1 fd i native_size formatted.native in
      let (r3, k3, cropped) = selection_get Kernel driver k2 fd i crop formatted.crop in
      let (r4, k4, default) =
        selection_get Kernel driver k3 fd i crop_default formatted.crop_default in
      let (r5, k5, bounds) =
        selection_get Kernel driver k4 fd i crop_bounds formatted.crop_bounds in
      let (r6, k6) = frame_interval_get Kernel driver k5 fd i in
      let ((r, k7), runs) = codes_return fuel fuel k6 fd 0 i (omega arith) (omega arith) enough in
      (
        (
          k7,
          record formatted {
            native = native;
            crop = cropped;
            crop_bounds = bounds;
            crop_default = default;
          },
        ),
        rw runs refl,
      )

  -- The loop of `subdevOpen` over the pads returns, with a pad read for each that there is, once
  -- there is a unit of fuel more than the entries of the longest enumeration.
  pub read_pads_return :
      (fuel : ℕ) (k : Kernel) (fd i : ℕ) (pads : List SubdevPad)
      → n < fuel
      → (k' : Kernel) × (pads' : List SubdevPad) × (read_pads Kernel driver fuel k fd i pads
          ≡ done (k', pads'))
        × (length pads' ≡ length pads)
  unfolding read_pads
  read_pads_return fuel k fd i [] enough = (k, [], refl, refl)
  read_pads_return fuel k fd i (pad ∷ rest) enough =
      let ((k1, read), runs) = read_pad-Returns fuel k fd i pad enough in
      let (k2, later, runs', long) = read_pads_return fuel k1 fd (i + 1) rest enough in
      (k2, read ∷ later, rw (runs, runs') refl, ap suc long)
