-- ===== src/Subdev.antt =====
-- subdev.c and subdev.h: a V4L2 subdevice, such as the sensor, and the formats of its pads.
pub mod Formats
pub mod Laws
mod Tests
use malincam.Prelude.{
  ℕ, ℤ, pos, negsuc, zero, suc, ◌+◌, Option, none, some, List, [], ◌∷◌, ◌==◌, if◌then◌else◌,
  replicate,
}
use malincam.Prelude.Outcome.{Outcome, done, out_of_fuel, ◌>>=◌}
use malincam.Abi.{einval, enotty}
use malincam.V4l2.{Rect, SelTarget, native_size, crop, crop_default, crop_bounds}
use malincam.V4l2Control.{V4l2Controls, create_from_fd, controls_destroy}
use malincam.Device.Driver.{Reply, success, error}
use malincam.Device.Open.{Host}

-- V4L2_SUBDEV_FORMAT_TRY, V4L2_SUBDEV_FORMAT_ACTIVE
pub data Which : Type 0 where
  try active : Which

-- `struct v4l2_subdev_format`; `other` stands for the fields that are only copied.
pub record SubdevFormat : Type 0 where
  pub pad : ℕ
  pub which : Which
  pub code : ℕ
  pub width : ℕ
  pub height : ℕ
  pub other : ℕ

-- `SubdevPad`
pub record SubdevPad : Type 0 where
  pub format : SubdevFormat
  pub native : Rect
  pub crop : Rect
  pub crop_bounds : Rect
  pub crop_default : Rect

-- `Subdev`, without the capabilities, which are only printed.
pub record Subdev : Type 0 where
  pub fd : ℕ
  pub pads : List SubdevPad
  pub controls : V4l2Controls

-- The answers of VIDIOC_SUBDEV_ENUM_FRAME_SIZE and VIDIOC_SUBDEV_ENUM_MBUS_CODE.
pub record FrameSize : Type 0 where
  pub pad : ℕ
  pub code : ℕ
  pub min_width : ℕ
  pub max_width : ℕ
  pub min_height : ℕ
  pub max_height : ℕ

pub record MbusCode : Type 0 where
  pub pad : ℕ
  pub code : ℕ

-- What is asked of the kernel: VIDIOC_SUBDEV_QUERYCAP, G_FMT, S_FMT, G_SELECTION, G_FRAME_INTERVAL,
-- and the three enumerations, by descriptor, index and pad.
pub record SubdevDriver (Kernel : Type 0) : Type 0 where
  pub query_caps : Kernel → ℕ → Reply (Unit {0}) × Kernel
  pub get_format : Kernel → ℕ → SubdevFormat → Reply SubdevFormat × Kernel
  pub set_format : Kernel → ℕ → SubdevFormat → Reply SubdevFormat × Kernel
  pub get_selection : Kernel → ℕ → Which → ℕ → SelTarget → Reply Rect × Kernel
  pub get_frame_interval : Kernel → ℕ → ℕ → Reply (Unit {0}) × Kernel
  pub enum_frame_interval : Kernel → ℕ → ℕ → ℕ → ℕ → ℕ → ℕ → Reply (Unit {0}) × Kernel
  pub enum_frame_size : Kernel → ℕ → ℕ → ℕ → ℕ → Reply FrameSize × Kernel
  pub enum_mbus_code : Kernel → ℕ → ℕ → ℕ → Reply MbusCode × Kernel

-- The end of an enumeration by an error: EINVAL and ENOTTY are none.
abbrev pub enum_end : ℕ → ℤ
enum_end errno = if errno == einval then pos 0 else if errno == enotty then pos 0 else pos errno

module _ (Kernel : Type 0) (driver : SubdevDriver Kernel) where
  open driver use {
    query_caps, get_format, get_selection, get_frame_interval, enum_frame_interval, enum_frame_size,
    enum_mbus_code,
  }

  -- `subdevReadCaps`
  unfoldable pub read_caps : Kernel → ℕ → ℤ × Kernel
  read_caps k fd =
      let (reply, k') = query_caps k fd in
      elim reply [ success _ ↦ (pos 0, k') | error errno ↦ (negsuc 0, k') ]

  -- `subdevFormatGet` of pad number `i`.
  unfoldable pub format_get : Kernel → ℕ → ℕ → SubdevPad → ℤ × Kernel × SubdevPad
  format_get k fd i pad =
      let (reply, k') =
        get_format k fd
          (record { pad = i; which = active; code = 0; width = 0; height = 0; other = 0 }) in
      elim reply [
        | success format ↦ (pos 0, k', record pad { format = format })
        | error errno ↦ (negsuc 0, k', pad)
      ]

  -- `subdevSelectionGet`, with what was at `out`.
  unfoldable pub selection_get : Kernel → ℕ → ℕ → SelTarget → Rect → ℤ × Kernel × Rect
  selection_get k fd i target out =
      let (reply, k') = get_selection k fd active i target in
      elim reply [ success r ↦ (pos 0, k', r) | error errno ↦ (negsuc 0, k', out) ]

  -- `subdevFrameIntervalGet`
  unfoldable pub frame_interval_get : Kernel → ℕ → ℕ → ℤ × Kernel
  frame_interval_get k fd i =
      let (reply, k') = get_frame_interval k fd i in
      elim reply [ success _ ↦ (pos 0, k') | error errno ↦ (negsuc 0, k') ]

  -- `subdevEnumFrameIntervals` from index `i` on, one unit of fuel for an interval.
  unfoldable pub enum_frame_intervals : ℕ → Kernel → ℕ → ℕ → ℕ → ℕ → ℕ → ℕ → Outcome (ℤ × Kernel)
  enum_frame_intervals zero k fd i pad code w h = out_of_fuel
  enum_frame_intervals (suc fuel) k fd i pad code w h =
      let (reply, k') = enum_frame_interval k fd i pad code w h in
      elim reply [
        | error errno ↦ done (enum_end errno, k')
        | success _ ↦ enum_frame_intervals fuel k' fd (i + 1) pad code w h
      ]

  -- `subdevEnumFrameSizes`, the intervals of one size; what they return is dropped.
  unfoldable pub intervals_of : ℕ → Kernel → ℕ → FrameSize → Outcome Kernel
  unfolding enum_frame_intervals
  intervals_of fuel k fd fsz = do
    (least, k1) ← enum_frame_intervals fuel k fd 0 fsz.pad fsz.code fsz.min_width fsz.min_height
    if fsz.min_width == fsz.max_width
        then (if fsz.min_height == fsz.max_height
            then done k1
            else (enum_frame_intervals fuel k1 fd 0 fsz.pad fsz.code fsz.max_width fsz.max_height
                >>= λ r. done r.1))
        else (enum_frame_intervals fuel k1 fd 0 fsz.pad fsz.code fsz.max_width fsz.max_height
            >>= λ r. done r.1)

  -- `subdevEnumFrameSizes` from index `i` on; `inner` is the fuel of the loops inside.
  unfoldable pub enum_frame_sizes : ℕ → ℕ → Kernel → ℕ → ℕ → ℕ → ℕ → Outcome (ℤ × Kernel)
  unfolding intervals_of
  enum_frame_sizes zero inner k fd i pad code = out_of_fuel
  enum_frame_sizes (suc fuel) inner k fd i pad code =
      let (reply, k1) = enum_frame_size k fd i pad code in
      elim reply [
        | error errno ↦ done (enum_end errno, k1)
        | success fsz ↦ do
          k2 ← intervals_of inner k1 fd fsz
          enum_frame_sizes fuel inner k2 fd (i + 1) pad code
      ]

  -- `subdevEnumMbusCodes` from index `i` on.
  unfoldable pub enum_mbus_codes : ℕ → ℕ → Kernel → ℕ → ℕ → ℕ → Outcome (ℤ × Kernel)
  unfolding enum_frame_sizes
  enum_mbus_codes zero inner k fd i pad = out_of_fuel
  enum_mbus_codes (suc fuel) inner k fd i pad =
      let (reply, k1) = enum_mbus_code k fd i pad in
      elim reply [
        | error errno ↦ done (enum_end errno, k1)
        | success mbc ↦ do
          (sizes, k2) ← enum_frame_sizes inner inner k1 fd 0 mbc.pad mbc.code
          enum_mbus_codes fuel inner k2 fd (i + 1) pad
      ]

  -- `subdevOpen`, the body of its loop; every error is dropped.
  unfoldable pub read_pad : ℕ → Kernel → ℕ → ℕ → SubdevPad → Outcome (Kernel × SubdevPad)
  unfolding format_get selection_get frame_interval_get enum_mbus_codes
  read_pad fuel k fd i pad =
      let (r1, k1, formatted) = format_get k fd i pad in
      let (r2, k2, native) = selection_get k1 fd i native_size formatted.native in
      let (r3, k3, cropped) = selection_get k2 fd i crop formatted.crop in
      let (r4, k4, default) = selection_get k3 fd i crop_default formatted.crop_default in
      let (r5, k5, bounds) = selection_get k4 fd i crop_bounds formatted.crop_bounds in
      let (r6, k6) = frame_interval_get k5 fd i in
      enum_mbus_codes fuel fuel k6 fd 0 i >>= (λ r. done (
        r.1,
        record formatted {
          native = native;
          crop = cropped;
          crop_bounds = bounds;
          crop_default = default;
        },
      ))

  -- `subdevOpen`, its loop from pad `i` on, over the pads that are left. `malloc` leaves them as
  -- they were in memory.
  unfoldable pub read_pads : ℕ → Kernel → ℕ → ℕ → List SubdevPad → Outcome (Kernel × List SubdevPad)
  unfolding read_pad
  read_pads fuel k fd i [] = done (k, [])
  read_pads fuel k fd i (pad ∷ rest) = do
    (k1, read) ← read_pad fuel k fd i pad
    (k2, later) ← read_pads fuel k1 fd (i + 1) rest
    done (k2, read ∷ later)

module _ (host : Host) where
  open host use {driver, Name, files, control_driver, control_size}
  open driver use {Kernel}
  open files use {open_file, close_file}

  -- `close` of a descriptor above 0.
  abbrev pub close_above : Kernel → ℕ → Kernel
  close_above k zero = k
  close_above k (suc fd) = close_file k (suc fd)

  -- `subdevOpen`; `none` is NULL, and `garbage` is what `malloc` finds in memory.
  unfoldable pub subdev_open :
      SubdevDriver Kernel → SubdevPad → ℕ → Kernel → Name → ℕ → Outcome (Option Subdev × Kernel)
  unfolding read_caps read_pads
  subdev_open subdevs garbage fuel k name pads_count =
      let (opened, k1) = open_file k name in
      elim opened [
        | negsuc n ↦ done (none, k1)
        | pos fd ↦
            let (result, k2) = read_caps Kernel subdevs k1 fd in
            elim result [
              | negsuc n ↦ done (none, close_above k2 fd)
              | pos n ↦ do
                (k3, pads) ← read_pads Kernel subdevs fuel k2 fd 0 (replicate pads_count garbage)
                (found, k4) ← create_from_fd Kernel control_driver control_size fuel k3 fd
                done (some (record { fd = fd; pads = pads; controls = found }), k4)
            ]
      ]

  -- `subdevClose`: the pads are not freed.
  unfoldable pub subdev_close : Kernel → Option Subdev → Kernel
  unfolding controls_destroy
  subdev_close k none = k
  subdev_close k (some sd) =
      let destroyed = controls_destroy (some sd.controls) in close_above k sd.fd
