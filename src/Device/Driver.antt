-- ===== src/Device/Driver.antt =====
-- The kernel as device.c sees it, a parameter of the model: each `ioctl`, and `mmap`, is a function
-- of a state of the kernel that answers with a value or an errno.
use malincam.Prelude.{ℕ, ℤ, List, ◌≡◌, refl, ◌⊎◌, inl, inr}
use malincam.V4l2.{BufType, Memory, Plane, V4l2Buffer, Format, Rect, SelTarget}
use malincam.Device.{Buffer}

pub data Reply {ℓ} (A : Type ℓ) : Type ℓ where
  success : A → Reply A
  error : ℕ → Reply A

pub record Driver : Type 1 where
  pub Kernel : Type 0
  -- VIDIOC_G_FMT, VIDIOC_S_FMT
  pub get_format : Kernel → ℕ → Format → Reply Format × Kernel
  pub set_format : Kernel → ℕ → Format → Reply Format × Kernel
  -- VIDIOC_G_SELECTION, VIDIOC_S_SELECTION
  pub get_selection : Kernel → ℕ → BufType → SelTarget → Reply Rect × Kernel
  pub set_selection : Kernel → ℕ → BufType → SelTarget → Rect → Reply Rect × Kernel
  -- VIDIOC_REQBUFS: the number of buffers granted, and the capabilities
  pub request_buffers : Kernel → ℕ → BufType → Memory → ℕ → Reply (ℕ × ℕ) × Kernel
  -- VIDIOC_QUERYBUF and VIDIOC_DQBUF fill in the buffer and the array that `m.planes` points at.
  pub query_buffer : Kernel → ℕ → V4l2Buffer → Reply (V4l2Buffer × List Plane) × Kernel
  pub dequeue : Kernel → ℕ → V4l2Buffer → Reply (V4l2Buffer × List Plane) × Kernel
  -- VIDIOC_QBUF
  pub enqueue : Kernel → ℕ → Buffer → Reply (Unit {0}) × Kernel
  -- VIDIOC_EXPBUF by buffer index and plane: a descriptor
  pub export_buffer : Kernel → ℕ → BufType → ℕ → ℕ → Reply ℤ × Kernel
  -- mmap of a length at an offset: an address
  pub map_memory : Kernel → ℕ → ℕ → ℕ → Reply ℕ × Kernel
  -- VIDIOC_STREAMON, VIDIOC_STREAMOFF
  pub stream_on : Kernel → ℕ → BufType → Reply (Unit {0}) × Kernel
  pub stream_off : Kernel → ℕ → BufType → Reply (Unit {0}) × Kernel

pub Reply-cases {ℓ} :
    {A : Type ℓ} (r : Reply A) → ((e : ℕ) × (r ≡ error e)) ⊎ ((a : A) × (r ≡ success a))
Reply-cases (success a) = inr (a, refl)
Reply-cases (error e) = inl (e, refl)
