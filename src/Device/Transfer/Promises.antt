-- ===== src/Device/Transfer/Promises.antt =====
-- Which buffers the kernel holds, as the documentation of VIDIOC_QBUF and VIDIOC_DQBUF has it.
use malincam.Prelude.{
  ℕ, Bool, true, false, some, List, if◌then◌else◌, get_elem?, ◌≡◌, ◌≢◌, ◌&&◌, ◌==◌, ◌<◌, ◌≤◌,
}
use malincam.Abi.{eio}
use malincam.V4l2.{BufType, Plane, V4l2Buffer}
use malincam.Device.{Buffer, DeviceStream}
use malincam.Device.Driver.{Driver, success, error}
use malincam.Device.Picture.{same_type}

-- The queue of a descriptor and type, and a buffer's index in it.
abbrev pub same_slot : ℕ → BufType → ℕ → ℕ → BufType → ℕ → Bool
same_slot fd t i fd' t' i' = fd == fd' && same_type t t' && i == i'

-- `queued k fd t i` says that the kernel holds buffer `i` of that queue. VIDIOC_QBUF takes a buffer
-- that it does not hold, VIDIOC_DQBUF gives one that it holds, of the type asked for; a call that
-- fails leaves the queues as they are, VIDIOC_DQBUF if its errno is harmless, and errno is
-- positive.
pub record LawsFor (driver : Driver) (IsHarmless : ℕ → Type 0) : Type 0 where
  pub queued : driver.Kernel → ℕ → BufType → ℕ → Bool
  pub dequeued_was_queued :
      (k : driver.Kernel) (fd : ℕ) (b : V4l2Buffer) (c : V4l2Buffer) (ps : List Plane)
      (k' : driver.Kernel)
      → driver.dequeue k fd b ≡ (success (c, ps), k')
      → (queued k fd b.buf_type c.index ≡ true) × (c.buf_type ≡ b.buf_type)
  pub dequeued_is_gone :
      (k : driver.Kernel) (fd : ℕ) (b : V4l2Buffer) (c : V4l2Buffer) (ps : List Plane)
      (k' : driver.Kernel)
      → driver.dequeue k fd b ≡ (success (c, ps), k')
      → (fd' : ℕ) (t : BufType) (i : ℕ)
      → queued k' fd' t i
        ≡ (if same_slot fd b.buf_type c.index fd' t i then false else queued k fd' t i)
  pub dequeue_failed :
      (k : driver.Kernel) (fd : ℕ) (b : V4l2Buffer) (e : ℕ) (k' : driver.Kernel)
      → driver.dequeue k fd b ≡ (error e, k')
      → IsHarmless e
      → (fd' : ℕ) (t : BufType) (i : ℕ) → queued k' fd' t i ≡ queued k fd' t i
  pub enqueued_was_free :
      (k : driver.Kernel) (fd : ℕ) (b : Buffer) (k' : driver.Kernel)
      → driver.enqueue k fd b ≡ (success tt, k')
      → queued k fd b.buffer.buf_type b.buffer.index ≡ false
  pub enqueued_is_held :
      (k : driver.Kernel) (fd : ℕ) (b : Buffer) (k' : driver.Kernel)
      → driver.enqueue k fd b ≡ (success tt, k')
      → (fd' : ℕ) (t : BufType) (i : ℕ)
      → queued k' fd' t i
        ≡ (if same_slot fd b.buffer.buf_type b.buffer.index fd' t i then true else queued k fd' t i)
  pub enqueue_errno :
      (k : driver.Kernel) (fd : ℕ) (b : Buffer) (e : ℕ) (k' : driver.Kernel)
      → driver.enqueue k fd b ≡ (error e, k')
      → 0 < e
  pub enqueue_failed :
      (k : driver.Kernel) (fd : ℕ) (b : Buffer) (e : ℕ) (k' : driver.Kernel)
      → driver.enqueue k fd b ≡ (error e, k')
      → (fd' : ℕ) (t : BufType) (i : ℕ) → queued k' fd' t i ≡ queued k fd' t i

-- What the kernel documents: a VIDIOC_DQBUF that fails with EIO may drop a buffer.
abbrev pub Documented : Driver → Type 0
Documented driver = LawsFor driver (λ e. e ≢ eio)

-- No VIDIOC_DQBUF fails with EIO, which stands for an internal error of the driver.
abbrev pub NoEio : Driver → Type 0
NoEio driver =
    (k : driver.Kernel) (fd : ℕ) (b : V4l2Buffer) (e : ℕ) (k' : driver.Kernel)
    → driver.dequeue k fd b ≡ (error e, k')
    → e ≢ eio

-- No failed call changes the queues.
abbrev pub QueueLaws : Driver → Type 0
QueueLaws driver = LawsFor driver (λ e. Unit {0})

abbrev pub without_eio : (driver : Driver) → Documented driver → NoEio driver → QueueLaws driver
without_eio driver documented no_eio = record {
  queued = documented.queued;
  dequeued_was_queued = documented.dequeued_was_queued;
  dequeued_is_gone = documented.dequeued_is_gone;
  dequeue_failed = λ k fd b e k' call harmless.
      documented.dequeue_failed k fd b e k' call (no_eio k fd b e k' call);
  enqueued_was_free = documented.enqueued_was_free;
  enqueued_is_held = documented.enqueued_is_held;
  enqueue_errno = documented.enqueue_errno;
  enqueue_failed = documented.enqueue_failed;
}

-- A kernel that gives finitely many buffers while it is being called: `ready` bounds those that a
-- queue will still give, waiting now or completed later.
pub record Quiet (driver : Driver) : Type 0 where
  pub ready : driver.Kernel → ℕ → BufType → ℕ
  pub dequeue_takes :
      (k : driver.Kernel) (fd : ℕ) (b : V4l2Buffer) (c : V4l2Buffer) (ps : List Plane)
      (k' : driver.Kernel)
      → driver.dequeue k fd b ≡ (success (c, ps), k')
      → ready k' fd b.buf_type < ready k fd b.buf_type
  pub dequeue_adds_none :
      (k : driver.Kernel) (fd : ℕ) (b : V4l2Buffer) (fd' : ℕ) (t : BufType)
      → ready (driver.dequeue k fd b).1 fd' t ≤ ready k fd' t
  pub enqueue_adds_none :
      (k : driver.Kernel) (fd : ℕ) (b : Buffer) (fd' : ℕ) (t : BufType)
      → ready (driver.enqueue k fd b).1 fd' t ≤ ready k fd' t

-- No queue will give more buffers than before.
abbrev pub Lighter : (driver : Driver) → driver.Kernel → driver.Kernel → Type 0
Lighter driver k k' = (q : Quiet driver) (fd : ℕ) (t : BufType) → q.ready k' fd t ≤ q.ready k fd t

-- The same queue of the kernel.
abbrev pub same_stream : DeviceStream → DeviceStream → Bool
same_stream st su = st.dev_fd == su.dev_fd && same_type st.buf_type su.buf_type

-- Each of the stream's buffers carries its own index and the stream's type.
abbrev pub IsLabelled : DeviceStream → List Buffer → Type 0
IsLabelled st bufs =
    (i : ℕ) (b : Buffer)
    → get_elem? bufs i ≡ some b
    → (b.buffer.index ≡ i) × (b.buffer.buf_type ≡ st.buf_type)
