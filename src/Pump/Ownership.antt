-- ===== src/Pump/Ownership.antt =====
-- The ownership of buffers in pump.c: what holds between two calls of `pumpPump`, and what one
-- change of a queue does to it.
pub mod Steps
pub mod Take
pub mod Rounds
pub mod Passing
pub mod Safety
use malincam.Prelude.{
  ℕ, ℤ, pos, is_zero, zero, suc, Bool, true, false, not, ◌&&◌, Option, none, some, List, ◌==◌,
  if◌then◌else◌, get_elem?, set, ◌≡◌, ◌<◌, ◌≤◌, refl, sym, ◌∙◌, length, get_or, arith, ◌⊎◌, inl,
  inr, length-set, get_or-set_self, get_or-set_ne,
}
use native.Mathlib.Decide.{ℕ_discrete}
use malincam.Queue.{Queue}
use malincam.Queue.Laws.{slots_of}
use malincam.Device.{Buffer, DeviceStream}
use malincam.Device.Driver.{Driver}
use malincam.Device.Picture.{same_type}
use malincam.V4l2.{
  BufType, no_type, video_capture, video_output, video_capture_mplane, video_output_mplane,
}
use malincam.Device.Transfer.Promises.{QueueLaws, Lighter, same_stream}
use malincam.Device.Transfer.Laws.{IsActive, held, Moves, Unmoved}
use malincam.Pump.{Pump}
use malincam.Pump.Claims.{Owned, update}
use malincam.Pump.Cycle.{Env}

-- `acquired_to_source[d]`, where -1 and what lies past the end are `none`.
abbrev pub acquired_of : Pump → ℕ → Option ℕ
acquired_of pump d = get_or pump.acquired_to_source d none

-- Every slot of the queue names a destination buffer, and the queue is as `pumpCreate` fills it.
pub record IsStocked (q : Queue ℕ) (n : ℕ) : Type 0 where
  pub full : q.array.size ≡ q.array.capacity
  pub front_in : q.front < q.array.capacity
  pub named :
      (i : ℕ)
      → i < q.array.capacity
      → (d : ℕ) × (get_elem? (slots_of q.array.block) i ≡ some (some d)) × (d < n)

same_type_refl : (t : BufType) → same_type t t ≡ true
same_type_refl no_type = refl
same_type_refl video_capture = refl
same_type_refl video_output = refl
same_type_refl video_capture_mplane = refl
same_type_refl video_output_mplane = refl

same_type_symm : (t u : BufType) → same_type t u ≡ same_type u t
same_type_symm t u = ground arith

pub same_stream_symm : (st su : DeviceStream) → same_stream st su ≡ same_stream su st
same_stream_symm st su = ground (arith, same_type_symm st.buf_type su.buf_type)

pub acquired-set :
    (acquired : List (Option ℕ)) (i : ℕ) (v : Option ℕ)
    → i < length acquired
    → (j : ℕ) → get_or (set acquired i v) j none ≡ update (λ d. get_or acquired d none) i v j
acquired-set acquired i v lt j = elim (ℕ_discrete i j) [
  | yes e ↦ ground (arith, get_or-set_self acquired i v none lt)
  | no ne ↦ ground (arith, get_or-set_ne acquired {i = i} {j = j} v none ne)
]

module _ (driver : Driver) (laws : QueueLaws driver) where
  open driver use {Kernel}

  -- What holds between two calls of `pumpPump`: the two streams are active, they are two queues of
  -- the kernel, and the claims on their buffers are as `Owned` says.
  pub record Inv (e : Env driver) (sb db : List Buffer) : Type 0 where
    pub src_active : IsActive driver laws e.kernel e.src sb
    pub dst_active : IsActive driver laws e.kernel e.dst db
    pub apart : same_stream e.src e.dst ≡ false
    pub owned :
        Owned
          (held driver laws e.kernel e.src)
          (held driver laws e.kernel e.dst)
          (acquired_of e.pump)
          e.pump.next_in_queue
    pub mapped : length e.pump.acquired_to_source ≡ length db
    pub acquired_in : (d s : ℕ) → acquired_of e.pump d ≡ some s → s < length sb
    pub next_in : (s : ℕ) → e.pump.next_in_queue ≡ some s → s < length sb
    pub stocked : IsStocked e.pump.available (length db)

  -- The queue whose buffer moved, and another queue.
  pub held_moved :
      (k k' : Kernel) (st : DeviceStream) (i : ℕ) (v : Bool)
      → Moves driver laws k st i v k'
      → (j : ℕ) → held driver laws k' st j ≡ update (held driver laws k st) i v j
  held_moved k k' st i v moves j =
      ground (arith, moves st.dev_fd st.buf_type j, same_type_refl st.buf_type)

  pub held_apart :
      (k k' : Kernel) (st su : DeviceStream) (i : ℕ) (v : Bool)
      → same_stream st su ≡ false
      → Moves driver laws k st i v k'
      → (j : ℕ) → held driver laws k' su j ≡ held driver laws k su j
  held_apart k k' st su i v apart moves j = ground (arith, moves su.dev_fd su.buf_type j)

  -- An active stream stays active while the kernel holds no buffer past its end.
  pub IsActive-by :
      (k k' : Kernel) (st : DeviceStream) (bufs : List Buffer)
      → IsActive driver laws k st bufs
      → ((j : ℕ) → held driver laws k' st j ≡ true → j < length bufs)
      → IsActive driver laws k' st bufs
  IsActive-by k k' st bufs active ranged = record {
    has_buffers = active.has_buffers;
    nonempty = active.nonempty;
    labelled = active.labelled;
    in_range = ranged;
  }

  pub IsActive-Unmoved :
      (k k' : Kernel) (st : DeviceStream) (bufs : List Buffer)
      → IsActive driver laws k st bufs
      → Unmoved driver laws k k'
      → IsActive driver laws k' st bufs
  IsActive-Unmoved k k' st bufs active same =
      IsActive-by k k' st bufs active
        (λ j h. active.in_range j (sym (same st.dev_fd st.buf_type j) ∙ h))

  pub IsActive-apart :
      (k k' : Kernel) (st su : DeviceStream) (i : ℕ) (v : Bool) (bufs : List Buffer)
      → same_stream st su ≡ false
      → Moves driver laws k st i v k'
      → IsActive driver laws k su bufs
      → IsActive driver laws k' su bufs
  IsActive-apart k k' st su i v bufs apart moves active =
      IsActive-by k k' su bufs active
        (λ j h. active.in_range j (sym (held_apart k k' st su i v apart moves j) ∙ h))

  pub IsActive-pushed :
      (k k' : Kernel) (st : DeviceStream) (i : ℕ) (bufs : List Buffer)
      → i < length bufs
      → Moves driver laws k st i true k'
      → IsActive driver laws k st bufs
      → IsActive driver laws k' st bufs
  IsActive-pushed k k' st i bufs lt moves active =
      IsActive-by k k' st bufs active
        (λ j h. ground (arith, held_moved k k' st i true moves j, active.in_range j))
