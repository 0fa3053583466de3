-- ===== src/Device/Transfer/Laws.antt =====
-- What deviceStreamPullBuffer and deviceStreamPushBuffer do with the buffers that the kernel holds.
use malincam.Prelude.{
  ℕ, ℤ, pos, Bool, true, false, Option, none, some, List, if◌then◌else◌, get_elem?, set, ◌≡◌,
  length, ◌<◌, ◌≤◌, arith, refl, length-set, get_elem?-set, get_elem?-set_ne, get_elem?_of_lt,
  lt_of_get_elem?, inl, inr, ◌⊎◌, sym, ◌∙◌,
}
use malincam.Prelude.Outcome.{done}
use malincam.V4l2.{BufType, Memory, Plane, V4l2Buffer}
use malincam.Device.{Buffer, DeviceStream}
use malincam.Device.Driver.{Driver, Reply, success, error, Reply-cases}
use mathlib.Core.Path.{subst}
use native.Mathlib.Decide.{ℕ_discrete}
use malincam.Device.Transfer.{
  dequeue_request, refresh, receive, device_stream_pull_buffer, device_stream_push_buffer,
}
use malincam.Device.Transfer.Promises.{QueueLaws, Quiet, Lighter, same_slot, IsLabelled}

request-type : (st : DeviceStream) (m : Memory) → (dequeue_request st m).buf_type ≡ st.buf_type
unfolding dequeue_request
request-type st m = ground arith

refresh-labels :
    (st : DeviceStream) (old : Buffer) (b : V4l2Buffer) (ps : List Plane)
    → ((refresh st old b ps).buffer.index ≡ b.index)
      × ((refresh st old b ps).buffer.buf_type ≡ b.buf_type)
unfolding refresh
refresh-labels st old b ps = ground arith

pub set-IsLabelled :
    (st : DeviceStream) (bufs : List Buffer) (i : ℕ) (b : Buffer)
    → IsLabelled st bufs
    → (b.buffer.index ≡ i) × (b.buffer.buf_type ≡ st.buf_type)
    → IsLabelled st (set bufs i b)
set-IsLabelled st bufs i b all new j c at = elim (ℕ_discrete i j) [
  | yes e ↦
      let lt : j < length bufs =
        omega (arith, lt_of_get_elem? (set bufs i b) j at, length-set bufs i b) in
      let here : get_elem? (set bufs j b) j ≡ some b = get_elem?-set bufs j b lt in
      let same : c ≡ b = cc (here, at, e) in (cc (new.0, same, e), cc (new.1, same))
  | no ne ↦ all j c (sym (get_elem?-set_ne bufs b ne) ∙ at)
]

module _ (driver : Driver) (laws : QueueLaws driver) where
  open driver use {Kernel, enqueue, dequeue}
  open laws use {
    queued, dequeued_was_queued, dequeued_is_gone, dequeue_failed, enqueued_was_free,
    enqueued_is_held, enqueue_errno, enqueue_failed,
  }

  abbrev pub held : Kernel → DeviceStream → ℕ → Bool
  held k st i = queued k st.dev_fd st.buf_type i

  -- A stream with buffers, and a kernel that holds none but those.
  pub record IsActive (k : Kernel) (st : DeviceStream) (bufs : List Buffer) : Type 0 where
    pub has_buffers : st.buffers ≡ some bufs
    pub nonempty : 0 < length bufs
    pub labelled : IsLabelled st bufs
    pub in_range : (i : ℕ) → held k st i ≡ true → i < length bufs

  -- Buffer `i` of the stream changed hands, and nothing else did.
  abbrev pub Moves : Kernel → DeviceStream → ℕ → Bool → Kernel → Type 0
  Moves k st i now k' =
      (fd : ℕ) (t : BufType) (j : ℕ)
      → queued k' fd t j
        ≡ (if same_slot st.dev_fd st.buf_type i fd t j then now else queued k fd t j)

  abbrev pub Unmoved : Kernel → Kernel → Type 0
  Unmoved k k' = (fd : ℕ) (t : BufType) (j : ℕ) → queued k' fd t j ≡ queued k fd t j

  -- What a pull may do: nothing, or take a buffer that the kernel held.
  abbrev pub Pulled :
      Kernel → DeviceStream → List Buffer → Option ℕ × Kernel × DeviceStream → Type 0
  Pulled k st bufs r =
      (r.0 ≡ none) × Unmoved k r.1 × (r.2 ≡ st) × Lighter driver k r.1
      ⊎ ((i : ℕ) × (bufs' : List Buffer) × (r.0 ≡ some i)
          × (held k st i ≡ true)
          × Moves k st i false r.1
          × (r.2 ≡ record st { buffers = some bufs' })
          × (length bufs' ≡ length bufs)
          × IsLabelled st bufs'
          × Lighter driver k r.1
          × ((q : Quiet driver)
              → q.ready r.1 st.dev_fd st.buf_type < q.ready k st.dev_fd st.buf_type))

  pull_step :
      (k : Kernel) (st : DeviceStream) (bufs : List Buffer) (first : Buffer)
      → st.buffers ≡ some bufs
      → get_elem? bufs 0 ≡ some first
      → device_stream_pull_buffer driver k st
        ≡ receive driver st bufs
            (dequeue k st.dev_fd (dequeue_request st first.buffer.memory)).0
            (dequeue k st.dev_fd (dequeue_request st first.buffer.memory)).1
  unfolding device_stream_pull_buffer
  pull_step k st bufs first has at = ground arith

  lighter :
      (k : Kernel) (st : DeviceStream) (request : V4l2Buffer) (k' : Kernel)
      (reply : Reply (V4l2Buffer × List Plane))
      → dequeue k st.dev_fd request ≡ (reply, k')
      → Lighter driver k k'
  lighter k st request k' reply call q fd t =
      subst (λ p. q.ready p.1 fd t ≤ q.ready k fd t) call
        (q.dequeue_adds_none k st.dev_fd request fd t)

  receive_lem :
      (k : Kernel) (st : DeviceStream) (bufs : List Buffer) (request : V4l2Buffer)
      → IsActive k st bufs
      → request.buf_type ≡ st.buf_type
      → (reply : Reply (V4l2Buffer × List Plane)) (k' : Kernel)
      → dequeue k st.dev_fd request ≡ (reply, k')
      → (r : Option ℕ × Kernel × DeviceStream) × (receive driver st bufs reply k' ≡ done r)
        × Pulled k st bufs r
  unfolding receive
  receive_lem k st bufs request active type (error e) k' call = (
    (none, k', st),
    refl,
    inl (
      refl,
      dequeue_failed k st.dev_fd request e k' call tt,
      refl,
      lighter k st request k' (error e) call,
    ),
  )
  receive_lem k st bufs request active type (success (b, ps)) k' call =
      let (was, kind) = dequeued_was_queued k st.dev_fd request b ps k' call in
      let gone = dequeued_is_gone k st.dev_fd request b ps k' call in
      let was' : held k st b.index ≡ true = rw type at was in
      let (old, at) = get_elem?_of_lt bufs b.index (active.in_range b.index was') in
      let fresh = refresh st old b ps in
      let (index, label) = refresh-labels st old b ps in
      (
        (some b.index, k', record st { buffers = some (set bufs b.index fresh) }),
        rw (at, receive),
        inr (
          b.index,
          set bufs b.index fresh,
          refl,
          was',
          rw type at gone,
          refl,
          length-set bufs b.index fresh,
          set-IsLabelled st bufs b.index fresh active.labelled (index, label ∙ (kind ∙ type)),
          lighter k st request k' (success (b, ps)) call,
          λ q. rw type at (q.dequeue_takes k st.dev_fd request b ps k' call),
        ),
      )

  -- `deviceStreamPullBuffer` on an active stream returns; it follows no pointer out of the stream's
  -- buffers; and it hands out a buffer only if the kernel held it, and then the kernel holds it no
  -- more, every other buffer stays where it is, and the stream changes in its buffers alone.
  pub device_stream_pull_buffer_lem :
      (k : Kernel) (st : DeviceStream) (bufs : List Buffer)
      → IsActive k st bufs
      → (r : Option ℕ × Kernel × DeviceStream) × (device_stream_pull_buffer driver k st ≡ done r)
        × Pulled k st bufs r
  device_stream_pull_buffer_lem k st bufs active =
      let (first, at) = get_elem?_of_lt bufs 0 active.nonempty in
      let request = dequeue_request st first.buffer.memory in
      let (reply, k') = dequeue k st.dev_fd request in
      let (r, runs, pulled) =
        receive_lem k st bufs request active (request-type st first.buffer.memory) reply k' refl in
      (r, pull_step k st bufs first active.has_buffers at ∙ runs, pulled)

  -- What a push may do: give the kernel a buffer that it did not hold, or nothing.
  abbrev pub Pushed : Kernel → DeviceStream → ℕ → ℤ × Kernel → Type 0
  Pushed k st i r =
      Lighter driver k r.1
      × ((r.0 ≡ pos 0) × (held k st i ≡ false) × Moves k st i true r.1
          ⊎ ((errno : ℕ) × (r.0 ≡ pos errno) × (0 < errno) × Unmoved k r.1))

  -- `deviceStreamPushBuffer` of a buffer of an active stream returns; 0 means that the kernel did
  -- not hold the buffer and now does, with all others where they were; an errno, that nothing
  -- moved.
  pub device_stream_push_buffer_lem :
      (k : Kernel) (st : DeviceStream) (bufs : List Buffer) (i : ℕ)
      → IsActive k st bufs
      → i < length bufs
      → (r : ℤ × Kernel) × (device_stream_push_buffer driver k st i ≡ done r) × Pushed k st i r
  unfolding device_stream_push_buffer
  device_stream_push_buffer_lem k st bufs i active lt =
      let (buf, at) = get_elem?_of_lt bufs i lt in
      let (index, type) = active.labelled i buf at in
      elim (Reply-cases (enqueue k st.dev_fd buf).0) [
        | inl (e, failed) ↦ (
          (pos e, (enqueue k st.dev_fd buf).1),
          ground (arith, active.has_buffers),
          (
            λ q. q.enqueue_adds_none k st.dev_fd buf,
            inr (
              e,
              refl,
              enqueue_errno k st.dev_fd buf e _ (λ i. (failed i, (enqueue k st.dev_fd buf).1)),
              enqueue_failed k st.dev_fd buf e _ (λ i. (failed i, (enqueue k st.dev_fd buf).1)),
            ),
          ),
        )
        | inr (u, taken) ↦
            let call : enqueue k st.dev_fd buf ≡ (success tt, (enqueue k st.dev_fd buf).1) =
              λ i. (taken i, (enqueue k st.dev_fd buf).1) in
            (
              (pos 0, (enqueue k st.dev_fd buf).1),
              ground (arith, active.has_buffers),
              (
                λ q. q.enqueue_adds_none k st.dev_fd buf,
                inl (
                  refl,
                  rw (index, type) at (enqueued_was_free k st.dev_fd buf _ call),
                  rw (index, type) at (enqueued_is_held k st.dev_fd buf _ call),
                ),
              ),
            )
      ]
