-- ===== src/Device/Bench.antt =====
-- A kernel in memory, which keeps the promises asked of a kernel: the witnesses run on it.
pub mod Streams
use malincam.Prelude.{
  ℕ, pos, zero, suc, ◌≢◌, ◌≡◌, ◌≤◌, ◌<◌, refl, sym, ap, Bool, true, false, ◌&&◌, List, [], ◌∷◌,
  ◌==◌, if◌then◌else◌, arith, length, ◌⊎◌, inl, inr, Bool-cases, Option, some, ltb,
}
use mathlib.Core.Path.{subst}
use malincam.Abi.{eio, eagain, einval}
use malincam.V4l2.{
  BufType, no_type, video_capture, video_output, video_capture_mplane, video_output_mplane, Plane,
  V4l2Buffer, offset, zero_rect, zero_format, Memory, mmap, dmabuf,
}
use malincam.Array.{Block}
use malincam.Device.{
  Buffer, BufferMemory, memory_dmabuf_export, memory_dmabuf_import, StreamState, streaming,
  DeviceStream,
}
use malincam.Device.Driver.{Driver, Reply, success, error}
use malincam.Device.Picture.{same_type}
use malincam.Device.Transfer.Promises.{
  LawsFor, Documented, NoEio, QueueLaws, Quiet, same_slot, IsLabelled,
}
use malincam.Device.Transfer.Laws.{IsActive}

-- Which buffers each queue holds, and which of them wait to be dequeued, in order.
pub record Bench : Type 0 where
  pub queued : ℕ → BufType → ℕ → Bool
  pub done_in : ℕ → BufType → List ℕ

abbrev pub same_queue : ℕ → BufType → ℕ → BufType → Bool
same_queue fd t fd' t' = fd == fd' && same_type t t'

-- Buffer `i` of a queue given out, with `rest` still waiting, and buffer `i` taken in.
abbrev pub give : Bench → ℕ → BufType → ℕ → List ℕ → Bench
give k fd t i rest = record {
  queued = λ fd' t' j. if same_slot fd t i fd' t' j then false else k.queued fd' t' j;
  done_in = λ fd' t'. if same_queue fd t fd' t' then rest else k.done_in fd' t';
}

abbrev pub take_in : Bench → ℕ → BufType → ℕ → Bench
take_in k fd t i = record k {
  queued = λ fd' t' j. if same_slot fd t i fd' t' j then true else k.queued fd' t' j;
}

abbrev pub give_out : Bench → ℕ → V4l2Buffer → List ℕ → Reply (V4l2Buffer × List Plane) × Bench
give_out k fd b [] = (error eagain, k)
give_out k fd b (i ∷ rest) =
    if k.queued fd b.buf_type i
    then (success (record b { index = i }, []), give k fd b.buf_type i rest)
    else (error eagain, k)

abbrev pub bench_dequeue : Bench → ℕ → V4l2Buffer → Reply (V4l2Buffer × List Plane) × Bench
bench_dequeue k fd b = give_out k fd b (k.done_in fd b.buf_type)

abbrev pub bench_enqueue : Bench → ℕ → Buffer → Reply (Unit {0}) × Bench
bench_enqueue k fd b =
    if k.queued fd b.buffer.buf_type b.buffer.index
    then (error einval, k)
    else (success tt, take_in k fd b.buffer.buf_type b.buffer.index)

abbrev pub bench : Driver
bench = record {
  Kernel = Bench;
  get_format = λ k fd fmt. (success fmt, k);
  set_format = λ k fd fmt. (success fmt, k);
  get_selection = λ k fd t target. (success zero_rect, k);
  set_selection = λ k fd t target rect. (success rect, k);
  request_buffers = λ k fd t mem n. (success (n, 1), k);
  query_buffer = λ k fd b. (success (record b { m = offset 0 }, []), k);
  dequeue = bench_dequeue;
  enqueue = bench_enqueue;
  export_buffer = λ k fd t i plane. (success (pos 5), k);
  map_memory = λ k fd len at. (success 4096, k);
  stream_on = λ k fd t. (success tt, k);
  stream_off = λ k fd t. (success tt, k);
}

-- What a dequeue does: give out the first buffer that waits, or nothing.
abbrev pub Given : Bench → ℕ → V4l2Buffer → Reply (V4l2Buffer × List Plane) × Bench → Type 0
Given k fd b r =
    (r ≡ (error eagain, k))
    ⊎ ((i : ℕ) × (rest : List ℕ) × (k.done_in fd b.buf_type ≡ i ∷ rest)
        × (k.queued fd b.buf_type i ≡ true)
        × (r ≡ (success (record b { index = i }, []), give k fd b.buf_type i rest)))

give_out-Given :
    (k : Bench) (fd : ℕ) (b : V4l2Buffer) (waiting : List ℕ)
    → k.done_in fd b.buf_type ≡ waiting
    → Given k fd b (give_out k fd b waiting)
give_out-Given k fd b [] h = inl refl
give_out-Given k fd b (i ∷ rest) h = elim (Bool-cases (k.queued fd b.buf_type i)) [
  | inl held ↦ inr (i, rest, h, held, rw held refl)
  | inr free ↦ inl (rw free refl)
]

dequeue-Given : (k : Bench) (fd : ℕ) (b : V4l2Buffer) → Given k fd b (bench_dequeue k fd b)
dequeue-Given k fd b = give_out-Given k fd b (k.done_in fd b.buf_type) refl

dequeue_success :
    (k : Bench) (fd : ℕ) (b c : V4l2Buffer) (ps : List Plane) (k' : Bench)
    → bench_dequeue k fd b ≡ (success (c, ps), k')
    → (i : ℕ) × (rest : List ℕ) × (k.done_in fd b.buf_type ≡ i ∷ rest)
      × (k.queued fd b.buf_type i ≡ true)
      × (c ≡ record b { index = i })
      × (k' ≡ give k fd b.buf_type i rest)
dequeue_success k fd b c ps k' h = elim (dequeue-Given k fd b) [
  | inl nothing ↦ absurd (cc (nothing, h))
  | inr (i, rest, waits, held, gives) ↦ (i, rest, waits, held, cc (gives, h), cc (gives, h))
]

pub dequeue_error :
    (k : Bench) (fd : ℕ) (b : V4l2Buffer) (e : ℕ) (k' : Bench)
    → bench_dequeue k fd b ≡ (error e, k')
    → k' ≡ k
dequeue_error k fd b e k' h = elim (dequeue-Given k fd b) [
  | inl nothing ↦ cc (nothing, h)
  | inr (i, rest, waits, held, gives) ↦ absurd (cc (gives, h))
]

enqueue-cases :
    (k : Bench) (fd : ℕ) (b : Buffer)
    → (bench_enqueue k fd b ≡ (error einval, k))
      ⊎ ((k.queued fd b.buffer.buf_type b.buffer.index ≡ false)
          × (bench_enqueue k fd b ≡ (success tt, take_in k fd b.buffer.buf_type b.buffer.index)))
enqueue-cases k fd b = elim (Bool-cases (k.queued fd b.buffer.buf_type b.buffer.index)) [
  | inl held ↦ inl (rw held refl)
  | inr free ↦ inr (free, rw free refl)
]

pub bench_laws-dequeued_was_queued :
    (k : Bench) (fd : ℕ) (b c : V4l2Buffer) (ps : List Plane) (k' : Bench)
    → bench_dequeue k fd b ≡ (success (c, ps), k')
    → (k.queued fd b.buf_type c.index ≡ true) × (c.buf_type ≡ b.buf_type)
bench_laws-dequeued_was_queued k fd b c ps k' h =
    let (i, rest, waits, held, same, after) = dequeue_success k fd b c ps k' h in
    (rw same held, ap (λ d. d.buf_type) same)

pub bench_laws-dequeued_is_gone :
    (k : Bench) (fd : ℕ) (b c : V4l2Buffer) (ps : List Plane) (k' : Bench)
    → bench_dequeue k fd b ≡ (success (c, ps), k')
    → (fd' : ℕ) (t : BufType) (i : ℕ)
    → k'.queued fd' t i
      ≡ (if same_slot fd b.buf_type c.index fd' t i then false else k.queued fd' t i)
bench_laws-dequeued_is_gone k fd b c ps k' h fd' t j =
    let (i, rest, waits, held, same, after) = dequeue_success k fd b c ps k' h in
    rw (after, same) refl

pub enqueue_success :
    (k : Bench) (fd : ℕ) (b : Buffer) (k' : Bench)
    → bench_enqueue k fd b ≡ (success tt, k')
    → (k.queued fd b.buffer.buf_type b.buffer.index ≡ false)
      × (k' ≡ take_in k fd b.buffer.buf_type b.buffer.index)
enqueue_success k fd b k' h = elim (enqueue-cases k fd b) [
  | inl refused ↦ absurd (cc (refused, h))
  | inr (free, takes) ↦ (free, cc (takes, h))
]

pub enqueue_error :
    (k : Bench) (fd : ℕ) (b : Buffer) (e : ℕ) (k' : Bench)
    → bench_enqueue k fd b ≡ (error e, k')
    → (e ≡ einval) × (k' ≡ k)
enqueue_error k fd b e k' h = elim (enqueue-cases k fd b) [
  | inl refused ↦ (cc (refused, h), cc (refused, h))
  | inr (free, takes) ↦ absurd (cc (takes, h))
]

abbrev pub bench_laws_for : (IsHarmless : ℕ → Type 0) → LawsFor bench IsHarmless
bench_laws_for IsHarmless = record {
  queued = λ k. k.queued;
  dequeued_was_queued = bench_laws-dequeued_was_queued;
  dequeued_is_gone = bench_laws-dequeued_is_gone;
  dequeue_failed =
      λ k fd b e k' h harmless fd' t i. ap (λ z. z.queued fd' t i) (dequeue_error k fd b e k' h);
  enqueued_was_free = λ k fd b k' h. (enqueue_success k fd b k' h).0;
  enqueued_is_held =
      λ k fd b k' h fd' t i. ap (λ z. z.queued fd' t i) (enqueue_success k fd b k' h).1;
  enqueue_errno = λ k fd b e k' h. rw (enqueue_error k fd b e k' h).0 (omega arith);
  enqueue_failed =
      λ k fd b e k' h fd' t i. ap (λ z. z.queued fd' t i) (enqueue_error k fd b e k' h).1;
}

abbrev pub bench_laws : QueueLaws bench
bench_laws = bench_laws_for (λ e. Unit {0})

abbrev pub bench_documented : Documented bench
bench_documented = bench_laws_for (λ e. e ≢ eio)

eagain-ne_eio : (e : ℕ) → e ≡ eagain → e ≢ eio
eagain-ne_eio e same other = omega arith

pub bench-NoEio : NoEio bench
bench-NoEio k fd b e k' h = elim (dequeue-Given k fd b) [
  | inl nothing ↦ eagain-ne_eio e (cc (nothing, h))
  | inr (i, rest, waits, held, gives) ↦ absurd (cc (gives, h))
]

same_type_self : (t : BufType) → same_type t t ≡ true
same_type_self no_type = refl
same_type_self video_capture = refl
same_type_self video_output = refl
same_type_self video_capture_mplane = refl
same_type_self video_output_mplane = refl

give-takes :
    (k : Bench) (fd : ℕ) (t : BufType) (i : ℕ) (rest : List ℕ)
    → (give k fd t i rest).done_in fd t ≡ rest
give-takes k fd t i rest = ground (arith, same_type_self t)

same_type-eq : (t u : BufType) → same_type t u ≡ true → t ≡ u
same_type-eq t u h = ground arith

give-adds_none :
    (k : Bench) (fd : ℕ) (t : BufType) (i : ℕ) (rest : List ℕ)
    → k.done_in fd t ≡ i ∷ rest
    → (fd' : ℕ) (u : BufType)
    → length ((give k fd t i rest).done_in fd' u) ≤ length (k.done_in fd' u)
give-adds_none k fd t i rest waits fd' u = elim (Bool-cases (same_queue fd t fd' u)) [
  | inr apart ↦ ground arith
  | inl same ↦
      let fds : fd ≡ fd' = ground arith in
      let types : t ≡ u = same_type-eq t u (ground arith) in
      let here : k.done_in fd' u ≡ i ∷ rest = rw (fds, types) at waits in ground arith
]

pub dequeue-adds_none :
    (k : Bench) (fd : ℕ) (b : V4l2Buffer) (fd' : ℕ) (t : BufType)
    → length ((bench_dequeue k fd b).1.done_in fd' t) ≤ length (k.done_in fd' t)
dequeue-adds_none k fd b fd' t = elim (dequeue-Given k fd b) [
  | inl nothing ↦
      subst (λ r. length (r.1.done_in fd' t) ≤ length (k.done_in fd' t)) (sym nothing) (omega arith)
  | inr (i, rest, waits, held, gives) ↦
      subst (λ r. length (r.1.done_in fd' t) ≤ length (k.done_in fd' t)) (sym gives)
        (give-adds_none k fd b.buf_type i rest waits fd' t)
]

pub enqueue-adds_none :
    (k : Bench) (fd : ℕ) (b : Buffer) (fd' : ℕ) (t : BufType)
    → length ((bench_enqueue k fd b).1.done_in fd' t) ≤ length (k.done_in fd' t)
enqueue-adds_none k fd b fd' t = elim (enqueue-cases k fd b) [
  | inl refused ↦
      subst (λ r. length (r.1.done_in fd' t) ≤ length (k.done_in fd' t)) (sym refused) (omega arith)
  | inr (free, takes) ↦
      subst (λ r. length (r.1.done_in fd' t) ≤ length (k.done_in fd' t)) (sym takes) (omega arith)
]

pub dequeue-takes :
    (k : Bench) (fd : ℕ) (b c : V4l2Buffer) (ps : List Plane) (k' : Bench)
    → bench_dequeue k fd b ≡ (success (c, ps), k')
    → length (k'.done_in fd b.buf_type) < length (k.done_in fd b.buf_type)
dequeue-takes k fd b c ps k' h =
    let (i, rest, waits, held, same, after) = dequeue_success k fd b c ps k' h in
    subst (λ z. length (z.done_in fd b.buf_type) < length (k.done_in fd b.buf_type)) (sym after)
      (omega (arith, ap length waits, ap length (give-takes k fd b.buf_type i rest)))

abbrev pub bench_quiet : Quiet bench
bench_quiet = record {
  ready = λ k fd t. length (k.done_in fd t);
  dequeue_takes = dequeue-takes;
  dequeue_adds_none = dequeue-adds_none;
  enqueue_adds_none = enqueue-adds_none;
}
