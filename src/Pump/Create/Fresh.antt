-- ===== src/Pump/Create/Fresh.antt =====
-- The pump that pumpCreate makes.
use malincam.Prelude.{
  ℕ, pos, zero, suc, ◌+◌, ◌%◌, ◌≡◌, ◌<◌, refl, sym, ap, ◌∙◌, false, Option, none, some, List, arith,
  length, get_elem?, get_or, set, replicate, length-set, length-replicate, get_elem?-set,
  get_elem?-set_ne,
}
use mathlib.Core.Path.{subst}
use native.Mathlib.Nat.{mod-eq_of_lt}
use native.Mathlib.Decide.{ℕ_discrete}
use malincam.Prelude.Outcome.{done}
use malincam.Array
use malincam.Array.{Array, Block, null, live, freed}
use malincam.Queue
use malincam.Queue.{Queue}
use malincam.Queue.Laws.{slots_of}
use malincam.Device.{Buffer, DeviceStream, planes_count}
use malincam.Pump.{PassFunc, Pump}
use malincam.Pump.Pass.{get_pass_func}
use malincam.Device.Driver.{Driver}
use malincam.Device.Transfer.Promises.{QueueLaws, same_stream}
use malincam.Device.Transfer.Laws.{IsActive, held}
use malincam.Pump.Ownership.{IsStocked, Inv, acquired_of}
use malincam.Pump.Create.{fill_available, create_with, pump_create, int_size}

-- A queue whose first `i` slots hold their own index.
record Filling (q : Queue ℕ) (i capacity : ℕ) : Type 0 where
  pub slots : List (Option ℕ)
  pub is_live : q.array.block ≡ live slots
  pub long : length slots ≡ capacity
  pub from_start : q.front ≡ 0
  pub sized : q.array.size ≡ i
  pub wide : q.array.capacity ≡ capacity
  pub numbered : (j : ℕ) → j < i → get_elem? slots j ≡ some (some j)

numbered-set :
    (slots : List (Option ℕ)) (i : ℕ)
    → i < length slots
    → ((j : ℕ) → j < i → get_elem? slots j ≡ some (some j))
    → (j : ℕ) → j < i + 1
    → get_elem? (set slots i (some i)) j ≡ some (some j)
numbered-set slots i inside numbered j lt = elim (ℕ_discrete i j) [
  | yes e ↦
      ap (get_elem? (set slots i (some i))) (sym e)
      ∙ (get_elem?-set slots i (some i) inside ∙ ap (λ n. some (some n)) e)
  | no ne ↦ get_elem?-set_ne slots (some i) ne ∙ numbered j (omega arith)
]

push-Filling :
    (q : Queue ℕ) (i capacity : ℕ)
    → Filling q i capacity
    → i < capacity
    → (r : Queue ℕ) × (Queue.push q i ≡ done (pos (i + 1), r)) × Filling r (i + 1) capacity
unfolding Queue.push
push-Filling q i capacity f room =
    let at_end : (q.front + q.array.size) % q.array.capacity ≡ i =
      rw (f.from_start, f.sized, f.wide)
        (ap (λ n. n % capacity) {x = 0 + i} {y = i} (omega arith) ∙ mod-eq_of_lt room) in
    (
      record q { array = record q.array { block = live (set f.slots i (some i)); size = i + 1 } },
      ground (arith, at_end, f.is_live, f.long, f.sized, f.wide),
      record {
        slots = set f.slots i (some i);
        is_live = refl;
        long = length-set f.slots i (some i) ∙ f.long;
        from_start = f.from_start;
        sized = refl;
        wide = f.wide;
        numbered = numbered-set f.slots i (omega (arith, f.long)) f.numbered;
      },
    )

fill-Filling :
    (n i capacity : ℕ) (q : Queue ℕ)
    → Filling q i capacity
    → i + n ≡ capacity
    → (r : Queue ℕ) × (fill_available q i n ≡ done r) × Filling r capacity capacity
unfolding fill_available
fill-Filling zero i capacity q f rest = (
  q,
  refl,
  record {
    slots = f.slots;
    is_live = f.is_live;
    long = f.long;
    from_start = f.from_start;
    sized = f.sized ∙ omega arith;
    wide = f.wide;
    numbered = λ j lt. f.numbered j (omega arith);
  },
)
fill-Filling (suc n) i capacity q f rest =
    let (r, pushes, g) = push-Filling q i capacity f (omega arith) in
    let (s, fills, h) = fill-Filling n (i + 1) capacity r g (omega arith) in (s, rw pushes fills, h)

init-Filling : (n : ℕ) → 0 < n → (q : Queue ℕ) × (Queue.init int_size n ≡ done q) × Filling q 0 n
unfolding Queue.init Array.reserve
init-Filling n some_room = (
  record {
    array = record {
      block = live (replicate n none);
      size = 0;
      capacity = n;
      item_size = int_size;
    };
    front = 0;
  },
  ground arith,
  record {
    slots = replicate n none;
    is_live = refl;
    long = length-replicate n none;
    from_start = refl;
    sized = refl;
    wide = refl;
    numbered = λ j lt. absurd (omega arith);
  },
)

Filling-IsStocked : (q : Queue ℕ) (n : ℕ) → 0 < n → Filling q n n → IsStocked q n
Filling-IsStocked q n some_room f = record {
  full = f.sized ∙ sym f.wide;
  front_in = omega (arith, f.from_start, f.wide);
  named = λ i lt. (
    i,
    ap (λ b. get_elem? (slots_of b) i) f.is_live ∙ f.numbered i (omega (arith, f.wide)),
    omega (arith, f.wide),
  );
}

none_acquired : (n d : ℕ) → get_or (replicate {A = Option ℕ} n none) d none ≡ none
none_acquired zero d = refl
none_acquired (suc n) zero = refl
none_acquired (suc n) (suc d) = none_acquired n d

-- `pumpCreate` for streams between which a way to pass buffers was found, with at least one buffer
-- at the destination, returns a pump: no buffer waits, no destination buffer is filled, and each is
-- available.
pub pump_create_lem :
    (src dst : DeviceStream) (func : PassFunc)
    → get_pass_func src dst ≡ some func
    → 0 < dst.buffers_count
    → (pump : Pump) × (pump_create src dst ≡ done (some pump))
      × (pump.pass_func ≡ func)
      × (pump.planes_count ≡ planes_count src)
      × (pump.next_in_queue ≡ none)
      × (length pump.acquired_to_source ≡ dst.buffers_count)
      × ((d : ℕ) → acquired_of pump d ≡ none)
      × IsStocked pump.available dst.buffers_count
unfolding pump_create create_with
pump_create_lem src dst func found some_room =
    let (empty, inits, f) = init-Filling dst.buffers_count some_room in
    let (available, fills, g) =
      fill-Filling dst.buffers_count 0 dst.buffers_count empty f (omega arith) in
    (
      record {
        next_in_queue = none;
        acquired_to_source = replicate dst.buffers_count none;
        available = available;
        pass_func = func;
        planes_count = planes_count src;
      },
      ground (arith, found, inits, fills),
      refl,
      refl,
      refl,
      length-replicate dst.buffers_count none,
      none_acquired dst.buffers_count,
      Filling-IsStocked available dst.buffers_count some_room g,
    )

-- `pumpCreate`, between two active streams that are two queues of a kernel which holds no buffer of
-- the destination, returns a pump that meets the invariant of `pumpPump`, if a way to pass buffers
-- was found.
pub pump_create-Inv :
    (driver : Driver) (laws : QueueLaws driver) (k : driver.Kernel) (src dst : DeviceStream)
    (sb db : List Buffer) (func : PassFunc)
    → get_pass_func src dst ≡ some func
    → IsActive driver laws k src sb
    → IsActive driver laws k dst db
    → same_stream src dst ≡ false
    → dst.buffers_count ≡ length db
    → ((d : ℕ) → held driver laws k dst d ≡ false)
    → (pump : Pump) × (pump_create src dst ≡ done (some pump))
      × (pump.pass_func ≡ func)
      × (pump.planes_count ≡ planes_count src)
      × Inv driver laws (record { kernel = k; src = src; dst = dst; pump = pump }) sb db
pump_create-Inv driver laws k src dst sb db func found src_active dst_active apart counted unheld =
    let (pump, makes, passes, planes, idle, long, unacquired, stocked) =
      pump_create_lem src dst func found (omega (arith, dst_active.nonempty)) in
    (
      pump,
      makes,
      passes,
      planes,
      record {
        src_active = src_active;
        dst_active = dst_active;
        apart = apart;
        owned = record {
          acquired_held = λ d. ground (arith, unheld d, unacquired d);
          acquired_free = λ d s at. absurd (ground (arith, unacquired d));
          next_free = λ s at. absurd (ground arith);
          next_fresh = λ d s at. absurd (ground (arith, unacquired d));
          distinct = λ d e s at at'. absurd (ground (arith, unacquired d));
        };
        mapped = long ∙ counted;
        acquired_in = λ d s at. absurd (ground (arith, unacquired d));
        next_in = λ s at. absurd (ground arith);
        stocked = subst (IsStocked pump.available) counted stocked;
      },
    )
