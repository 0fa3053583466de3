-- ===== src/Pump/Ownership/Take.antt =====
-- Pulling from the source, and filling a destination buffer, keep the invariant.
use malincam.Prelude.{
  ℕ, true, false, none, some, List, set, ◌≡◌, ◌<◌, refl, sym, ◌∙◌, length, arith, length-set,
  get_elem?,
}
use mathlib.Core.Path.{subst}
use malincam.Device.{Buffer, DeviceStream}
use malincam.Device.Driver.{Driver}
use malincam.Device.Transfer.Promises.{QueueLaws, IsLabelled}
use malincam.Device.Transfer.Laws.{IsActive, set-IsLabelled, held, Moves, Unmoved}
use malincam.Queue
use malincam.Queue.Laws.{slots_of, array-pop}
use malincam.Queue.{Queue}
use malincam.Pump.Claims.{Owned-ext, update, take-Owned, replace-Owned, wait-Owned, fill-Owned}
use malincam.Pump.Cycle.{Env}
use malincam.Pump.Ownership.{
  IsStocked, Inv, held_moved, held_apart, IsActive-Unmoved, IsActive-apart, IsActive-pushed,
  acquired-set, same_stream_symm,
}
use malincam.Pump.Ownership.Steps.{with_buffers, IsActive-pulled}

-- Popping the stocked queue moves its front, and leaves it stocked.
pub pop-IsStocked : (q : Queue ℕ) (n : ℕ) → IsStocked q n → IsStocked (Queue.pop q).1 n
unfolding Queue.pop
pop-IsStocked q n stocked = record {
  full = ground (arith, stocked.full);
  front_in = ground (arith, stocked.front_in);
  named =
      subst
        (λ a.
          (i : ℕ)
          → i < a.capacity
          → (d : ℕ) × (get_elem? (slots_of a.block) i ≡ some (some d)) × (d < n))
        (sym (array-pop q)) stocked.named;
}

module _ (driver : Driver) (laws : QueueLaws driver) where
  open driver use {Kernel}

  module _ (e : Env driver) (sb db : List Buffer) (inv : Inv driver laws e sb db) where
    module _ (i : ℕ) (k : Kernel) (sb' : List Buffer)
        (moves : Moves driver laws e.kernel e.src i false k) (len : length sb' ≡ length sb)
        (labelled : IsLabelled e.src sb') (was : held driver laws e.kernel e.src i ≡ true) where
      abbrev pub src' : DeviceStream
      src' = with_buffers e.src sb'

      pub src_pulled : IsActive driver laws k src' sb'
      src_pulled =
          IsActive-pulled driver laws e.kernel k e.src i sb sb' inv.src_active moves len labelled

      dst_kept : IsActive driver laws k e.dst db
      dst_kept =
          IsActive-apart driver laws e.kernel k e.src e.dst i false db inv.apart moves
            inv.dst_active

      inside : i < length sb'
      inside = omega (arith, len, inv.src_active.in_range i was)

      dst_held : (j : ℕ) → held driver laws k e.dst j ≡ held driver laws e.kernel e.dst j
      dst_held j = held_apart driver laws e.kernel k e.src e.dst i false inv.apart moves j

      src_held :
          (j : ℕ) → held driver laws k e.src j ≡ update (held driver laws e.kernel e.src) i false j
      src_held j = held_moved driver laws e.kernel k e.src i false moves j

      -- None was waiting: the pulled buffer waits.
      pub waits-Inv :
          Inv driver laws
            (record e { kernel = k; src = src'; pump = record e.pump { next_in_queue = some i } })
            sb'
            db
      waits-Inv = record {
        src_active = src_pulled;
        dst_active = dst_kept;
        apart = inv.apart;
        owned = Owned-ext (wait-Owned inv.owned i was) src_held dst_held (λ j. refl);
        mapped = inv.mapped;
        acquired_in = λ d s h. omega (arith, len, inv.acquired_in d s h);
        next_in = λ s h. ground (arith, inside);
        stocked = inv.stocked;
      }

      -- The one that waited went back to the source.
      pub replaces-Inv :
          (t : ℕ) (k' : Kernel)
          → e.pump.next_in_queue ≡ some t
          → Moves driver laws k e.src t true k'
          → Inv driver laws
              (record e {
                kernel = k';
                src = src';
                pump = record e.pump { next_in_queue = some i };
              })
              sb'
              db
      replaces-Inv t k' at back = record {
        src_active =
            IsActive-pushed driver laws k k' src' t sb' (omega (arith, len, inv.next_in t at)) back
              src_pulled;
        dst_active = IsActive-apart driver laws k k' e.src e.dst t true db inv.apart back dst_kept;
        apart = inv.apart;
        owned =
            Owned-ext (replace-Owned inv.owned i t was at)
              (λ j. ground (arith, held_moved driver laws k k' e.src t true back j, src_held j))
              (λ j. held_apart driver laws k k' e.src e.dst t true inv.apart back j ∙ dst_held j)
              (λ j. refl);
        mapped = inv.mapped;
        acquired_in = λ d s h. omega (arith, len, inv.acquired_in d s h);
        next_in = λ s h. ground (arith, inside);
        stocked = inv.stocked;
      }

      -- The source refused the one that waited, which goes on waiting.
      pub refused-Inv :
          (k' : Kernel)
          → Unmoved driver laws k k'
          → Inv driver laws (record e { kernel = k'; src = src' }) sb' db
      refused-Inv k' same = record {
        src_active = IsActive-Unmoved driver laws k k' src' sb' src_pulled same;
        dst_active = IsActive-Unmoved driver laws k k' e.dst db dst_kept same;
        apart = inv.apart;
        owned =
            Owned-ext (take-Owned inv.owned i)
              (λ j. same e.src.dev_fd e.src.buf_type j ∙ src_held j)
              (λ j. same e.dst.dev_fd e.dst.buf_type j ∙ dst_held j) (λ j. refl);
        mapped = inv.mapped;
        acquired_in = λ d s h. omega (arith, len, inv.acquired_in d s h);
        next_in = λ s h. omega (arith, len, inv.next_in s h);
        stocked = inv.stocked;
      }

    module _ (d : ℕ) (dbuf : Buffer)
        (label : (dbuf.buffer.index ≡ d) × (dbuf.buffer.buf_type ≡ e.dst.buf_type)) where
      abbrev pub filled : List Buffer
      filled = set db d dbuf

      -- A destination buffer is written.
      pub written-Inv : Inv driver laws (record e { dst = with_buffers e.dst filled }) sb filled
      written-Inv = record {
        src_active = inv.src_active;
        dst_active = record {
          has_buffers = refl;
          nonempty = omega (arith, length-set db d dbuf, inv.dst_active.nonempty);
          labelled = set-IsLabelled e.dst db d dbuf inv.dst_active.labelled label;
          in_range = λ j h. omega (arith, length-set db d dbuf, inv.dst_active.in_range j h);
        };
        apart = inv.apart;
        owned = inv.owned;
        mapped = omega (arith, length-set db d dbuf, inv.mapped);
        acquired_in = inv.acquired_in;
        next_in = inv.next_in;
        stocked = subst (IsStocked e.pump.available) (sym (length-set db d dbuf)) inv.stocked;
      }

    -- The destination took buffer `d`, filled from the waiting `s`.
    pub taken-Inv :
        (s d : ℕ) (k : Kernel)
        → e.pump.next_in_queue ≡ some s
        → d < length db
        → held driver laws e.kernel e.dst d ≡ false
        → Moves driver laws e.kernel e.dst d true k
        → Inv driver laws
            (record e {
              kernel = k;
              pump = record e.pump {
                acquired_to_source = set e.pump.acquired_to_source d (some s);
                next_in_queue = none;
                available = (Queue.pop e.pump.available).1;
              };
            })
            sb
            db
    taken-Inv s d k at inside free moves =
        let other = same_stream_symm e.dst e.src ∙ inv.apart in
        let entry = acquired-set e.pump.acquired_to_source d (some s) (omega (arith, inv.mapped)) in
        record {
          src_active =
              IsActive-apart driver laws e.kernel k e.dst e.src d true sb other moves
                inv.src_active;
          dst_active =
              IsActive-pushed driver laws e.kernel k e.dst d db inside moves inv.dst_active;
          apart = inv.apart;
          owned =
              Owned-ext (fill-Owned inv.owned s d at free)
                (λ j. held_apart driver laws e.kernel k e.dst e.src d true other moves j)
                (λ j. held_moved driver laws e.kernel k e.dst d true moves j) entry;
          mapped = omega (arith, length-set e.pump.acquired_to_source d (some s), inv.mapped);
          acquired_in = λ j t h. ground (arith, entry j, inv.acquired_in j t, inv.next_in s at);
          next_in = λ t h. cc;
          stocked = pop-IsStocked e.pump.available (length db) inv.stocked;
        }
