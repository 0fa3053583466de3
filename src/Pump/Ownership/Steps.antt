-- ===== src/Pump/Ownership/Steps.antt =====
-- Each way in which `pumpPump` moves buffers keeps the invariant.

use malincam.Prelude.{
  ℕ, true, false, none, some, List, set, ◌≡◌, ◌<◌, refl, sym, ◌∙◌, length, arith, length-set,
}
use mathlib.Core.Path.{subst}
use malincam.Device.{Buffer, DeviceStream}
use malincam.Device.Driver.{Driver}
use malincam.Device.Transfer.Promises.{QueueLaws, IsLabelled, same_stream}
use malincam.Device.Transfer.Laws.{IsActive, Moves, Unmoved}
use malincam.Pump.{Pump}
use malincam.Pump.Claims.{Owned-ext, update, complete-Owned, complete_lost-Owned}
use malincam.Pump.Cycle.{Env}
use malincam.Pump.Ownership.{
  acquired_of, IsStocked, Inv, held_moved, held_apart, IsActive-Unmoved, IsActive-apart,
  IsActive-pushed, acquired-set, same_stream_symm,
}

abbrev pub with_buffers : DeviceStream → List Buffer → DeviceStream
with_buffers st bufs = record st { buffers = some bufs }

-- The pump after its destination buffer `i` was pulled.
abbrev pub cleared : Pump → ℕ → Pump
cleared pump i = record pump { acquired_to_source = set pump.acquired_to_source i none }

module _ (driver : Driver) (laws : QueueLaws driver) where
  open driver use {Kernel}

  pub IsActive-pulled :
      (k k' : Kernel) (st : DeviceStream) (i : ℕ) (bufs bufs' : List Buffer)
      → IsActive driver laws k st bufs
      → Moves driver laws k st i false k'
      → length bufs' ≡ length bufs
      → IsLabelled st bufs'
      → IsActive driver laws k' (with_buffers st bufs') bufs'
  IsActive-pulled k k' st i bufs bufs' active moves len labelled = record {
    has_buffers = refl;
    nonempty = omega (arith, active.nonempty);
    labelled = labelled;
    in_range =
        λ j h. ground (arith, held_moved driver laws k k' st i false moves j, active.in_range j);
  }

  module _ (e : Env driver) (sb db : List Buffer) (inv : Inv driver laws e sb db) where
    other_way : same_stream e.dst e.src ≡ false
    other_way = same_stream_symm e.dst e.src ∙ inv.apart

    -- The kernel moved nothing.
    pub Unmoved-Inv :
        (k : Kernel)
        → Unmoved driver laws e.kernel k
        → Inv driver laws (record e { kernel = k }) sb db
    Unmoved-Inv k same = record {
      src_active = IsActive-Unmoved driver laws e.kernel k e.src sb inv.src_active same;
      dst_active = IsActive-Unmoved driver laws e.kernel k e.dst db inv.dst_active same;
      apart = inv.apart;
      owned =
          Owned-ext inv.owned (λ j. same e.src.dev_fd e.src.buf_type j)
            (λ j. same e.dst.dev_fd e.dst.buf_type j) (λ j. refl);
      mapped = inv.mapped;
      acquired_in = inv.acquired_in;
      next_in = inv.next_in;
      stocked = inv.stocked;
    }

    module _ (i : ℕ) (k : Kernel) (db' : List Buffer)
        (moves : Moves driver laws e.kernel e.dst i false k) (len : length db' ≡ length db)
        (labelled : IsLabelled e.dst db') (inside : i < length db) where
      clear-acquired :
          (j : ℕ) → acquired_of (cleared e.pump i) j ≡ update (acquired_of e.pump) i none j
      clear-acquired j = acquired-set e.pump.acquired_to_source i none (omega (arith, inv.mapped)) j

      -- The source buffer of the pulled one went back to the source.
      pub returned-Inv :
          (s : ℕ) (k' : Kernel)
          → acquired_of e.pump i ≡ some s
          → Moves driver laws k e.src s true k'
          → Inv driver laws
              (record e { kernel = k'; dst = with_buffers e.dst db'; pump = cleared e.pump i })
              sb
              db'
      returned-Inv s k' at back = record {
        src_active = IsActive-pushed driver laws k k' e.src s sb (inv.acquired_in i s at) back (
            IsActive-apart driver laws e.kernel k e.dst e.src i false sb other_way moves
              inv.src_active);
        dst_active =
            IsActive-apart driver laws k k' e.src (with_buffers e.dst db') s true db' inv.apart back
              (IsActive-pulled e.kernel k e.dst i db db' inv.dst_active moves len labelled);
        apart = inv.apart;
        owned =
            Owned-ext (complete-Owned inv.owned i s at)
              (λ j. ground (
                arith,
                held_moved driver laws k k' e.src s true back j,
                held_apart driver laws e.kernel k e.dst e.src i false other_way moves j,
              ))
              (λ j. ground (
                arith,
                held_apart driver laws k k' e.src e.dst s true inv.apart back j,
                held_moved driver laws e.kernel k e.dst i false moves j,
              ))
              clear-acquired;
        mapped = omega (arith, length-set e.pump.acquired_to_source i none, inv.mapped);
        acquired_in = λ d t h. ground (arith, clear-acquired d, inv.acquired_in d t);
        next_in = inv.next_in;
        stocked = subst (IsStocked e.pump.available) (sym len) inv.stocked;
      }

      -- The source refused it.
      pub lost-Inv :
          (k' : Kernel)
          → Unmoved driver laws k k'
          → Inv driver laws
              (record e { kernel = k'; dst = with_buffers e.dst db'; pump = cleared e.pump i })
              sb
              db'
      lost-Inv k' same = record {
        src_active =
            IsActive-Unmoved driver laws k k' e.src sb
              (IsActive-apart driver laws e.kernel k e.dst e.src i false sb other_way moves
                inv.src_active)
              same;
        dst_active =
            IsActive-Unmoved driver laws k k' (with_buffers e.dst db') db'
              (IsActive-pulled e.kernel k e.dst i db db' inv.dst_active moves len labelled) same;
        apart = inv.apart;
        owned =
            Owned-ext (complete_lost-Owned inv.owned i)
              (λ j. ground (
                arith,
                same e.src.dev_fd e.src.buf_type j,
                held_apart driver laws e.kernel k e.dst e.src i false other_way moves j,
              ))
              (λ j. ground (
                arith,
                same e.dst.dev_fd e.dst.buf_type j,
                held_moved driver laws e.kernel k e.dst i false moves j,
              ))
              clear-acquired;
        mapped = omega (arith, length-set e.pump.acquired_to_source i none, inv.mapped);
        acquired_in = λ d t h. ground (arith, clear-acquired d, inv.acquired_in d t);
        next_in = inv.next_in;
        stocked = subst (IsStocked e.pump.available) (sym len) inv.stocked;
      }
