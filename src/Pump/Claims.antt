-- ===== src/Pump/Claims.antt =====
-- Who has which buffer, apart from streams and kernels: `hs` and `hd` say which buffers the kernel
-- holds for the source and the destination, `acquired` which source buffer each destination buffer
-- was filled from, `next` which source buffer waits in the pump.
use malincam.Prelude.{
  ℕ, ◌≡◌, sym, Bool, true, false, Option, none, some, ◌==◌, if◌then◌else◌, arith, ◌≢◌,
}
use mathlib.Core.Path.{fun_ext, subst₃}

abbrev pub is_some {ℓ} : {A : Type ℓ} → Option A → Bool
is_some none = false
is_some (some a) = true

abbrev pub update {ℓ} : {A : Type ℓ} → (ℕ → A) → ℕ → A → ℕ → A
update f i v j = if i == j then v else f j

-- A source buffer has one owner at most: the kernel, the pump, or one destination buffer. The
-- destination buffers that the kernel holds are those that were filled from a source buffer.
pub record Owned (hs hd : ℕ → Bool) (acquired : ℕ → Option ℕ) (next : Option ℕ) : Type 0 where
  pub acquired_held : (d : ℕ) → hd d ≡ is_some (acquired d)
  pub acquired_free : (d s : ℕ) → acquired d ≡ some s → hs s ≡ false
  pub next_free : (s : ℕ) → next ≡ some s → hs s ≡ false
  pub next_fresh : (d s : ℕ) → acquired d ≡ some s → next ≢ some s
  pub distinct : (d e s : ℕ) → acquired d ≡ some s → acquired e ≡ some s → d ≡ e

module _ {hs hd : ℕ → Bool} {acquired : ℕ → Option ℕ} {next : Option ℕ}
    (o : Owned hs hd acquired next) where
  -- The destination gives `d` back, and the source buffer it was filled from returns to the kernel.
  pub complete-Owned :
      (d s : ℕ)
      → acquired d ≡ some s
      → Owned (update hs s true) (update hd d false) (update acquired d none) next
  complete-Owned d s at = record {
    acquired_held = λ e. ground (arith, o.acquired_held e);
    acquired_free = λ e t h. ground (arith, o.acquired_free e t, o.distinct d e s);
    next_free = λ t h. ground (arith, o.next_free t h, o.next_fresh d s at);
    next_fresh = λ e t h. ground (arith, o.next_fresh e t);
    distinct = λ e f t h k. ground (arith, o.distinct e f t);
  }

  -- The same, where the source buffer does not return.
  pub complete_lost-Owned : (d : ℕ) → Owned hs (update hd d false) (update acquired d none) next
  complete_lost-Owned d = record {
    acquired_held = λ e. ground (arith, o.acquired_held e);
    acquired_free = λ e t h. ground (arith, o.acquired_free e t);
    next_free = o.next_free;
    next_fresh = λ e t h. ground (arith, o.next_fresh e t);
    distinct = λ e f t h k. ground (arith, o.distinct e f t);
  }

  -- The source gives `s` to the pump, which drops it again.
  pub take-Owned : (s : ℕ) → Owned (update hs s false) hd acquired next
  take-Owned s = record {
    acquired_held = o.acquired_held;
    acquired_free = λ e t h. ground (arith, o.acquired_free e t);
    next_free = λ t h. ground (arith, o.next_free t);
    next_fresh = o.next_fresh;
    distinct = o.distinct;
  }

  -- The source gives `s` to the pump, where it waits; the one that waited returns to the kernel.
  pub replace-Owned :
      (s t : ℕ)
      → hs s ≡ true
      → next ≡ some t
      → Owned (update (update hs s false) t true) hd acquired (some s)
  replace-Owned s t was at = record {
    acquired_held = o.acquired_held;
    acquired_free = λ e u h. ground (arith, o.acquired_free e u, o.next_fresh e u h);
    next_free = λ u h. ground (arith, o.next_free t at);
    next_fresh = λ e u h k. ground (arith, o.acquired_free e u h);
    distinct = o.distinct;
  }

  -- The same where none waited.
  pub wait-Owned : (s : ℕ) → hs s ≡ true → Owned (update hs s false) hd acquired (some s)
  wait-Owned s was = record {
    acquired_held = o.acquired_held;
    acquired_free = λ e u h. ground (arith, o.acquired_free e u);
    next_free = λ u h. ground arith;
    next_fresh = λ e u h k. ground (arith, o.acquired_free e u h);
    distinct = o.distinct;
  }

  -- The waiting buffer `s` fills `d`, which goes to the destination.
  pub fill-Owned :
      (s d : ℕ)
      → next ≡ some s
      → hd d ≡ false
      → Owned hs (update hd d true) (update acquired d (some s)) none
  fill-Owned s d at was = record {
    acquired_held = λ e. ground (arith, o.acquired_held e);
    acquired_free = λ e t h. ground (arith, o.acquired_free e t, o.next_free s at);
    next_free = λ t h. cc;
    next_fresh = λ e t h k. cc;
    distinct = λ e f t h k. ground (arith, o.distinct e f t, o.next_fresh e t, o.next_fresh f t);
  }

  -- A destination buffer that the kernel does not hold was filled from none.
  pub not_acquired : (d : ℕ) → hd d ≡ false → acquired d ≡ none
  not_acquired d h = ground (arith, o.acquired_held d)

  pub acquired_of_held : (d : ℕ) → hd d ≡ true → (s : ℕ) × (acquired d ≡ some s)
  acquired_of_held d h = ground (arith, o.acquired_held d)

-- The same claims over functions that agree.
pub Owned-ext :
    {hs hd hs' hd' : ℕ → Bool} {acquired acquired' : ℕ → Option ℕ} {next : Option ℕ}
    → Owned hs hd acquired next
    → ((i : ℕ) → hs' i ≡ hs i)
    → ((i : ℕ) → hd' i ≡ hd i)
    → ((i : ℕ) → acquired' i ≡ acquired i)
    → Owned hs' hd' acquired' next
Owned-ext {next = next} o es ed ea =
    subst₃ (λ a b c. Owned a b c next) (sym (fun_ext es)) (sym (fun_ext ed)) (sym (fun_ext ea)) o
