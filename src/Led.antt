-- ===== src/Led.antt =====
-- Led.c: the LED that blinks while the camera streams.
mod Tests
use malincam.Prelude.{
  ℕ, ℤ, pos, negsuc, zero, suc, ◌⊎◌, inl, inr, is_zero, ◌/◌, bit_and, ◌≡◌, ◌≢◌, refl, sym, ap, Bool,
  true, false, List, [], ◌∷◌, ◌==◌, if◌then◌else◌, arith,
}
use mathlib.Core.Path.{subst}
use native.Mathlib.Decide.{ℕ_discrete}

-- The file system, a parameter: `open` of the LED's brightness for writing, `write` and `close`.
pub record Sysfs (Kernel : Type 0) : Type 0 where
  pub open_brightness : Kernel → ℤ × Kernel
  pub write : Kernel → ℤ → List ℕ → ℤ × Kernel
  pub close : Kernel → ℤ → Kernel

-- The static `g`, and the system it writes to.
pub record Led (Kernel : Type 0) : Type 0 where
  pub enabled : ℕ
  pub on : ℕ
  pub kernel : Kernel

-- `g_led_on` and `g_led_off`, in ASCII
abbrev pub led_on : List ℕ
led_on = 50 ∷ 53 ∷ 53 ∷ []

abbrev pub led_off : List ℕ
led_off = 48 ∷ []

-- The text in the brightness file, "0" or "255", for the LED off or on.
abbrev pub brightness_text : ℕ → List ℕ
brightness_text zero = 48 ∷ []
brightness_text (suc n) = 50 ∷ 53 ∷ 53 ∷ []

-- LED_BLINK_PERIOD_MS
abbrev pub blink_period_ms : ℕ
blink_period_ms = 500

ℤ-cases : (z : ℤ) → (z ≡ pos 0) ⊎ ((z ≢ pos 0) × (is_zero z ≡ false))
ℤ-cases (pos zero) = inl refl
ℤ-cases (pos (suc n)) = inr (ground arith, refl)
ℤ-cases (negsuc n) = inr (ground arith, refl)

module _ (Kernel : Type 0) (sysfs : Sysfs Kernel) where
  open sysfs use {open_brightness, write, close}

  -- The write of `ledUpdate`; its failure is only logged.
  unfoldable pub write_brightness : Kernel → ℕ → Kernel
  write_brightness k on =
      let (fd, k1) = open_brightness k in
      if is_zero fd
      then k1
      else let (len, k2) = write k1 fd (if on == 0 then led_off else led_on) in close k2 fd

  -- `ledUpdate`
  unfoldable pub update : Led Kernel → ℕ → Led Kernel
  unfolding write_brightness
  update g on =
      if on == g.on then g else record g { on = on; kernel = write_brightness g.kernel on }

  -- `ledBlinkEnable`
  unfoldable pub blink_enable : Led Kernel → ℕ → Led Kernel
  unfolding update
  blink_enable g enabled = record (update g (if enabled == 0 then 1 else 0)) { enabled = enabled }

  -- `ledBlinkUpdate`
  unfoldable pub blink_update : Led Kernel → ℕ → Led Kernel
  unfolding update
  blink_update g now_ms =
      if g.enabled == 0 then g else update g (bit_and (now_ms / blink_period_ms) 1)

  -- The kernel after the brightness has been opened and, if that gave a descriptor other than 0,
  -- written and closed.
  abbrev pub Wrote : Kernel → List ℕ → Kernel → Type 0
  Wrote k bytes k' =
      let (fd, k1) = open_brightness k in
      ((fd ≡ pos 0) × (k' ≡ k1)) ⊎ ((fd ≢ pos 0) × (k' ≡ close (write k1 fd bytes).1 fd))

  -- The LED is set to a state: nothing is written if the flag says so already, and else the file's
  -- text for it.
  abbrev pub SetTo : ℕ → Led Kernel → Led Kernel → Type 0
  SetTo state g g' =
      (g'.on ≡ state)
      × ((g.on ≡ state) × (g'.kernel ≡ g.kernel)
          ⊎ ((g.on ≢ state) × Wrote g.kernel (brightness_text state) g'.kernel))

  write_brightness-Wrote :
      (k : Kernel) (on : ℕ) → Wrote k (brightness_text on) (write_brightness k on)
  unfolding write_brightness
  write_brightness-Wrote k zero = elim (ℤ-cases (open_brightness k).0) [
    | inl none_left ↦ inl (none_left, ground (arith, none_left))
    | inr (other, given) ↦ inr (other, ground (arith, given))
  ]
  write_brightness-Wrote k (suc n) = elim (ℤ-cases (open_brightness k).0) [
    | inl none_left ↦ inl (none_left, ground (arith, none_left))
    | inr (other, given) ↦ inr (other, ground (arith, given))
  ]

  update-SetTo : (g : Led Kernel) (on : ℕ) → SetTo on g (update g on)
  unfolding update
  update-SetTo g on = elim (ℕ_discrete on g.on) [
    | yes same ↦ (ground arith, inl (sym same, ground arith))
    | no other ↦
        let writes : update g on ≡ record g { on = on; kernel = write_brightness g.kernel on } =
          ground arith in
        (
          ap (λ w. w.on) writes,
          inr (
            (λ same. other (sym same)),
            subst (Wrote g.kernel (brightness_text on)) (sym (ap (λ w. w.kernel) writes))
                (write_brightness-Wrote g.kernel on),
          ),
        )
  ]

  -- While blinking is on, `ledBlinkUpdate` sets the LED as the half period of the clock says, by
  -- writing "255" or "0" if it was not so set, and any further call within that half period writes
  -- nothing.
  pub blink_update_twice :
      (g : Led Kernel) (now later : ℕ)
      → g.enabled ≢ 0
      → now / blink_period_ms ≡ later / blink_period_ms
      → SetTo (bit_and (later / blink_period_ms) 1) g (blink_update g now)
        × (blink_update (blink_update g now) later ≡ blink_update g now)
  unfolding blink_update update
  blink_update_twice g now later on same =
      let runs : blink_update g now ≡ update g (bit_and (later / blink_period_ms) 1) =
        rw same (ground arith) in
      (
        subst (SetTo (bit_and (later / blink_period_ms) 1) g) (sym runs)
            (update-SetTo g (bit_and (later / blink_period_ms) 1)),
        rw same (ground arith),
      )

  -- Disabling the blinking sets the LED to on, by writing "255" if it was not so set, and no
  -- `ledBlinkUpdate` changes it.
  pub blink_disabled :
      (g : Led Kernel) (now : ℕ)
      → SetTo 1 g (blink_enable g 0) × (blink_update (blink_enable g 0) now ≡ blink_enable g 0)
  unfolding blink_enable blink_update
  blink_disabled g now = (update-SetTo g 1, ground arith)
