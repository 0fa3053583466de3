-- ===== src/Led/Tests.antt =====
-- The LED at concrete inputs, on a file that counts its writes.
use malincam.Prelude.{ℕ, pos, suc, ◌/◌, bit_and, ◌≡◌, ◌≢◌, refl, arith}
use malincam.Led.{
  Sysfs, Led, SetTo, blink_period_ms, blink_enable, blink_update, blink_update_twice,
  blink_disabled,
}

abbrev counting : Sysfs ℕ
counting = record {
  open_brightness = λ k. (pos 3, k);
  write = λ k fd bytes. (pos 1, suc k);
  close = λ k fd. k;
}

abbrev blinking : Led ℕ
blinking = record { enabled = 1; on = 1; kernel = 0 }

one-ne-zero : blinking.enabled ≢ 0
one-ne-zero h = omega arith

blink_update_twice_example :
    SetTo ℕ counting
      (bit_and (1400 / blink_period_ms) 1)
      blinking
      (blink_update ℕ counting blinking 1200)
    × (blink_update ℕ counting (blink_update ℕ counting blinking 1200) 1400
        ≡ blink_update ℕ counting blinking 1200)
blink_update_twice_example = blink_update_twice ℕ counting blinking 1200 1400 one-ne-zero refl

blink_disabled_example :
    SetTo ℕ counting 1 blinking (blink_enable ℕ counting blinking 0)
    × (blink_update ℕ counting (blink_enable ℕ counting blinking 0) 700
        ≡ blink_enable ℕ counting blinking 0)
blink_disabled_example = blink_disabled ℕ counting blinking 700
