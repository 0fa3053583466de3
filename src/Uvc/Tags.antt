-- ===== src/Uvc/Tags.antt =====
-- UVC.c: the tags that tell the controls apart.
use malincam.Prelude.{ℕ, ◌≡◌, refl, zero, suc, none, some, get_elem?}
use mathlib.Core.Path.{subst}
use malincam.Uvc.{tag_of, UsbUvcControl}
use malincam.Uvc.Controls.{default_dispatch_table}
use malincam.Uvc.Dispatch.{find_control_by_tag}

some-inj : {x y : UsbUvcControl} → some x ≡ some y → x ≡ y
some-inj same = cc

none-ne-some : {c : UsbUvcControl} → none ≡ some c → ⊥
none-ne-some h = cc

abbrev Own : UsbUvcControl → Type 0
Own ctrl = find_control_by_tag default_dispatch_table (tag_of ctrl.dispatch) ≡ some ctrl

-- Each control of the table is the one that is found by its tag.
pub find_control-own :
    (i : ℕ) (ctrl : UsbUvcControl)
    → get_elem? default_dispatch_table i ≡ some ctrl
    → find_control_by_tag default_dispatch_table (tag_of ctrl.dispatch) ≡ some ctrl
unfolding find_control_by_tag
find_control-own zero ctrl at = subst Own (some-inj at) refl
find_control-own (suc zero) ctrl at = subst Own (some-inj at) refl
find_control-own (suc (suc zero)) ctrl at = subst Own (some-inj at) refl
find_control-own (suc (suc (suc zero))) ctrl at = subst Own (some-inj at) refl
find_control-own (suc (suc (suc (suc zero)))) ctrl at = subst Own (some-inj at) refl
find_control-own (suc (suc (suc (suc (suc i))))) ctrl at = absurd (none-ne-some at)
