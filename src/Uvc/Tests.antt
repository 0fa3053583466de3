-- ===== src/Uvc/Tests.antt =====
-- The gadget at concrete inputs.
use malincam.Uvc.Bounds.{Within, answer_setup-Within}
use malincam.Uvc.Tags.{find_control-own}
use malincam.Prelude.{pos, is_negative, ◌≡◌, refl, true, not, none, some, [], ◌∷◌, ◌==◌, has_bits}
use malincam.Prelude.Outcome.{done}
use malincam.Abi.{cap_set, uvc_set_cur, uvc_get_info, uvc_get_cur}
use malincam.Uvc.{Request, tag_of, dispatch_tag, UsbUvcControl, Brightness, Uvc}
use malincam.Uvc.Controls.{no_error, streaming_control_of, default_dispatch_table}
use malincam.Uvc.Dispatch.{find_control_by_tag, dispatch_to, dispatch_request}
use malincam.Uvc.Events.{
  setup, data_phase, stream_on, empty_response, answer_setup, conclude, open_setup,
}
use malincam.Uvc.Safety.{
  PhaseOk, answer_setup-stalls, answer_setup-phase, uvc_after, uvc_after_returns,
}

abbrev mapped : Brightness
mapped = record { value = pos 50; minimum = pos 0; maximum = pos 100; default_value = pos 50 }

abbrev gadget : Uvc
gadget = record { brightness = some mapped; request_error_code = 0; data_phase_control = none }

-- Requests to set the PROBE control, and to ask for the brightness and its capabilities.
abbrev set_probe : Request
set_probe = record {
  request_type = 0x21;
  request = uvc_set_cur;
  value = 0x100;
  index = 1;
  length = 34;
}

abbrev info_brightness : Request
info_brightness = record {
  request_type = 0xa1;
  request = uvc_get_info;
  value = 0x200;
  index = 0x200;
  length = 1;
}

abbrev get_brightness_now : Request
get_brightness_now = record {
  request_type = 0xa1;
  request = uvc_get_cur;
  value = 0x200;
  index = 0x200;
  length = 2;
}

answer_setup-stalls_example :
    is_negative (answer_setup gadget set_probe).0.length
    ≡ not ((answer_setup gadget set_probe).1.request_error_code == no_error)
answer_setup-stalls_example = answer_setup-stalls gadget set_probe

awaits : (answer_setup gadget set_probe).1.data_phase_control ≡ some (streaming_control_of 1)
unfolding answer_setup open_setup conclude dispatch_request dispatch_to find_control_by_tag
    dispatch_tag
awaits = refl

answer_setup-phase_example :
    (find_control_by_tag default_dispatch_table (tag_of (dispatch_tag set_probe))
      ≡ some (streaming_control_of 1))
    × (has_bits (streaming_control_of 1).info_caps cap_set ≡ true)
    × (set_probe.request ≡ uvc_set_cur)
answer_setup-phase_example = answer_setup-phase gadget set_probe (streaming_control_of 1) awaits

none-ne-some : {c : UsbUvcControl} → none ≡ some c → ⊥
none-ne-some h = cc

gadget-PhaseOk : PhaseOk gadget
gadget-PhaseOk c h = absurd (none-ne-some h)

uvc_after_returns_example :
    (uvc' : Uvc) × (uvc_after
        (setup set_probe ∷ stream_on ∷ data_phase empty_response ∷ data_phase empty_response ∷ [])
        gadget
      ≡ done uvc')
    × PhaseOk uvc'
uvc_after_returns_example =
    uvc_after_returns
      (setup set_probe ∷ stream_on ∷ data_phase empty_response ∷ data_phase empty_response ∷ [])
      gadget gadget-PhaseOk

answer_setup-Within_example : Within (answer_setup gadget set_probe).0
answer_setup-Within_example = answer_setup-Within gadget set_probe

find_control-own_example :
    find_control_by_tag default_dispatch_table (tag_of (streaming_control_of 1).dispatch)
    ≡ some (streaming_control_of 1)
find_control-own_example = find_control-own 3 (streaming_control_of 1) refl
