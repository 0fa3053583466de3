-- ===== src/Uvc/Safety.antt =====
-- UVC.c: what a host can bring about by control requests.
use malincam.Prelude.{
  ℕ, pos, is_negative, ◌≡◌, ◌<◌, true, false, not, Option, none, some, List, [], ◌∷◌, ◌==◌,
  has_bits, arith, refl, inl, inr, Option-cases, ◌∙◌, sym,
}
use malincam.Prelude.Outcome.{Outcome, done, ◌>>=◌}
use malincam.Abi.{uvc_set_cur, cap_set}
use malincam.Uvc.{
  Request, Response, tag_of, dispatch_tag, GetFunc, get_error_code, get_ae_mode, get_brightness,
  get_probe_commit, probe_commit_set, UsbUvcControl, Uvc,
}
use malincam.Uvc.Controls.{no_error, call_get, default_dispatch_table}
use malincam.Uvc.Dispatch.{find_control_by_tag, dispatch_to, dispatch_request}
use malincam.Uvc.Events.{
  Event, empty_response, conclude, open_setup, answer_setup, process_event_data,
}
use native.Mathlib.Nat.{mod-eq_of_lt}

-- A result with a response that fits it: a byte, and a length that is no STALL where it is 0.
abbrev Fits : ℕ → Response → Type 0
Fits result response =
    (result < 256) × ((result == no_error) ≡ true → is_negative response.length ≡ false)

call_get-Fits :
    (f : GetFunc) (uvc : Uvc) (req : Request) (response : Response)
    → let (result, answer) = call_get f uvc req response in Fits result answer
unfolding call_get
call_get-Fits get_error_code uvc req response = ground arith
call_get-Fits get_ae_mode uvc req response = ground arith
call_get-Fits get_brightness uvc req response = ground arith
call_get-Fits get_probe_commit uvc req response = ground arith

dispatch_to-Fits :
    (ctrl : UsbUvcControl) (uvc : Uvc) (req : Request) (response : Response)
    → let (result, answer, uvc') = dispatch_to ctrl uvc req response in Fits result answer
unfolding dispatch_to
dispatch_to-Fits ctrl uvc req response = ground (arith, call_get-Fits ctrl.get uvc req response)

none-ne-some : {c : UsbUvcControl} → none ≡ some c → ⊥
none-ne-some h = cc

abbrev FitsOption : Option ℕ → Response → Type 0
FitsOption none response = Unit {0}
FitsOption (some result) response = Fits result response

dispatch_request-missing :
    (table : List UsbUvcControl) (uvc : Uvc) (req : Request) (response : Response)
    → find_control_by_tag table (tag_of (dispatch_tag req)) ≡ none
    → dispatch_request table uvc req response ≡ (none, response, uvc)
unfolding dispatch_request
dispatch_request-missing table uvc req response h = ground arith

dispatch_request-found :
    (table : List UsbUvcControl) (uvc : Uvc) (req : Request) (response : Response)
    (c : UsbUvcControl)
    → find_control_by_tag table (tag_of (dispatch_tag req)) ≡ some c
    → dispatch_request table uvc req response ≡ (
      some (dispatch_to c uvc req response).0,
      (dispatch_to c uvc req response).1,
      (dispatch_to c uvc req response).2,
    )
unfolding dispatch_request
dispatch_request-found table uvc req response c h = ground arith

dispatch_request-Fits :
    (table : List UsbUvcControl) (uvc : Uvc) (req : Request) (response : Response)
    → let (result, answer, uvc') = dispatch_request table uvc req response in
      FitsOption result answer
dispatch_request-Fits table uvc req response =
    elim (Option-cases (find_control_by_tag table (tag_of (dispatch_tag req)))) [
      | inl missing ↦ rw (dispatch_request-missing table uvc req response missing) tt
      | inr (ctrl, found) ↦
          rw (dispatch_request-found table uvc req response ctrl found)
            (dispatch_to-Fits ctrl uvc req response)
    ]

conclude-stalls :
    (result : Option ℕ) (answer : Response) (uvc : Uvc)
    → FitsOption result answer
    → let (response, uvc') = conclude result answer uvc in
      is_negative response.length ≡ not (uvc'.request_error_code == no_error)
unfolding conclude
conclude-stalls none answer uvc fits = refl
conclude-stalls (some result) answer uvc fits = ground (arith, mod-eq_of_lt fits.0)

-- Whatever the host asks, the response to a setup packet stalls exactly when the error code that
-- the gadget keeps for the host is not UVC_REQ_ERROR_NO_ERROR.
pub answer_setup-stalls :
    (uvc : Uvc) (req : Request)
    → let (response, uvc') = answer_setup uvc req in
      is_negative response.length ≡ not (uvc'.request_error_code == no_error)
unfolding answer_setup
answer_setup-stalls uvc req =
    let (result, answer, uvc') =
      dispatch_request default_dispatch_table (open_setup uvc req) req empty_response in
    conclude-stalls result answer uvc'
      (dispatch_request-Fits default_dispatch_table (open_setup uvc req) req empty_response)

-- The gadget awaits the data of a control whose function for it is that of PROBE and COMMIT.
abbrev pub PhaseOk : Uvc → Type 0
PhaseOk uvc =
    (c : UsbUvcControl) → uvc.data_phase_control ≡ some c → c.set_data ≡ some probe_commit_set

-- The one control with a different function for its data cannot be set.
settable_control :
    (tag : ℕ) (c : UsbUvcControl)
    → find_control_by_tag default_dispatch_table tag ≡ some c
    → has_bits c.info_caps cap_set ≡ true
    → c.set_data ≡ some probe_commit_set
unfolding find_control_by_tag
settable_control tag c found settable = ground arith

-- What a request leaves of the phase: the data of a control that was asked to be set, and can be.
dispatch_to-phase :
    (ctrl : UsbUvcControl) (uvc : Uvc) (req : Request) (response : Response) (c : UsbUvcControl)
    → uvc.data_phase_control ≡ none
    → (dispatch_to ctrl uvc req response).2.data_phase_control ≡ some c
    → (c ≡ ctrl) × (has_bits ctrl.info_caps cap_set ≡ true) × (req.request ≡ uvc_set_cur)
unfolding dispatch_to
dispatch_to-phase ctrl uvc req response c fresh after = ground arith

open_setup-phase : (uvc : Uvc) (req : Request) → (open_setup uvc req).data_phase_control ≡ none
unfolding open_setup
open_setup-phase uvc req = ground arith

conclude-phase :
    (result : Option ℕ) (answer : Response) (uvc : Uvc)
    → (conclude result answer uvc).1.data_phase_control ≡ uvc.data_phase_control
unfolding conclude
conclude-phase none answer uvc = refl
conclude-phase (some result) answer uvc = refl

dispatch_request-phase :
    (uvc : Uvc) (req : Request) (response : Response) (c : UsbUvcControl)
    → uvc.data_phase_control ≡ none
    → (dispatch_request default_dispatch_table uvc req response).2.data_phase_control ≡ some c
    → (find_control_by_tag default_dispatch_table (tag_of (dispatch_tag req)) ≡ some c)
      × (has_bits c.info_caps cap_set ≡ true)
      × (req.request ≡ uvc_set_cur)
dispatch_request-phase uvc req response c fresh after =
    elim (Option-cases (find_control_by_tag default_dispatch_table (tag_of (dispatch_tag req)))) [
      | inl missing ↦ absurd (
          none-ne-some (
            sym fresh
            ∙ (rw (dispatch_request-missing default_dispatch_table uvc req response missing) at
                after)))
      | inr (ctrl, found) ↦
          let (same, settable, asked) = dispatch_to-phase ctrl uvc req response c fresh (
            rw (dispatch_request-found default_dispatch_table uvc req response ctrl found) at
              after) in
          (rw same found, rw same settable, asked)
    ]

-- A setup packet leaves the gadget awaiting data only for a control of its table that the packet
-- names, that can be set, and that it asks to set.
pub answer_setup-phase :
    (uvc : Uvc) (req : Request) (c : UsbUvcControl)
    → (answer_setup uvc req).1.data_phase_control ≡ some c
    → (find_control_by_tag default_dispatch_table (tag_of (dispatch_tag req)) ≡ some c)
      × (has_bits c.info_caps cap_set ≡ true)
      × (req.request ≡ uvc_set_cur)
unfolding answer_setup
answer_setup-phase uvc req c after =
    let (result, answer, uvc') =
      dispatch_request default_dispatch_table (open_setup uvc req) req empty_response in
    dispatch_request-phase (open_setup uvc req) req empty_response c (open_setup-phase uvc req)
      (sym (conclude-phase result answer uvc') ∙ after)

-- The gadget after some events: setup and data packets are processed, no other concerns its state.
pub uvc_after : List Event → Uvc → Outcome Uvc
uvc_after [] uvc = done uvc
uvc_after (Event.setup req ∷ events) uvc = uvc_after events (answer_setup uvc req).1
uvc_after (Event.data_phase received ∷ events) uvc = do
  (result, uvc') ← process_event_data uvc received
  uvc_after events uvc'
uvc_after (Event.connect ∷ events) uvc = uvc_after events uvc
uvc_after (Event.disconnect ∷ events) uvc = uvc_after events uvc
uvc_after (Event.stream_on ∷ events) uvc = uvc_after events uvc
uvc_after (Event.stream_off ∷ events) uvc = uvc_after events uvc
uvc_after (Event.other n ∷ events) uvc = uvc_after events uvc

process_event_data-ok :
    (uvc : Uvc) (received : Response)
    → PhaseOk uvc
    → process_event_data uvc received ≡ done (pos 0, record uvc { data_phase_control = none })
unfolding process_event_data
process_event_data-ok uvc received ok = elim (Option-cases uvc.data_phase_control) [
  | inl idle ↦ ground arith
  | inr (c, awaited) ↦ ground (arith, ok c awaited)
]

-- No sequence of packets from the host, in any order, makes the gadget fail its ASSERT on the
-- brightness control: from a state that awaits the data of PROBE or COMMIT at most every one is
-- processed, and such a state is left.
pub uvc_after_returns :
    (events : List Event) (uvc : Uvc)
    → PhaseOk uvc
    → (uvc' : Uvc) × (uvc_after events uvc ≡ done uvc') × PhaseOk uvc'
unfolding uvc_after
uvc_after_returns [] uvc ok = (uvc, refl, ok)
uvc_after_returns (Event.setup req ∷ events) uvc ok =
    uvc_after_returns events (answer_setup uvc req).1 (λ c h.
      let (found, settable, asked) = answer_setup-phase uvc req c h in
      settable_control (tag_of (dispatch_tag req)) c found settable)
uvc_after_returns (Event.data_phase received ∷ events) uvc ok =
    let over = record uvc { data_phase_control = none } in
    let (uvc', runs, ok') = uvc_after_returns events over (λ c h. absurd (none-ne-some h)) in
    (uvc', rw (process_event_data-ok uvc received ok) runs, ok')
uvc_after_returns (Event.connect ∷ events) uvc ok = uvc_after_returns events uvc ok
uvc_after_returns (Event.disconnect ∷ events) uvc ok = uvc_after_returns events uvc ok
uvc_after_returns (Event.stream_on ∷ events) uvc ok = uvc_after_returns events uvc ok
uvc_after_returns (Event.stream_off ∷ events) uvc ok = uvc_after_returns events uvc ok
uvc_after_returns (Event.other n ∷ events) uvc ok = uvc_after_returns events uvc ok
