-- ===== src/Uvc/Bounds.antt =====
-- UVC.c: the bounds of a response.
use malincam.Prelude.{
  Bool, if◌then◌else◌, ℕ, ℤ, pos, negsuc, ◌%◌, ◌/◌, ◌≡◌, ◌≤◌, ◌∙◌, refl, true, false, Option, none,
  some, List, [], ◌∷◌, length, drop, replicate, arith, length-append, length-drop, length-replicate,
  inl, inr, Bool-cases, Option-cases, ◌==◌, ◌||◌, not, has_bits,
}
use mathlib.Core.Path.{subst}
use malincam.Abi.{
  response_size, uvc_set_cur, uvc_get_cur, uvc_get_min, uvc_get_max, uvc_get_res, uvc_get_len,
  uvc_get_info, uvc_get_def, cap_get, cap_set,
}
use malincam.Uvc.{
  Request, Response, tag_of, dispatch_tag, GetFunc, get_error_code, get_ae_mode, get_brightness,
  get_probe_commit, UsbUvcControl, Uvc,
}
use malincam.Uvc.Controls.{
  no_error, le16, s16_bits, ae_mode_auto, ae_mode_get, brightness_get, streaming_control, overwrite,
  brightness_value, call_get, default_dispatch_table,
}
use malincam.Uvc.Dispatch.{find_control_by_tag, info_of, dispatch_to, dispatch_request}
use malincam.Uvc.Events.{empty_response, conclude, open_setup, answer_setup}

-- A length that stalls, or of `n` bytes at most.
abbrev pub AtMost : ℕ → ℤ → Type 0
AtMost n (pos m) = m ≤ n
AtMost n (negsuc m) = Unit

-- The response fits its array of bytes.
pub record Within (response : Response) : Type 0 where
  pub bytes : length response.bytes ≡ response_size
  pub long : AtMost response_size response.length

length-overwrite :
    (start bytes : List ℕ)
    → length start ≤ length bytes
    → length (overwrite start bytes) ≡ length bytes
length-overwrite start bytes h =
    omega (arith, length-append start (drop (length start) bytes), length-drop (length start) bytes)

overwrite-Within :
    (response : Response) (n : ℕ) (start : List ℕ)
    → Within response
    → n ≤ response_size
    → length start ≤ response_size
    → Within (record { length = pos n; bytes = overwrite start response.bytes })
overwrite-Within response n start within short fits = record {
  bytes = length-overwrite start response.bytes (omega (arith, within.bytes)) ∙ within.bytes;
  long = short;
}

if-Within : (b : Bool) (x y : Response) → Within x → Within y → Within (if b then x else y)
if-Within true x y first second = first
if-Within false x y first second = second

if-Within_answer :
    (b : Bool) (x y : ℕ × Response) → Within x.1 → Within y.1 → Within (if b then x else y).1
if-Within_answer true x y first second = first
if-Within_answer false x y first second = second

-- The response that is only given a length.
sized-Within :
    (response : Response) (n : ℕ)
    → Within response
    → n ≤ response_size
    → Within (record response { length = pos n })
sized-Within response n within short = record { bytes = within.bytes; long = short }

brightness_get-Within :
    (uvc : Uvc) (req : Request) (response : Response)
    → Within response
    → Within (brightness_get uvc req response).1
unfolding brightness_get
brightness_get-Within uvc req response within = elim (Option-cases uvc.brightness) [
  | inl unmapped ↦ rw (brightness_get, unmapped) within
  | inr (v4l2, mapped) ↦ elim (Option-cases (brightness_value v4l2 req.request)) [
    | inl unknown ↦
        rw (brightness_get, mapped, unknown) (sized-Within response 2 within (omega arith))
    | inr (v, known) ↦
        rw (brightness_get, mapped, known)
          (overwrite-Within response 2 (le16 (s16_bits v)) within (omega arith) (omega arith))
  ]
]

call_get-Within :
    (f : GetFunc) (uvc : Uvc) (req : Request) (response : Response)
    → Within response
    → Within (call_get f uvc req response).1
unfolding call_get ae_mode_get
call_get-Within get_error_code uvc req response within =
    if-Within_answer (req.request == uvc_get_cur) _ _
      (overwrite-Within response 1 (uvc.request_error_code ∷ []) within (omega arith) (omega arith))
      within
call_get-Within get_ae_mode uvc req response within =
    if-Within_answer
      (req.request == uvc_get_cur || req.request == uvc_get_def || req.request == uvc_get_res) _ _
      (overwrite-Within response 1 (ae_mode_auto ∷ []) within (omega arith) (omega arith))
      (sized-Within response 1 within (omega arith))
call_get-Within get_brightness uvc req response within =
    brightness_get-Within uvc req response within
call_get-Within get_probe_commit uvc req response within =
    if-Within
      (req.request == uvc_get_cur
        || req.request == uvc_get_min
        || req.request == uvc_get_def
        || req.request == uvc_get_max)
      _ _ (overwrite-Within response 34 streaming_control within (omega arith) (omega arith))
      (if-Within (req.request == uvc_get_res) _ _
        (overwrite-Within response 34 (replicate 34 0) within (omega arith) (omega arith))
        (sized-Within response 34 within (omega arith)))

if-Within_whole :
    (b : Bool) (x y : ℕ × Response × Uvc) → Within x.1 → Within y.1 → Within (if b then x else y).1
if-Within_whole true x y first second = first
if-Within_whole false x y first second = second

dispatch_to-Within :
    (ctrl : UsbUvcControl) (uvc : Uvc) (req : Request) (response : Response)
    → ctrl.len ≤ response_size
    → Within response
    → Within (dispatch_to ctrl uvc req response).1
unfolding dispatch_to
dispatch_to-Within ctrl uvc req response short within =
    if-Within_whole (req.request == uvc_get_len) _ _
      (overwrite-Within response 2 (ctrl.len / 256 ∷ ctrl.len % 256 ∷ []) within (omega arith)
        (omega arith))
      (if-Within_whole (req.request == uvc_get_info) _ _
        (overwrite-Within response 1 (info_of uvc ctrl ∷ []) within (omega arith) (omega arith))
        (if-Within_whole (req.request == uvc_set_cur) _ _
          (if-Within_whole (not (has_bits ctrl.info_caps cap_set)) _ _ within (
            overwrite-Within response ctrl.len (replicate ctrl.len 0) within short
              (omega (arith, length-replicate {A = ℕ} ctrl.len 0, short))))
          (if-Within_whole
            (req.request == uvc_get_cur
              || req.request == uvc_get_min
              || req.request == uvc_get_def
              || req.request == uvc_get_max
              || req.request == uvc_get_res)
            _ _
            (if-Within_whole (not (has_bits ctrl.info_caps cap_get)) _ _ within
              (call_get-Within ctrl.get uvc req response within))
            within)))

some-inj : {x y : UsbUvcControl} → some x ≡ some y → x ≡ y
some-inj same = cc

none-ne-some : {c : UsbUvcControl} → none ≡ some c → ⊥
none-ne-some h = cc

-- The controls of a table fit a response.
abbrev AllShort : List UsbUvcControl → Type 0
AllShort [] = Unit
AllShort (ctrl ∷ rest) = (ctrl.len ≤ response_size) × AllShort rest

found_short :
    (table : List UsbUvcControl) (tag : ℕ) (ctrl : UsbUvcControl)
    → AllShort table
    → find_control_by_tag table tag ≡ some ctrl
    → ctrl.len ≤ response_size
unfolding find_control_by_tag
found_short [] tag ctrl short found = absurd (none-ne-some found)
found_short (c ∷ rest) tag ctrl (first, later) found =
    elim (Bool-cases (tag_of c.dispatch == tag)) [
      | inl here ↦
          let same : c ≡ ctrl = some-inj (ground arith) in
          subst (λ (d : UsbUvcControl). d.len ≤ response_size) same first
      | inr there ↦ found_short rest tag ctrl later (ground arith)
    ]

table_short : AllShort default_dispatch_table
table_short = (omega arith, (omega arith, (omega arith, (omega arith, (omega arith, tt)))))

dispatch_request-Within :
    (uvc : Uvc) (req : Request)
    → Within (dispatch_request default_dispatch_table uvc req empty_response).1
unfolding dispatch_request
dispatch_request-Within uvc req =
    let fresh : Within empty_response = record { bytes = refl; long = tt } in
    elim (Option-cases (find_control_by_tag default_dispatch_table (tag_of (dispatch_tag req)))) [
      | inl missing ↦ rw (dispatch_request, missing) fresh
      | inr (ctrl, found) ↦
          rw (dispatch_request, found)
            (dispatch_to-Within ctrl uvc req empty_response
              (found_short default_dispatch_table (tag_of (dispatch_tag req)) ctrl table_short
                found)
              fresh)
    ]

stalled-Within :
    (response : Response) → Within response → Within (record response { length = negsuc 0 })
stalled-Within response within = record { bytes = within.bytes; long = tt }

conclude-Within :
    (result : Option ℕ) (response : Response) (uvc : Uvc)
    → Within response
    → Within (conclude result response uvc).0
unfolding conclude
conclude-Within none response uvc within = stalled-Within response within
conclude-Within (some code) response uvc within =
    if-Within (not (code == no_error)) _ _ (stalled-Within response within) within

-- The response to any setup packet has its array of 60 bytes, and a length that stalls or is within
-- it.
pub answer_setup-Within : (uvc : Uvc) (req : Request) → Within (answer_setup uvc req).0
unfolding answer_setup
answer_setup-Within uvc req =
    let (result, response, uvc') =
      dispatch_request default_dispatch_table (open_setup uvc req) req empty_response in
    conclude-Within result response uvc' (dispatch_request-Within (open_setup uvc req) req)
