-- ===== src/Wire/Server.antt =====
-- The server's reader of packets, `handleLorieEvents` of cmdentrypoint.c, with `lorieSetStylusEnabled`
-- of InitInput.c. What it calls of the rest of the server is kept in order; the mouse, the stylus and
-- the keys are those of Input and Stylus.
use termux_x11_virtualkeys.Keyboard.Event.{KeyEvent}
use termux_x11_virtualkeys.Input.{
  Floats, PointerEvent, moves_to, moves_by, scrolls, presses_button, releases_button, handle_mouse,
  handle_key,
}
use termux_x11_virtualkeys.Stylus.{
  Device, mouse, pen, eraser, Devices, handle_stylus, motion, button_release, button_press, chosen,
}
use termux_x11_virtualkeys.Wire.{
  LorieEvent, StylusPacket, Codec, Reader, read, screen_size, touch, key, stylus, stylus_enable,
  unicode, clipboard_enable, clipboard_announce, clipboard_send, shared_server_state, add_buffer,
  remove_buffer, clipboard_request, window_focus_changed, other,
}
use termux_x11_virtualkeys.Wire.Delivery.{call}
use termux_x11_virtualkeys.Base.{
  ℕ, zero, suc, ◌==◌, Bool, true, false, Option, none, some, List, [], ◌∷◌, ◌++◌, if◌then◌else◌,
  Run,
}

pub data Flag : Type 0 where
  relative accelerate absolute on_screen on_desktop no_raw : Flag

-- `ValuatorMask`: the axes that are set.
abbrev pub Mask : Type 0 → Type 0
Mask N = ℕ → Option N

-- What the reader calls. Those that end in `_work` are queued for the server's own thread, which is
-- woken.
pub data Call (N : Type 0) : Type 0 where
  configure_work : (width height framerate name_size : ℕ) → (name : Option (List ℕ)) → Call N
  touch_work : (type id x y : ℕ) → Call N
  clipboard_announce_work : Call N
  clipboard_data_work : List ℕ → Call N
  add_device remove_device : Device → Call N
  pointer_motion : Device → List Flag → Mask N → Call N
  pointer_button : Device → (press : Bool) → ℕ → Call N
  keyboard_event : KeyEvent → Call N
  keysym_event : (keysym : ℕ) → (down : Bool) → Call N
  enable_clipboard_sync : Bool → Call N

-- The variable `mask` of the reader, its static `buttons_prev`, the devices, and what was called.
pub record Handler (N : Type 0) : Type 0 where
  pub mask : Mask N
  pub buttons_prev : ℕ
  pub devices : Devices
  pub calls : List (Call N)

-- What the code takes from elsewhere: numbers, words of so many bits with a sign, the size of the
-- screen, and the keysym of a code point.
pub record Setting (N : Type 0) : Type 0 where
  pub floats : Floats N
  pub of_signed : (bits word : ℕ) → N
  pub width : ℕ
  pub height : ℕ
  pub ucs2keysym : ℕ → ℕ

-- `valuator_mask_set_double`.
abbrev pub set_axis : {N : Type 0} → ℕ → N → Mask N → Mask N
set_axis axis v mask = λ k. if k == axis then some v else mask k

abbrev pub no_axes : {N : Type 0} → Mask N
no_axes = λ k. none

-- A block of zeros over which so many bytes were read, with one zero more. The source takes the
-- size, count + 1, at 32 bits, so that it is 0 for the count 2^32 - 1: that count, and a block that
-- can not be had, are not modelled.
unfoldable pub c_block : ℕ → List ℕ → List ℕ
c_block zero xs = 0 ∷ []
c_block (suc n) [] = 0 ∷ c_block n []
c_block (suc n) (x ∷ xs) = x ∷ c_block n xs

-- `lorieSetStylusEnabled`.
unfoldable pub set_stylus_enabled : {N : Type 0} → Bool → Devices → List (Call N) × Devices
set_stylus_enabled true d = (
  (if d.has_pen then [] else add_device pen ∷ [])
      ++ (if d.has_eraser then [] else add_device eraser ∷ []),
  record d { has_pen = true; has_eraser = true },
)
set_stylus_enabled false d = (
  (if d.has_pen then remove_device pen ∷ [] else [])
      ++ (if d.has_eraser then remove_device eraser ∷ [] else []),
  record d { has_pen = false; has_eraser = false },
)

module _ {N : Type 0} where
  abbrev pub add_calls : List (Call N) → Handler N → Handler N
  add_calls cs h = record h { calls = h.calls ++ cs }

  -- A motion of a device, with the axes that are set then.
  abbrev pub moved : Device → List Flag → Mask N → Handler N → Handler N
  moved d flags mask h = record h {
    mask = mask;
    calls = h.calls ++ (pointer_motion d flags mask ∷ []);
  }

  -- What is queued for the mouse. The axes of a motion are set beside those that are set already; the
  -- wheel sets its axis alone.
  unfoldable pub queue_mouse : PointerEvent N → Handler N → Handler N
  queue_mouse (moves_to x y) h =
      moved mouse (absolute ∷ on_screen ∷ no_raw ∷ []) (set_axis 1 y (set_axis 0 x h.mask)) h
  queue_mouse (moves_by x y) h =
      moved mouse (relative ∷ accelerate ∷ []) (set_axis 1 y (set_axis 0 x h.mask)) h
  queue_mouse (scrolls axis d) h = moved mouse (relative ∷ []) (set_axis axis d no_axes) h
  queue_mouse (presses_button n) h = add_calls (pointer_button mouse true n ∷ []) h
  queue_mouse (releases_button n) h = add_calls (pointer_button mouse false n ∷ []) h

  unfoldable pub queue_all_mouse : List (PointerEvent N) → Handler N → Handler N
  queue_all_mouse [] h = h
  queue_all_mouse (e ∷ es) h = queue_all_mouse es (queue_mouse e h)

  -- valuator_mask_zero(&mask)
  abbrev pub fresh_mask : Handler N → Handler N
  fresh_mask h = record h { mask = no_axes }

  module _ (s : Setting N) where
    -- max(min(a, size), 0)
    abbrev pub clamped : N → ℕ → N
    clamped a size =
        let b = if s.floats.less a (s.floats.of_nat size) then a else s.floats.of_nat size in
        if s.floats.less (s.floats.of_nat 0) b then b else s.floats.of_nat 0

    abbrev pub place : StylusPacket N → Mask N → Mask N
    place p mask = set_axis 1 (clamped p.y s.height) (set_axis 0 (clamped p.x s.width) mask)

    -- The axes that a stylus sets, and a mouse does not.
    abbrev pub stylus_axes : StylusPacket N → Mask N → Mask N
    stylus_axes p mask = set_axis 5 (s.of_signed 16 p.orientation) (
        set_axis 4 (s.of_signed 8 p.tilt_y)
          (set_axis 3 (s.of_signed 8 p.tilt_x) (set_axis 2 (s.floats.of_nat p.pressure) mask)))

    abbrev pub axes_of : Device → StylusPacket N → Mask N → Mask N
    axes_of mouse p mask = place p mask
    axes_of pen p mask = stylus_axes p (place p mask)
    axes_of eraser p mask = stylus_axes p (place p mask)

    abbrev pub stylus_flags : Device → List Flag
    stylus_flags mouse = absolute ∷ on_desktop ∷ no_raw ∷ []
    stylus_flags pen = absolute ∷ on_desktop ∷ []
    stylus_flags eraser = absolute ∷ on_desktop ∷ []

    -- What is queued for a stylus: the motion of the device, and its buttons.
    unfoldable pub queue_stylus :
        StylusPacket N → List termux_x11_virtualkeys.Stylus.PointerEvent → Handler N → Handler N
    queue_stylus p [] h = h
    queue_stylus p (motion d ∷ es) h =
        queue_stylus p es (moved d (stylus_flags d) (axes_of d p h.mask) h)
    queue_stylus p (button_release d n ∷ es) h =
        queue_stylus p es (add_calls (pointer_button d false n ∷ []) h)
    queue_stylus p (button_press d n ∷ es) h =
        queue_stylus p es (add_calls (pointer_button d true n ∷ []) h)

    -- The switch over the type of an event, with what was read behind it.
    unfoldable pub handle_event : LorieEvent N → List ℕ → Handler N → Handler N
    unfolding queue_all_mouse queue_stylus
    handle_event (screen_size width height framerate name_size) extra h =
        add_calls
          (configure_work width height framerate name_size
              (if name_size == 0 then none else some (c_block name_size extra))
            ∷ [])
          h
    handle_event (touch type id x y) extra h = add_calls (touch_work type id x y ∷ []) h
    handle_event (stylus p) extra h =
        let (es, prev) = handle_stylus h.devices p.tool h.buttons_prev in
        record (queue_stylus p es h) { buttons_prev = prev }
    handle_event (stylus_enable enable) extra h =
        let (cs, d) = set_stylus_enabled enable h.devices in record (add_calls cs h) { devices = d }
    handle_event (LorieEvent.mouse e) extra h =
        queue_all_mouse (handle_mouse s.floats s.width s.height e) h
    handle_event (key code state) extra h =
        add_calls (keyboard_event (handle_key state code) ∷ []) h
    handle_event (unicode code) extra h =
        let ks = s.ucs2keysym code in
        add_calls (keysym_event ks true ∷ keysym_event ks false ∷ []) h
    handle_event (clipboard_enable enable) extra h = add_calls (enable_clipboard_sync enable ∷ []) h
    handle_event clipboard_announce extra h = add_calls (clipboard_announce_work ∷ []) h
    handle_event (clipboard_send count) extra h =
        add_calls (clipboard_data_work (c_block count extra) ∷ []) h
    handle_event shared_server_state extra h = h
    handle_event add_buffer extra h = h
    handle_event (remove_buffer id) extra h = h
    handle_event clipboard_request extra h = h
    handle_event window_focus_changed extra h = h
    handle_event (other type) extra h = h

    -- What the switch reads behind an event: a name, and the text of the clipboard.
    unfoldable pub behind_event : LorieEvent N → List ℕ → List ℕ × List ℕ
    behind_event (screen_size width height framerate name_size) bytes = read name_size bytes
    behind_event (clipboard_send count) bytes = read count bytes
    behind_event e bytes = ([], bytes)

    abbrev pub server_reader : Reader ℕ N (Handler N)
    server_reader = record { behind = behind_event; handle = handle_event }

    -- `handleLorieEvents`, where there is no error on the socket.
    unfoldable pub handle_lorie_events : Codec ℕ N → List ℕ → Handler N → Run (Handler N × List ℕ)
    handle_lorie_events c bytes h = call c server_reader fresh_mask bytes h
