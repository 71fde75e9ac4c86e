-- ===== src/Stylus/Examples.antt =====
-- A pen at concrete inputs.
use termux_x11_virtualkeys.Base.{◌≡◌, refl, true, false, List, [], ◌∷◌}
use termux_x11_virtualkeys.Stylus.{
  Devices, StylusEvent, mouse, pen, motion, button_release, button_press, button_events,
  handle_stylus, handle_all_stylus,
}

abbrev tablet : Devices
tablet = record { has_mouse = true; has_pen = true; has_eraser = false }

-- The pen with its first and third button, then with the third, then the mouse with none.
abbrev strokes : List StylusEvent
strokes =
    (record { buttons = 5; is_eraser = false; is_mouse = false })
    ∷ (record { buttons = 4; is_eraser = false; is_mouse = false })
    ∷ (record { buttons = 0; is_eraser = false; is_mouse = true })
    ∷ []

-- The third button of the pen is given back by the mouse.
strokes-events :
    (handle_all_stylus tablet strokes 0).0
    ≡ motion pen
      ∷ button_press pen 1
      ∷ button_press pen 3
      ∷ motion pen
      ∷ button_release pen 1
      ∷ motion mouse
      ∷ button_release mouse 3
      ∷ []
unfolding handle_all_stylus handle_stylus button_events
strokes-events = refl
