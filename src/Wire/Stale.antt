-- ===== src/Wire/Stale.antt =====
-- The variable `mask` of `handleLorieEvents` of cmdentrypoint.c, between the events of one call.
use termux_x11_virtualkeys.Stylus.{mouse}
use termux_x11_virtualkeys.Wire.Server.{Handler, Mask, Flag, pointer_motion, set_axis}
use termux_x11_virtualkeys.Base.{List, [], ◌∷◌, ◌++◌, ◌≡◌}

module _ {N : Type 0} where
  -- The last call of a handler is a motion of the mouse, with these axes.
  abbrev pub LastMotion : (Mask N → Type 0) → Handler N → Type 0
  LastMotion P h =
      (before : List (termux_x11_virtualkeys.Wire.Server.Call N)) × (flags : List Flag)
      × (mask : Mask N) × (h.calls ≡ before ++ (pointer_motion mouse flags mask ∷ []))
      × P mask
