-- ===== src/Screen/Vblank/Drawing.antt =====
-- `lorieRedraw` of InitOutput.c against the damage to the root window.
use termux_x11_virtualkeys.Base.{
  ℕ, ◌==◌, ◌≡◌, refl, ap, inl, inr, not, ◌&&◌, ◌||◌, Bool, true, false, Bool-cases, Option, none,
  some, if◌then◌else◌,
}
use termux_x11_virtualkeys.Screen.Vblank.{
  Present, Priv, Screen, Frame, fatal, frame, next_msc, relock_fails, buffer_id, draw, redraw,
}

-- The root window has a pixmap, and a buffer in it.
abbrev pub has_priv : Option Priv → Bool
has_priv none = false
has_priv (some priv) = true

abbrev pub is_there : Option ℕ → Bool
is_there none = false
is_there (some id) = true

abbrev pub has_buffer : Option Priv → Bool
has_buffer none = false
has_buffer (some priv) = is_there priv.buffer

abbrev pub fails : ℕ → Option Priv → Bool
fails status none = false
fails status (some priv) = relock_fails status priv

abbrev pub root_id : Option Priv → ℕ
root_id none = 0
root_id (some priv) = buffer_id priv.buffer

module _ (alive : Bool) (status : ℕ) (s : Screen) where
  -- There is something to show it on.
  abbrev pub is_visible : Bool
  is_visible = alive && s.shared.surface_available

  -- The damage is cleared.
  abbrev pub clears : Bool
  clears = s.damaged && (is_visible && has_buffer s.root)

  -- The renderer is signalled.
  abbrev pub signals : Bool
  signals =
      (is_visible && has_priv s.root)
      && (clears || (s.shared.draw_requested || (s.shared.cursor_moved || s.shared.cursor_updated)))

  -- The frame, against the screen before it.
  abbrev pub Answers : Frame → Type 0
  Answers fatal = (clears ≡ true) × (fails status s.root ≡ true)
  Answers (frame told signalled s') =
      ((told ≡ (next_msc s.present).0) × (s'.present ≡ (next_msc s.present).1))
      × ((s'.shared.wait_for_next_frame ≡ false)
          × ((s'.damaged ≡ (s.damaged && not clears))
              × ((signalled ≡ signals)
                  × (s'.shared.root_window_texture_id
                      ≡ (if signals then root_id s.root else s.shared.root_window_texture_id)))))

abbrev screen :
    Present
    → (wait surface drawing moved updated : Bool) → ℕ
    → (damaged : Bool) → Option Priv
    → Screen
screen p wait surface drawing moved updated id damaged root = record {
  present = p;
  shared = record {
    wait_for_next_frame = wait;
    surface_available = surface;
    draw_requested = drawing;
    cursor_moved = moved;
    cursor_updated = updated;
    root_window_texture_id = id;
  };
  damaged = damaged;
  root = root;
}

-- The frame of a screen that can be seen, whose root window has a pixmap.
draw-Answers :
    (status : ℕ) (p : Present) (w drawing m u : Bool) (id : ℕ) (damaged : Bool) (buffer : Option ℕ)
    (locked : Bool)
    → let priv : Priv = record { buffer = buffer; locked = locked } in
      Answers true status (screen p w true drawing m u id damaged (some priv)) (
        draw status
          (next_msc p).0
          priv
          (screen (next_msc p).1 false true drawing m u id damaged (some priv)))
unfolding draw
draw-Answers status p w true m u id false none l = ((refl, refl), (refl, (refl, (refl, refl))))
draw-Answers status p w false true u id false none l = ((refl, refl), (refl, (refl, (refl, refl))))
draw-Answers status p w false false true id false none l =
    ((refl, refl), (refl, (refl, (refl, refl))))
draw-Answers status p w false false false id false none l =
    ((refl, refl), (refl, (refl, (refl, refl))))
draw-Answers status p w true m u id true none l = ((refl, refl), (refl, (refl, (refl, refl))))
draw-Answers status p w false true u id true none l = ((refl, refl), (refl, (refl, (refl, refl))))
draw-Answers status p w false false true id true none l =
    ((refl, refl), (refl, (refl, (refl, refl))))
draw-Answers status p w false false false id true none l =
    ((refl, refl), (refl, (refl, (refl, refl))))
draw-Answers status p w true m u id false (some b) l = ((refl, refl), (refl, (refl, (refl, refl))))
draw-Answers status p w false true u id false (some b) l =
    ((refl, refl), (refl, (refl, (refl, refl))))
draw-Answers status p w false false true id false (some b) l =
    ((refl, refl), (refl, (refl, (refl, refl))))
draw-Answers status p w false false false id false (some b) l =
    ((refl, refl), (refl, (refl, (refl, refl))))
draw-Answers status p w d m u id true (some b) false = ((refl, refl), (refl, (refl, (refl, refl))))
draw-Answers status p w d m u id true (some b) true = elim (Bool-cases (status == 0)) [
  | inl e ↦ rw e ((refl, refl), (refl, (refl, (refl, refl))))
  | inr e ↦ rw e (refl, ap not e)
]

redraw-screen :
    (alive : Bool) (status : ℕ) (p : Present) (w surface d m u : Bool) (id : ℕ) (damaged : Bool)
    (root : Option Priv)
    → Answers alive status
        (screen p w surface d m u id damaged root)
        (redraw alive status (screen p w surface d m u id damaged root))
unfolding redraw
redraw-screen false status p w surface d m u id true root =
    ((refl, refl), (refl, (refl, (refl, refl))))
redraw-screen false status p w surface d m u id false root =
    ((refl, refl), (refl, (refl, (refl, refl))))
redraw-screen true status p w false d m u id true root =
    ((refl, refl), (refl, (refl, (refl, refl))))
redraw-screen true status p w false d m u id false root =
    ((refl, refl), (refl, (refl, (refl, refl))))
redraw-screen true status p w true d m u id true none = ((refl, refl), (refl, (refl, (refl, refl))))
redraw-screen true status p w true d m u id false none =
    ((refl, refl), (refl, (refl, (refl, refl))))
redraw-screen true status p w true d m u id damaged (some priv) =
    draw-Answers status p w d m u id damaged priv.buffer priv.locked

-- A frame in which the X server does not die takes the next step of the msc and tells the vblanks
-- of that step, and it clears the flag that makes the renderer wait for a frame. Damage to the root
-- window is cleared exactly where the connection is alive, there is a surface and the root window
-- has a buffer, and then the renderer is signalled; otherwise the damage stays. Where the
-- connection is alive, there is a surface and the root window has a private part, the renderer is
-- signalled exactly where damage was cleared, drawing was asked for, or the cursor was moved or
-- updated; otherwise it is not. A signalled renderer is told of the buffer of the root window, and
-- another one keeps what it was told. The X server dies only where damage is to be cleared for a
-- locked buffer that can not be locked again.
pub redraw-Answers :
    (alive : Bool) (status : ℕ) (s : Screen) → Answers alive status s (redraw alive status s)
redraw-Answers alive status s =
    redraw-screen alive status s.present s.shared.wait_for_next_frame s.shared.surface_available
      s.shared.draw_requested s.shared.cursor_moved s.shared.cursor_updated
      s.shared.root_window_texture_id s.damaged s.root
