-- ===== src/Renderer/Thread/Spins.antt =====
-- A round for a buffer that is not of the size that the surface expects.
use termux_x11_virtualkeys.Base.{◌≡◌, true, false, some, []}
use termux_x11_virtualkeys.Renderer.Buffers.{Texture, find_by_id}
use termux_x11_virtualkeys.Renderer.Thread.{Mapped, Renderer, wants_drawing, fits_surface}

-- The buffer of the root window is there, and is not of the size that is expected.
abbrev pub Misfits : Renderer → Mapped → Texture → Type 0
Misfits r m t =
    (find_by_id m.shared.root_window_texture_id r.queues.buffers ≡ some t)
    × (fits_surface r t ≡ false)

-- Nothing is asked for.
abbrev pub Quiet : Renderer → Type 0
Quiet r =
    (r.state_changed ≡ false)
    × ((r.window_changed ≡ false) × ((r.queues.added ≡ []) × (r.queues.removed ≡ [])))

-- The state wants a frame and the surface could take it.
abbrev pub Wanted : Mapped → Type 0
Wanted m =
    (m.shared.surface_available ≡ true)
    × ((m.shared.wait_for_next_frame ≡ false) × (wants_drawing m.shared ≡ true))
