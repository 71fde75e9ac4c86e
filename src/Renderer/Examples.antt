-- ===== src/Renderer/Examples.antt =====
-- The renderer with two buffers.
use termux_x11_virtualkeys.Base.{◌+◌, ◌≡◌, refl, true, false, none, some, List, [], ◌∷◌}
use termux_x11_virtualkeys.Renderer.Buffers.{
  Texture, Queues, add_buffer, remove_buffer, remove_all_buffers, attach_all, release_removed,
}
use termux_x11_virtualkeys.Renderer.Buffers.Held.{
  times, came, in_gl, Call, adds, removes, removes_all, attaches, releases, run, added_times,
  run-Held,
}
use termux_x11_virtualkeys.Renderer.Thread.{
  Mapped, default_surface, window_surface, Renderer, Egl, round,
}
use termux_x11_virtualkeys.Renderer.Thread.Rounds.{Settled, round-Settled}

abbrev root_texture : Texture
root_texture = record { id = 7; width = 1280; height = 1024 }

abbrev no_buffers : Queues
no_buffers = record {
  added = [];
  buffers = [];
  removed = [];
  attached = [];
  released = [];
  released_in_gl = [];
}

abbrev calls : List Call
calls =
    adds root_texture
    ∷ attaches
    ∷ adds (record { id = 8; width = 4; height = 4 })
    ∷ removes 7
    ∷ removes 8
    ∷ releases
    ∷ removes_all
    ∷ []

-- The attached buffer is released by the thread, the other one by the main thread.
run-calls : run calls no_buffers ≡ (record no_buffers {
  attached = root_texture ∷ [];
  released = (record { id = 8; width = 4; height = 4 }) ∷ [];
  released_in_gl = root_texture ∷ [];
})
unfolding run remove_all_buffers release_removed remove_buffer add_buffer attach_all
run-calls = refl

run-Held_example :
    (came 7 (run calls no_buffers) ≡ came 7 no_buffers + added_times 7 calls)
    × (in_gl 7 (run calls no_buffers) ≡ times 7 (run calls no_buffers).attached)
unfolding times
run-Held_example = run-Held 7 calls no_buffers refl

abbrev phone_egl : Egl
phone_egl = record {
  default_win = 1;
  has_size = λ w. true;
  leaves_surface = true;
  creates_surface = true;
  makes_current = true;
}

abbrev wanted : Mapped
wanted = record {
  address = 100;
  shared = record {
    wait_for_next_frame = false;
    surface_available = true;
    draw_requested = true;
    cursor_moved = false;
    cursor_updated = false;
    root_window_texture_id = 7;
  };
}

abbrev started : Renderer
started = record {
  queues = record no_buffers { added = root_texture ∷ [] };
  state = none;
  pending_state = some wanted;
  state_changed = true;
  window_changed = true;
  pending_win = some 2;
  win = 1;
  sfc = default_surface;
  expected_w = 1280;
  expected_h = 1024;
  waiting_for_buffers = false;
  last_requested = 0;
  released_wins = [];
  unmapped = [];
}

round-Settled_example : Settled phone_egl started (round phone_egl started)
round-Settled_example = round-Settled phone_egl started

-- The surface was resized, and the X server has not followed yet.
abbrev resized : Renderer
resized = record started {
  queues = record no_buffers { buffers = root_texture ∷ [] };
  state = some wanted;
  pending_state = none;
  state_changed = false;
  window_changed = false;
  pending_win = none;
  win = 2;
  sfc = window_surface;
  expected_w = 1920;
  expected_h = 1080;
}
