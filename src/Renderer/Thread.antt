-- ===== src/Renderer/Thread.antt =====
-- The thread of renderer.c, round by round, and the calls that hand it a new state or window. Drawing
-- itself, the viewport and the answers of EGL are left out or parameters.
use termux_x11_virtualkeys.Base.{
  ℕ, ◌-◌, ◌%◌, ◌==◌, not, ◌&&◌, ◌||◌, Bool, true, false, Option, none, some, List, [], ◌∷◌,
  if◌then◌else◌,
}
use termux_x11_virtualkeys.Screen.Vblank.{Shared}
use termux_x11_virtualkeys.Renderer.Buffers.{
  Texture, Queues, find_by_id, attach_all, release_removed,
}
pub mod Rounds
pub mod Spins

-- A mapping of `lorie_shared_server_state`.
pub record Mapped : Type 0 where
  pub address : ℕ
  pub shared : Shared

pub data Surface : Type 0 where
  no_surface default_surface window_surface : Surface

-- The static variables of renderer.c and of its thread; the windows that were released and the states
-- that were unmapped.
pub record Renderer : Type 0 where
  pub queues : Queues
  pub state : Option Mapped
  pub pending_state : Option Mapped
  pub state_changed : Bool
  pub window_changed : Bool
  pub pending_win : Option ℕ
  pub win : ℕ
  pub sfc : Surface
  pub expected_w : ℕ
  pub expected_h : ℕ
  pub waiting_for_buffers : Bool
  pub last_requested : ℕ
  pub released_wins : List ℕ
  pub unmapped : List ℕ

-- What EGL and the windows answer.
pub record Egl : Type 0 where
  pub default_win : ℕ
  pub has_size : ℕ → Bool
  pub leaves_surface : Bool
  pub creates_surface : Bool
  pub makes_current : Bool

abbrev pub is_some {ℓ} : {A : Type ℓ} → Option A → Bool
is_some none = false
is_some (some a) = true

abbrev pub is_empty : List Texture → Bool
is_empty [] = true
is_empty (t ∷ ts) = false

-- The mapped state, with its shared part changed.
abbrev pub on_shared : (Shared → Shared) → Option Mapped → Option Mapped
on_shared change none = none
on_shared change (some m) = some (record m { shared = change m.shared })

-- `rendererSetSharedState`, up to the wait for the thread.
unfoldable pub set_shared_state : Option Mapped → Renderer → Renderer
set_shared_state new_state r = record r { pending_state = new_state; state_changed = true }

abbrev pub same_win : Option ℕ → ℕ → Bool
same_win none w = false
same_win (some v) w = v == w

abbrev pub release_pending : Option ℕ → List ℕ → List ℕ
release_pending none wins = wins
release_pending (some w) wins = w ∷ wins

abbrev pub replace_window : Option ℕ → Renderer → Renderer
replace_window new_win r = record r {
  released_wins = release_pending r.pending_win r.released_wins;
  pending_win = new_win;
  expected_w = 0;
  expected_h = 0;
  window_changed = true;
}

-- `rendererSetWindow`, up to the wait for the thread.
unfoldable pub set_window : Option ℕ → Renderer → Renderer
set_window none r = replace_window none r
set_window (some w) r =
    if same_win r.pending_win w
    then record r { released_wins = w ∷ r.released_wins }
    else replace_window (some w) r

module _ (egl : Egl) where
  abbrev pub release_win : ℕ → List ℕ → List ℕ
  release_win w wins = if w == egl.default_win then wins else w ∷ wins

  -- `releaseWinAndSurface(&win, &sfc)`.
  abbrev pub to_default : Surface → Renderer → Renderer
  to_default sfc r = record r {
    sfc = sfc;
    released_wins = release_win r.win r.released_wins;
    win = egl.default_win;
  }

  unfoldable pub release_surface : Renderer → Renderer
  release_surface r = elim r.sfc [
    | no_surface ↦ to_default no_surface r
    | default_surface ↦ to_default default_surface r
    | window_surface ↦ if egl.leaves_surface then to_default default_surface r else r
  ]

  -- The pending window, replaced by the default one where it has no size.
  abbrev pub check_window : Option ℕ → Renderer → Renderer
  check_window none r = r
  check_window (some w) r = if egl.has_size w then r else record r {
    pending_win = some egl.default_win;
    released_wins = release_win w r.released_wins;
  }

  -- The end of `rendererRefreshContext`.
  unfoldable pub use_window : Option ℕ → Renderer → Renderer
  use_window none r = record r {
    win = egl.default_win;
    state = on_shared (λ s. record s { surface_available = false }) r.state;
  }
  use_window (some w) r =
      if not egl.creates_surface
      then record r { win = w; sfc = no_surface }
      else if not egl.makes_current
      then record r {
        win = w;
        sfc = window_surface;
        state = on_shared (λ s. record s { surface_available = false }) r.state;
      }
      else (let available = not (w == egl.default_win) in
          record r {
            win = w;
            sfc = window_surface;
            state =
                on_shared
                  (λ s. record s {
                    surface_available = available;
                    draw_requested = available;
                    cursor_updated = available;
                  })
                  r.state;
          })

  -- `rendererRefreshContext`.
  unfoldable pub refresh_context : Renderer → Renderer
  unfolding release_surface use_window
  refresh_context r =
      let r' = release_surface r in
      let checked = check_window r'.pending_win r' in
      use_window checked.pending_win (record checked { pending_win = none; window_changed = false })

  -- The old state is unmapped where another one replaces it.
  abbrev pub unmap_old : (old new : Option Mapped) → List ℕ → List ℕ
  unmap_old none new l = l
  unmap_old (some old) none l = old.address ∷ l
  unmap_old (some old) (some new) l = if old.address == new.address then l else old.address ∷ l

  -- The branch of `rendererThread` for a changed state.
  unfoldable pub apply_state : Renderer → Renderer
  apply_state r =
      let available = not (r.win == egl.default_win) in
      record r {
        state = on_shared (λ s. record s { surface_available = available }) r.pending_state;
        pending_state = none;
        state_changed = false;
        waiting_for_buffers = false;
        unmapped = unmap_old r.state r.pending_state r.unmapped;
      }

-- There is something to draw.
abbrev pub wants_drawing : Shared → Bool
wants_drawing s = s.draw_requested || (s.cursor_moved || s.cursor_updated)

abbrev pub other_buffer : Option Mapped → Renderer → Renderer
other_buffer none r = r
other_buffer (some m) r = record r {
  waiting_for_buffers =
      if r.last_requested == m.shared.root_window_texture_id then r.waiting_for_buffers else false;
  last_requested = m.shared.root_window_texture_id;
}

-- The tests of `rendererShouldWait` on the state.
abbrev pub nothing_to_draw : Option Mapped → (waiting : Bool) → Bool
nothing_to_draw none waiting = true
nothing_to_draw (some m) waiting =
    if not m.shared.surface_available || (m.shared.wait_for_next_frame || waiting)
    then true
    else not (wants_drawing m.shared)

-- `rendererShouldWait`.
unfoldable pub should_wait : Renderer → Bool × Renderer
should_wait r =
    let changed = not (is_empty r.queues.added) || not (is_empty r.queues.removed) in
    let r' = other_buffer r.state r in
    if r.state_changed || (r.window_changed || changed)
    then (false, r)
    else (nothing_to_draw r'.state r'.waiting_for_buffers, r')

-- The buffer of the root window, also where it is removed already.
abbrev pub root_buffer : ℕ → Queues → Option Texture
root_buffer id q = elim (find_by_id id q.buffers) [
  | some t ↦ some t
  | none ↦ find_by_id id q.removed
]

abbrev pub cvt_h_granularity : ℕ
cvt_h_granularity = 8

-- The buffer is of the size that the surface expects.
abbrev pub fits_surface : Renderer → Texture → Bool
fits_surface r t =
    not (r.expected_w == 0)
    && (not (r.expected_h == 0)
        && (t.height == r.expected_h
            && (t.width == r.expected_w - r.expected_w % cvt_h_granularity
                || t.width == r.expected_w)))

abbrev pub after_drawing : Shared → Shared
after_drawing s = record s {
  draw_requested = false;
  cursor_updated = false;
  cursor_moved = false;
  wait_for_next_frame = true;
}

-- `rendererRedrawLocked`, as far as the state goes.
unfoldable pub redraw_locked : Mapped → Renderer → Renderer
unfolding find_by_id
redraw_locked m r = elim (root_buffer m.shared.root_window_texture_id r.queues) [
  | none ↦ record r { waiting_for_buffers = true }
  | some t ↦ if fits_surface r t then record r { state = on_shared after_drawing r.state } else r
]

abbrev pub attach_added : Renderer → Renderer
attach_added r = record r {
  queues = attach_all r.queues;
  waiting_for_buffers = if is_empty r.queues.added then r.waiting_for_buffers else false;
}

abbrev pub draw_if_wanted : Option Mapped → Renderer → Renderer
draw_if_wanted none r = r
draw_if_wanted (some m) r =
    if m.shared.surface_available && (not m.shared.wait_for_next_frame && wants_drawing m.shared)
    then redraw_locked m r
    else r

-- A round of `rendererThread`, once it need not wait.
unfoldable pub round : Egl → Renderer → Renderer
unfolding apply_state refresh_context redraw_locked
round egl r =
    let r1 = if r.state_changed then apply_state egl r else r in
    let r2 = if r1.window_changed then refresh_context egl r1 else r1 in
    let r3 = attach_added r2 in
    let r4 = draw_if_wanted r3.state r3 in record r4 { queues = release_removed r4.queues }
