-- ===== src/Renderer/Thread/Rounds/Parts.antt =====
-- The parts of a round of the thread of renderer.c: the drawing, the change of the window, the lists.
use termux_x11_virtualkeys.Base.{
  ℕ, ◌≡◌, refl, sym, ap, ◌∙◌, not, ◌&&◌, true, false, Bool-cases, inl, inr, if_property, Option,
  none, some, if◌then◌else◌, List, [], ◌∷◌, ◌++◌, append_assoc,
}
use mathlib.Core.List.{reverse, reverse-cons}
use termux_x11_virtualkeys.Screen.Vblank.{Shared}
use termux_x11_virtualkeys.Renderer.Buffers.{Texture, Queues, move_all, attach_all, release_removed}
use termux_x11_virtualkeys.Renderer.Thread.{
  Mapped, Surface, no_surface, default_surface, window_surface, Renderer, Egl, on_shared,
  after_drawing, to_default, release_surface, check_window, use_window, refresh_context,
  wants_drawing, root_buffer, fits_surface, redraw_locked, draw_if_wanted,
}

-- Which mapping it is.
abbrev pub address_of : Option Mapped → Option ℕ
address_of none = none
address_of (some m) = some m.address

pub address_of-on_shared :
    (change : Shared → Shared) (o : Option Mapped) → address_of (on_shared change o) ≡ address_of o
address_of-on_shared change none = refl
address_of-on_shared change (some m) = refl

-- A part of a round that leaves the lists and what is asked for, but for the window.
pub record Same (r r' : Renderer) : Type 0 where
  pub state_changed : r'.state_changed ≡ r.state_changed
  pub pending_state : r'.pending_state ≡ r.pending_state
  pub queues : r'.queues ≡ r.queues
  pub mapped : address_of r'.state ≡ address_of r.state

pub Same-refl : (r : Renderer) → Same r r
Same-refl r = record { state_changed = refl; pending_state = refl; queues = refl; mapped = refl }

Same-trans : {r r' r'' : Renderer} → Same r r' → Same r' r'' → Same r r''
Same-trans a b = record {
  state_changed = b.state_changed ∙ a.state_changed;
  pending_state = b.pending_state ∙ a.pending_state;
  queues = b.queues ∙ a.queues;
  mapped = b.mapped ∙ a.mapped;
}

Same-on_shared :
    (r r' : Renderer) (change : Shared → Shared)
    → Same r r'
    → Same r (record r' { state = on_shared change r'.state })
Same-on_shared r r' change s = record {
  state_changed = s.state_changed;
  pending_state = s.pending_state;
  queues = s.queues;
  mapped = address_of-on_shared change r'.state ∙ s.mapped;
}

-- The windows too.
pub record AllSame (r r' : Renderer) : Type 0 where
  pub same : Same r r'
  pub window_changed : r'.window_changed ≡ r.window_changed
  pub pending_win : r'.pending_win ≡ r.pending_win
  pub win : r'.win ≡ r.win

AllSame-refl : (r : Renderer) → AllSame r r
AllSame-refl r = record {
  same = Same-refl r;
  window_changed = refl;
  pending_win = refl;
  win = refl;
}

redraw_locked-AllSame : (m : Mapped) (r : Renderer) → AllSame r (redraw_locked m r)
unfolding redraw_locked
redraw_locked-AllSame m r = go (root_buffer m.shared.root_window_texture_id r.queues)
  where
    waiting : AllSame r (record r { waiting_for_buffers = true })
    waiting = record {
      same = record { state_changed = refl; pending_state = refl; queues = refl; mapped = refl };
      window_changed = refl;
      pending_win = refl;
      win = refl;
    }

    drawn : AllSame r (record r { state = on_shared after_drawing r.state })
    drawn = record {
      same = Same-on_shared r r after_drawing (Same-refl r);
      window_changed = refl;
      pending_win = refl;
      win = refl;
    }

    go :
        (o : Option Texture)
        → AllSame r (elim o as (λ _. Renderer) [
          | none ↦ record r { waiting_for_buffers = true }
          | some t ↦
              if fits_surface r t then record r { state = on_shared after_drawing r.state } else r
        ])
    go none = waiting
    go (some t) = if_property (AllSame r) (fits_surface r t) drawn (AllSame-refl r)

pub draw_if_wanted-AllSame : (o : Option Mapped) (r : Renderer) → AllSame r (draw_if_wanted o r)
draw_if_wanted-AllSame none r = AllSame-refl r
draw_if_wanted-AllSame (some m) r =
    if_property (AllSame r)
      (m.shared.surface_available && (not m.shared.wait_for_next_frame && wants_drawing m.shared))
      (redraw_locked-AllSame m r) (AllSame-refl r)

-- A part that leaves the pending window too.
abbrev Pending : Renderer → Renderer → Type 0
Pending r r' = Same r r' × (r'.pending_win ≡ r.pending_win)

to_default-Pending : (egl : Egl) (s : Surface) (r : Renderer) → Pending r (to_default egl s r)
to_default-Pending egl s r =
    (record { state_changed = refl; pending_state = refl; queues = refl; mapped = refl }, refl)

release_surface-Pending : (egl : Egl) (r : Renderer) → Pending r (release_surface egl r)
unfolding release_surface
release_surface-Pending egl r = go r.sfc
  where
    go :
        (s : Surface)
        → Pending r (elim s as (λ _. Renderer) [
          | no_surface ↦ to_default egl no_surface r
          | default_surface ↦ to_default egl default_surface r
          | window_surface ↦ if egl.leaves_surface then to_default egl default_surface r else r
        ])
    go no_surface = to_default-Pending egl no_surface r
    go default_surface = to_default-Pending egl default_surface r
    go window_surface =
        if_property (Pending r) egl.leaves_surface (to_default-Pending egl default_surface r)
          (Same-refl r, refl)

-- The window that is used for the pending one.
abbrev pub usable : Egl → Option ℕ → Option ℕ
usable egl none = none
usable egl (some w) = if egl.has_size w then some w else some egl.default_win

abbrev pub window_or_default : Egl → Option ℕ → ℕ
window_or_default egl none = egl.default_win
window_or_default egl (some w) = w

check_window-usable :
    (egl : Egl) (o : Option ℕ) (r : Renderer)
    → r.pending_win ≡ o
    → Same r (check_window egl o r) × ((check_window egl o r).pending_win ≡ usable egl o)
check_window-usable egl none r p = (Same-refl r, p)
check_window-usable egl (some w) r p = elim (Bool-cases (egl.has_size w)) [
  | inl h ↦ rw h (Same-refl r, p)
  | inr h ↦
      rw h
        (record { state_changed = refl; pending_state = refl; queues = refl; mapped = refl }, refl)
]

-- What `use_window` leaves.
abbrev Used : Egl → Option ℕ → Renderer → Renderer → Type 0
Used egl o r r' =
    Same r r'
    × ((r'.win ≡ window_or_default egl o)
        × ((r'.pending_win ≡ r.pending_win) × (r'.window_changed ≡ r.window_changed)))

use_window-Used : (egl : Egl) (o : Option ℕ) (r : Renderer) → Used egl o r (use_window egl o r)
unfolding use_window
use_window-Used egl none r = (
  Same-on_shared r (record r { win = egl.default_win }) _
      (record { state_changed = refl; pending_state = refl; queues = refl; mapped = refl }),
  (refl, (refl, refl)),
)
use_window-Used egl (some w) r = elim (Bool-cases egl.creates_surface) [
  | inr h ↦ rw h (
    record { state_changed = refl; pending_state = refl; queues = refl; mapped = refl },
    (refl, (refl, refl)),
  )
  | inl h ↦ elim (Bool-cases egl.makes_current) [
    | inl k ↦ rw (h, k) (Same-on_shared r shown _ kept, (refl, (refl, refl)))
    | inr k ↦ rw (h, k) (Same-on_shared r shown _ kept, (refl, (refl, refl)))
  ]
]
  where
    shown : Renderer
    shown = record r { win = w; sfc = window_surface }

    kept : Same r shown
    kept = record { state_changed = refl; pending_state = refl; queues = refl; mapped = refl }

-- The window that was asked for is taken, and what else is asked for stays.
pub refresh_context-taken :
    (egl : Egl) (r : Renderer)
    → Same r (refresh_context egl r)
      × (((refresh_context egl r).win ≡ window_or_default egl (usable egl r.pending_win))
          × (((refresh_context egl r).pending_win ≡ none)
              × ((refresh_context egl r).window_changed ≡ false)))
unfolding refresh_context
refresh_context-taken egl r = (
  Same-trans released.0 (Same-trans checked.0 (Same-trans cleared_same used.0)),
  (
    used.1.0 ∙ ap (window_or_default egl) (checked.1 ∙ ap (usable egl) released.1),
    (used.1.1.0, used.1.1.1),
  ),
)
  where
    r' : Renderer
    r' = release_surface egl r

    r'' : Renderer
    r'' = check_window egl r'.pending_win r'

    cleared : Renderer
    cleared = record r'' { pending_win = none; window_changed = false }

    released : Pending r r'
    released = release_surface-Pending egl r

    checked : Same r' r'' × (r''.pending_win ≡ usable egl r'.pending_win)
    checked = check_window-usable egl r'.pending_win r' refl

    cleared_same : Same r'' cleared
    cleared_same = record {
      state_changed = refl;
      pending_state = refl;
      queues = refl;
      mapped = refl;
    }

    used : Used egl r''.pending_win cleared (use_window egl r''.pending_win cleared)
    used = use_window-Used egl r''.pending_win cleared

-- The loop leaves the buffers in front of the other list, the last one first.
move_all-reverse : (from to : List Texture) → move_all from to ≡ reverse from ++ to
unfolding move_all
move_all-reverse [] to = refl
move_all-reverse (t ∷ from) to =
    move_all-reverse from (t ∷ to)
    ∙ sym (append_assoc (reverse from) (t ∷ []) to)
    ∙ ap (λ l. l ++ to) (sym (reverse-cons t from))

-- The lists after a round.
abbrev pub settled : Queues → Queues
settled q = record q {
  added = [];
  attached = reverse q.added ++ q.attached;
  buffers = reverse q.added ++ q.buffers;
  removed = [];
  released_in_gl = reverse q.removed ++ q.released_in_gl;
}

pub settled-release_removed : (q : Queues) → release_removed (attach_all q) ≡ settled q
unfolding release_removed attach_all
settled-release_removed q =
    rw
      (
        move_all-reverse q.added q.attached,
        move_all-reverse q.added q.buffers,
        move_all-reverse q.removed q.released_in_gl,
      )
      refl
