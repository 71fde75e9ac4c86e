-- ===== src/Renderer/Thread/Rounds.antt =====
-- A round of the thread of renderer.c against what the calls have asked for.
use termux_x11_virtualkeys.Base.{
  ℕ, ◌≡◌, refl, sym, ap, ◌∙◌, not, ◌&&◌, Bool, true, false, Bool-cases, inl, inr, if_property,
  Option, none, some, if◌then◌else◌, List, [], ◌∷◌, ◌++◌, append_assoc,
}
use mathlib.Core.List.{reverse, reverse-cons}
use termux_x11_virtualkeys.Screen.Vblank.{Shared}
use termux_x11_virtualkeys.Renderer.Buffers.{Texture, Queues, move_all, attach_all, release_removed}
use termux_x11_virtualkeys.Renderer.Thread.{
  Mapped, Surface, no_surface, default_surface, window_surface, Renderer, Egl, on_shared,
  after_drawing, to_default, release_surface, check_window, use_window, refresh_context,
  apply_state, wants_drawing, root_buffer, fits_surface, redraw_locked, attach_added,
  draw_if_wanted, round,
}
use termux_x11_virtualkeys.Renderer.Thread.Rounds.Parts.{
  address_of, address_of-on_shared, Same, Same-refl, AllSame, draw_if_wanted-AllSame, usable,
  window_or_default, refresh_context-taken, settled, settled-release_removed,
}
mod Parts

-- What was asked for before a round, against what there is after it.
pub record Settled (egl : Egl) (r r' : Renderer) : Type 0 where
  pub state_changed : r'.state_changed ≡ false
  pub window_changed : r'.window_changed ≡ false
  pub mapped :
      address_of r'.state ≡ address_of (if r.state_changed then r.pending_state else r.state)
  pub pending_state : r'.pending_state ≡ (if r.state_changed then none else r.pending_state)
  pub win :
      r'.win
      ≡ (if r.window_changed then window_or_default egl (usable egl r.pending_win) else r.win)
  pub pending_win : r'.pending_win ≡ (if r.window_changed then none else r.pending_win)
  pub queues : r'.queues ≡ settled r.queues

-- The part of a round for a changed state.
record Applied (r r1 : Renderer) : Type 0 where
  state_changed : r1.state_changed ≡ false
  mapped : address_of r1.state ≡ address_of (if r.state_changed then r.pending_state else r.state)
  pending_state : r1.pending_state ≡ (if r.state_changed then none else r.pending_state)
  window_changed : r1.window_changed ≡ r.window_changed
  win : r1.win ≡ r.win
  pending_win : r1.pending_win ≡ r.pending_win
  queues : r1.queues ≡ r.queues

apply_state-Applied :
    (egl : Egl) (r : Renderer) → Applied r (if r.state_changed then apply_state egl r else r)
unfolding apply_state
apply_state-Applied egl r = elim (Bool-cases r.state_changed) [
  | inl h ↦ record {
    state_changed = rw h refl;
    mapped = rw h (address_of-on_shared _ r.pending_state);
    pending_state = rw h refl;
    window_changed = rw h refl;
    win = rw h refl;
    pending_win = rw h refl;
    queues = rw h refl;
  }
  | inr h ↦ record {
    state_changed = rw h refl;
    mapped = rw h refl;
    pending_state = rw h refl;
    window_changed = rw h refl;
    win = rw h refl;
    pending_win = rw h refl;
    queues = rw h refl;
  }
]

-- The part for a changed window.
record Refreshed (egl : Egl) (changed : Bool) (r1 r2 : Renderer) : Type 0 where
  same : Same r1 r2
  window_changed : r2.window_changed ≡ false
  win : r2.win ≡ (if changed then window_or_default egl (usable egl r1.pending_win) else r1.win)
  pending_win : r2.pending_win ≡ (if changed then none else r1.pending_win)

refresh_context-Refreshed :
    (egl : Egl) (r : Renderer) (changed : Bool)
    → r.window_changed ≡ changed
    → Refreshed egl changed r (if changed then refresh_context egl r else r)
refresh_context-Refreshed egl r true h =
    let (same, (win, (pending, taken))) = refresh_context-taken egl r in
    record { same = same; window_changed = taken; win = win; pending_win = pending }
refresh_context-Refreshed egl r false h = record {
  same = Same-refl r;
  window_changed = h;
  win = refl;
  pending_win = refl;
}

-- After a round neither a changed state nor a changed window is asked for. A changed state is
-- taken: the mapped state, by its address, is the one that was pending, and none is pending. A
-- changed window is taken: the window is the pending one where that has a size, the default one
-- otherwise, and none is pending. Where they did not change, they and what is pending stay. The
-- added buffers stand in front of the list of the buffers, each is attached to GL, and each removed
-- one is released there; none is left in these two lists.
pub round-Settled : (egl : Egl) (r : Renderer) → Settled egl r (round egl r)
unfolding round
round-Settled egl r = record {
  state_changed = drawn.same.state_changed ∙ second.same.state_changed ∙ first.state_changed;
  window_changed = drawn.window_changed ∙ second.window_changed;
  mapped = drawn.same.mapped ∙ second.same.mapped ∙ first.mapped;
  pending_state = drawn.same.pending_state ∙ second.same.pending_state ∙ first.pending_state;
  win = drawn.win ∙ second.win ∙ rw (first.window_changed, first.win, first.pending_win) refl;
  pending_win =
      drawn.pending_win ∙ second.pending_win ∙ rw (first.window_changed, first.pending_win) refl;
  queues =
      ap release_removed (drawn.same.queues ∙ ap attach_all (second.same.queues ∙ first.queues))
      ∙ settled-release_removed r.queues;
}
  where
    r1 : Renderer
    r1 = if r.state_changed then apply_state egl r else r

    r2 : Renderer
    r2 = if r1.window_changed then refresh_context egl r1 else r1

    first : Applied r r1
    first = apply_state-Applied egl r

    second : Refreshed egl r1.window_changed r1 r2
    second = refresh_context-Refreshed egl r1 r1.window_changed refl

    drawn : AllSame (attach_added r2) (draw_if_wanted (attach_added r2).state (attach_added r2))
    drawn = draw_if_wanted-AllSame (attach_added r2).state (attach_added r2)
