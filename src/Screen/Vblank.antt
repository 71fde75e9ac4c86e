-- ===== src/Screen/Vblank.antt =====
-- The waiting vblanks of the Present extension and the drawing of a frame in InitOutput.c. The time
-- stamps of `present_event_notify` are left out.
use termux_x11_virtualkeys.Base.{
  ℕ, zero, suc, ◌+◌, ◌%◌, ◌^◌, ◌==◌, leb, ltb, not, ◌&&◌, ◌||◌, Bool, true, false, Option, none,
  some, List, [], ◌∷◌, if◌then◌else◌,
}
pub mod Order
pub mod Drawing

-- `struct vblank`.
pub record Vblank : Type 0 where
  pub id : ℕ
  pub msc : ℕ

-- `present_event_notify`.
pub record Notice : Type 0 where
  pub id : ℕ
  pub msc : ℕ

-- `vblank_queue`, the last one in front, and `current_msc`.
pub record Present : Type 0 where
  pub queue : List Vblank
  pub current_msc : ℕ

-- `loriePresentQueueVblank`: Success, or BadAlloc.
unfoldable pub queue_vblank : (allocates : Bool) → (event_id msc : ℕ) → Present → ℕ × Present
queue_vblank false event_id msc s = (11, s)
queue_vblank true event_id msc s =
    (0, record s { queue = (record { id = event_id; msc = msc }) ∷ s.queue })

-- The loop of `loriePresentAbortVblank`.
unfoldable pub remove_first : ℕ → List Vblank → List Vblank
remove_first id [] = []
remove_first id (v ∷ queue) =
    let rest = remove_first id queue in if v.id == id then queue else v ∷ rest

-- `loriePresentAbortVblank`.
unfoldable pub abort_vblank : ℕ → Present → Present
unfolding remove_first
abort_vblank id s = record s { queue = remove_first id s.queue }

-- The loop of `loriePerformVblanks`: what is told, and what waits on. `present_event_notify` is taken
-- not to call back into this file: a flip that it makes, which changes `current_msc` and the queue
-- while the loop runs, is not modelled.
unfoldable pub perform_loop : (current_msc : ℕ) → List Vblank → List Notice × List Vblank
perform_loop current_msc [] = ([], [])
perform_loop current_msc (v ∷ queue) =
    let (told, rest) = perform_loop current_msc queue in
    if leb v.msc current_msc
    then ((record { id = v.id; msc = current_msc }) ∷ told, rest)
    else (told, v ∷ rest)

-- `loriePerformVblanks`.
unfoldable pub perform_vblanks : Present → List Notice × Present
unfolding perform_loop
perform_vblanks s =
    let (told, rest) = perform_loop s.current_msc s.queue in (told, record s { queue = rest })

-- The first two statements of `lorieRedraw`.
unfoldable pub next_msc : Present → List Notice × Present
unfolding perform_vblanks
next_msc s = perform_vblanks (record s { current_msc = (s.current_msc + 1) % 2 ^ 64 })

-- The msc and the notice of `loriePresentAfterFlip`.
unfoldable pub after_flip : (event_id target_msc : ℕ) → Present → Notice × Present
after_flip event_id target_msc s =
    let next = (s.current_msc + 1) % 2 ^ 64 in
    let msc = if ltb next target_msc then next else target_msc in
    (record { id = event_id; msc = msc }, record s { current_msc = msc })

-- What `lorie_shared_server_state` holds of the frame.
pub record Shared : Type 0 where
  pub wait_for_next_frame : Bool
  pub surface_available : Bool
  pub draw_requested : Bool
  pub cursor_moved : Bool
  pub cursor_updated : Bool
  pub root_window_texture_id : ℕ

-- `LoriePixmapPriv` of the root window: the identifier of its buffer, and whether it is locked.
pub record Priv : Type 0 where
  pub buffer : Option ℕ
  pub locked : Bool

pub record Screen : Type 0 where
  pub present : Present
  pub shared : Shared
  pub damaged : Bool
  pub root : Option Priv

-- A frame: what is told to clients, and whether the renderer is signalled; or a `FatalError`.
pub data Frame : Type 0 where
  fatal : Frame
  frame : List Notice → (signalled : Bool) → Screen → Frame

-- The damage is drawn: a buffer that is locked is unlocked and locked again, with `status`.
abbrev pub relock_fails : (status : ℕ) → Priv → Bool
relock_fails status priv = priv.locked && not (status == 0)

abbrev pub draw_damage : Screen → Screen
draw_damage s = record s { damaged = false; shared = record s.shared { draw_requested = true } }

-- The identifier of the buffer; that of no buffer is 0.
abbrev pub buffer_id : Option ℕ → ℕ
buffer_id none = 0
buffer_id (some id) = id

-- The end of `lorieRedraw`.
abbrev pub signal_renderer : List Notice → Priv → Screen → Frame
signal_renderer told priv s =
    if s.shared.draw_requested || (s.shared.cursor_moved || s.shared.cursor_updated)
    then frame told true
        (record s { shared = record s.shared { root_window_texture_id = buffer_id priv.buffer } })
    else frame told false s

-- `lorieRedraw` where the root window has a pixmap and there is a surface to draw on.
unfoldable pub draw : (status : ℕ) → List Notice → Priv → Screen → Frame
draw status told priv s = elim priv.buffer [
  | none ↦ signal_renderer told priv s
  | some id ↦
      if not s.damaged
      then signal_renderer told priv s
      else if relock_fails status priv
      then fatal
      else signal_renderer told priv (draw_damage s)
]

-- `lorieRedraw`.
unfoldable pub redraw : (alive : Bool) → (status : ℕ) → Screen → Frame
unfolding next_msc draw
redraw alive status s =
    let (told, present) = next_msc s.present in
    let s' = record s {
      present = present;
      shared = record s.shared { wait_for_next_frame = false };
    } in
    if not alive || not s.shared.surface_available
    then frame told false s'
    else elim s.root [ none ↦ frame told false s' | some priv ↦ draw status told priv s' ]
