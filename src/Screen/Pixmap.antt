-- ===== src/Screen/Pixmap.antt =====
-- The access to pixmaps and the pixmap of the root window: `loriePrepareAccess`, `lorieFinishAccess`,
-- `lorieModifyPixmapHeader` and `lorieSetWindowPixmap` of InitOutput.c, on the locks of buffer.c.
use termux_x11_virtualkeys.Base.{
  ℕ, ◌+◌, ◌-◌, ◌==◌, not, ◌&&◌, ◌||◌, Bool, true, false, Option, none, some, if◌then◌else◌,
}
use termux_x11_virtualkeys.Buffer.Os.{Os}
use termux_x11_virtualkeys.Buffer.Alloc.{LorieBuffer}
use termux_x11_virtualkeys.Buffer.Lock.{Locking, lock, unlock}
pub mod Granted
pub mod Life

-- `LoriePixmapPriv`, without `flipped` and `imported`.
pub record Pixmap : Type 0 where
  pub buffer : Option LorieBuffer
  pub locked : Option ℕ
  pub was_locked : Bool
  pub mem : Option ℕ

-- A pixmap, how often this process holds the mutex of the shared state, which is recursive, and the
-- pixels.
pub record Access : Type 0 where
  pub pixmap : Pixmap
  pub state_locked : ℕ
  pub ptr : Option ℕ

abbrev pub is_none : Option ℕ → Bool
is_none none = true
is_none (some a) = false

-- `*out` after a call that stores it or not.
abbrev pub stored : Option (Option ℕ) → Option ℕ → Option ℕ
stored none old = old
stored (some address) old = address

-- priv->locked ?: priv->mem
abbrev pub pixels_at : Option ℕ → Option ℕ → Option ℕ
pixels_at none mem = mem
pixels_at (some address) mem = some address

-- `LorieBuffer_lock(priv->buffer, &priv->locked)`.
abbrev pub lock_pixmap : Locking → Pixmap → Pixmap
lock_pixmap l p = record p { buffer = l.buffer; locked = stored l.out p.locked }

-- `loriePrepareAccess`; `is_screen` says that the screen's pixmap is the destination.
unfoldable pub prepare_access : Os → (is_screen : Bool) → Access → Bool × Access
prepare_access os is_screen a =
    let held = if is_screen then a.state_locked + 1 else a.state_locked in
    let l = lock os a.pixmap.buffer in
    let p = lock_pixmap l a.pixmap in
    if not (is_none a.pixmap.locked && is_none a.pixmap.mem)
    then (
      true,
      record {
        pixmap = record a.pixmap { was_locked = true };
        state_locked = held;
        ptr = pixels_at a.pixmap.locked a.pixmap.mem;
      },
    )
    else if not (l.ret == 0)
    then (false, record { pixmap = p; state_locked = held; ptr = a.ptr })
    else (
      true,
      record {
        pixmap = record p { was_locked = false };
        state_locked = held;
        ptr = pixels_at p.locked p.mem;
      },
    )

-- `lorieFinishAccess`. A mutex that is not held stays so.
unfoldable pub finish_access : Os → (is_screen : Bool) → Access → Access
finish_access os is_screen a =
    let held = if is_screen then a.state_locked - 1 else a.state_locked in
    if a.pixmap.was_locked then record a { state_locked = held } else record a {
      pixmap = record a.pixmap {
        buffer = (unlock os a.pixmap.buffer).buffer;
        locked = none;
        was_locked = false;
      };
      state_locked = held;
    }

-- `lorieModifyPixmapHeader`.
abbrev pub modify_pixmap_header : Option ℕ → Pixmap → Pixmap
modify_pixmap_header none p = p
modify_pixmap_header (some address) p = record p { mem = some address }

-- `lorieSetWindowPixmap` for the root window: what is done to the old and to the new pixmap.
abbrev pub has_buffer : Option LorieBuffer → Bool
has_buffer none = false
has_buffer (some b) = true

unfoldable pub leave_root : Os → Pixmap → Pixmap
leave_root os p =
    if has_buffer p.buffer && not (is_none p.locked)
    then record p { buffer = (unlock os p.buffer).buffer; locked = none; was_locked = false }
    else p

unfoldable pub enter_root : Os → Pixmap → Pixmap
enter_root os p =
    if has_buffer p.buffer && is_none p.locked
    then record (lock_pixmap (lock os p.buffer) p) { was_locked = false }
    else p
