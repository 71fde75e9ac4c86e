-- ===== src/Screen.antt =====
-- The screen driver, InitOutput.c.
pub mod Cursor
pub mod Vblank
mod Examples
pub mod Pixmap
pub mod Flip
pub mod Configure
pub mod Import
