-- ===== src/Keyboard.antt =====
-- The keyboard: InputXKB.c.
pub mod Xkb
pub mod Translate
pub mod Lookup
pub mod Modifiers
pub mod Added
pub mod Event
mod Examples
