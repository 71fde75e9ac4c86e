-- ===== src/Clipboard.antt =====
-- app/src/main/cpp/lorie/clipboard.c: text conversions, and the two directions of the clipboard.
pub mod Text
pub mod State
pub mod Receive
pub mod Serve
pub mod Steps
mod Examples
