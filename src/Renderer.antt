-- ===== src/Renderer.antt =====
-- The renderer of the activity, renderer.c, without GL.
pub mod Buffers
pub mod Thread
mod Examples
