-- ===== src/Buffer.antt =====
-- The shared pixel buffers of buffer.c and buffer.h.
pub mod Os
pub mod Region
pub mod Alloc
pub mod Leaks
pub mod Refcount
pub mod Lock
pub mod Convert
pub mod Transfer
pub mod Wrap
mod Examples
