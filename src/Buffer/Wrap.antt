-- ===== src/Buffer/Wrap.antt =====
-- What becomes of the handles given to `LorieBuffer_wrapFileDescriptor` and
-- `LorieBuffer_wrapAHardwareBuffer`.
use termux_x11_virtualkeys.Base.{ℕ, ◌≡◌, refl, ltb, ◌&&◌, true, false, Option, none, some}
use termux_x11_virtualkeys.Buffer.Os.{Os, Res, open_fd, take_ahb}
use termux_x11_virtualkeys.Buffer.Alloc.{
  World, is_pixel_format, wrap_file_descriptor, wrap_hardware_buffer, allocate, allocate_backing,
  allocate_fd, duplicate,
}
use termux_x11_virtualkeys.Buffer.Leaks.{
  Balanced, resources, allocate_fd-Balanced, allocate_hardware-Balanced,
}

-- The buffer around a descriptor, of an acceptable size and format, keeps a duplicate of it and has
-- one reference: its release gives back all that the call took, so the descriptor given is still
-- open and the caller's. Where no buffer is made, nothing is taken.
pub wrap_file_descriptor-Balanced :
    (os : Os) (width stride height format fd offset : ℕ) (w : World)
    → (is_pixel_format format && (ltb 0 width && ltb 0 height)) ≡ true
    → Balanced os w.res
        (resources (wrap_file_descriptor os width stride height format (some fd) offset w))
unfolding wrap_file_descriptor allocate allocate_backing duplicate
wrap_file_descriptor-Balanced os width stride height format fd offset w okay =
    go (os.dup w.res fd) refl
  where
    go :
        (o : Option ℕ)
        → os.dup w.res fd ≡ o
        → Balanced os w.res
            (resources (wrap_file_descriptor os width stride height format (some fd) offset w))
    go none e =
        rw (okay, e, wrap_file_descriptor, allocate, duplicate, allocate_backing)
          (unfold allocate_fd in refl)
    go (some fd') e =
        rw (okay, e, wrap_file_descriptor, allocate, duplicate, allocate_backing)
          (allocate_fd-Balanced os _ w.res fd' (refl, refl) refl refl)

-- Where the size or the format is not acceptable, no buffer is made and the duplicate stays open.
pub wrap_file_descriptor_leak :
    (os : Os) (width stride height format fd fd' offset : ℕ) (w : World)
    → (is_pixel_format format && (ltb 0 width && ltb 0 height)) ≡ false
    → os.dup w.res fd ≡ some fd'
    → resources (wrap_file_descriptor os width stride height format (some fd) offset w)
      ≡ (none, open_fd fd' w.res)
unfolding wrap_file_descriptor allocate duplicate
wrap_file_descriptor_leak os width stride height format fd fd' offset w bad e =
    rw (bad, e, wrap_file_descriptor, allocate, duplicate) refl

-- The reference to a hardware buffer that is given goes with the buffer, or at once where the block
-- of the buffer cannot be had: what is left then is what there was without that reference.
pub wrap_hardware_buffer-Balanced :
    (os : Os) (h id : ℕ) (r : Res)
    → Balanced os r
        (resources (wrap_hardware_buffer os (some h) (record { next_id = id; res = take_ahb h r })))
unfolding wrap_hardware_buffer allocate allocate_backing duplicate
wrap_hardware_buffer-Balanced os h id r = allocate_hardware-Balanced os _ r h (refl, refl) refl refl
