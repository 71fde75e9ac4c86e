-- ===== src/Buffer/Convert.antt =====
-- `LorieBuffer_convert` of buffer.c. The pixels that it copies are not modelled.
use termux_x11_virtualkeys.Base.{
  ℕ, ◌*◌, ◌≡◌, refl, ap, sym, ◌∙◌, not, false, Option, none, some, if◌then◌else◌, subst,
  if_property,
}
use termux_x11_virtualkeys.Buffer.Os.{
  Os, Res, Dims, remove-cons, open_fd, close_fd, map_at, free_block, take_ahb,
}
use termux_x11_virtualkeys.Buffer.Region.{
  align_to_page, create_region, NonZero, Created, created, not_created, create_region-Created,
}
use termux_x11_virtualkeys.Buffer.Alloc.{
  BufferType, unknown, regular, fd_backed, hardware, LorieBuffer, is_pixel_format, free_option,
  drop_backing, drop_texture, drop_image, free,
}

-- The buffer on a descriptor, and on a hardware buffer.
abbrev on_fd : LorieBuffer → (format size fd a : ℕ) → LorieBuffer
on_fd b format size fd a = record b {
  desc = record (b.desc) { type = fd_backed; format = format; pixels = some a };
  fd = some fd;
  size = size;
  offset = 0;
  locked_data = none;
  locked = false;
}

abbrev on_hardware : LorieBuffer → (format stride h : ℕ) → LorieBuffer
on_hardware b format stride h = record b {
  desc = record (b.desc) {
    type = hardware;
    format = format;
    stride = stride;
    buffer = some h;
    pixels = none;
  };
  locked_data = none;
  locked = false;
}

module _ (os : Os) where
  -- The pixels go to a new region.
  unfoldable pub convert_to_fd : LorieBuffer → ℕ → ℕ → Option ℕ × Res → LorieBuffer × Res
  convert_to_fd b format size (none, r) = (b, r)
  convert_to_fd b format size (some fd, r) = elim (os.mmap r fd size 0) [
    | none ↦ (b, close_fd fd r)
    | some a ↦ (on_fd b format size fd a, free_option (b.desc.pixels) (map_at a r))
  ]

  -- The pixels go to a new hardware buffer.
  unfoldable pub convert_to_hardware : LorieBuffer → ℕ → Res → LorieBuffer × Res
  convert_to_hardware b format r =
      let dims : Dims = record {
        width = b.desc.width;
        height = b.desc.height;
        stride = 0;
        format = format;
      } in
      elim (os.ahb_allocate r dims) [
        | none ↦ (b, r)
        | some h ↦ (
          on_hardware b format ((os.ahb_describe h).stride) h,
          free_option (b.desc.pixels) (take_ahb h r),
        )
      ]

  -- A regular buffer alone is converted.
  unfoldable pub convert_from : BufferType → BufferType → LorieBuffer → ℕ → Res → LorieBuffer × Res
  convert_from regular fd_backed b format r =
      let size = align_to_page os (b.desc.stride * b.desc.height * 4) in
      convert_to_fd b format size (create_region os size r)
  convert_from regular hardware b format r = convert_to_hardware b format r
  convert_from regular regular b format r = (b, r)
  convert_from regular unknown b format r = (b, r)
  convert_from fd_backed type b format r = (b, r)
  convert_from hardware type b format r = (b, r)
  convert_from unknown type b format r = (b, r)

  -- To a format that pixels can be read in.
  unfoldable pub convert : LorieBuffer → BufferType → ℕ → Res → LorieBuffer × Res
  convert b type format r =
      if not (is_pixel_format format) then (b, r) else convert_from b.desc.type type b format r

  -- What is left once the buffer is freed.
  abbrev pub freed : LorieBuffer × Res → Res
  freed (b, r) = free os b r

  -- The resources without the GL objects of `b`.
  abbrev cleared : LorieBuffer → Res → Res
  cleared b r = record (drop_image os b (drop_texture os b r)) {
    fds = r.fds;
    maps = r.maps;
    blocks = r.blocks;
    ahbs = r.ahbs;
  }

  free-form :
      (b : LorieBuffer) (r : Res)
      → free os b r ≡ free_block b.address (drop_backing b (cleared b r))
  unfolding free drop_image drop_texture
  free-form b r = refl

  -- The buffer goes with its new backing as it would have gone with the old one.
  abbrev FdPixels : (format size fd a : ℕ) → Res → LorieBuffer → Type 0
  FdPixels format size fd a r b =
      drop_backing (on_fd b format size fd a)
        (cleared (on_fd b format size fd a) (free_option (b.desc.pixels) (map_at a (open_fd fd r))))
      ≡ drop_backing b (cleared b r)

  abbrev HardwarePixels : (format stride h : ℕ) → Res → LorieBuffer → Type 0
  HardwarePixels format stride h r b =
      drop_backing (on_hardware b format stride h)
        (cleared (on_hardware b format stride h) (free_option (b.desc.pixels) (take_ahb h r)))
      ≡ drop_backing b (cleared b r)

  abbrev with_backing : LorieBuffer → BufferType → Option ℕ → LorieBuffer
  with_backing b type pixels = record b { desc = record (b.desc) { type = type; pixels = pixels } }

  FdPixels-form :
      (b : LorieBuffer) (format size fd a : ℕ) (r : Res) (o : Option ℕ)
      → FdPixels format size fd a r (with_backing b regular o)
  unfolding drop_backing drop_image drop_texture
  FdPixels-form b format size fd a r none = rw (remove-cons fd r.fds, remove-cons a r.maps) refl
  FdPixels-form b format size fd a r (some q) = rw (remove-cons fd r.fds, remove-cons a r.maps) refl

  HardwarePixels-form :
      (b : LorieBuffer) (format stride h : ℕ) (r : Res) (o : Option ℕ)
      → HardwarePixels format stride h r (with_backing b regular o)
  unfolding drop_backing drop_image drop_texture
  HardwarePixels-form b format stride h r none = rw (remove-cons h r.ahbs) refl
  HardwarePixels-form b format stride h r (some q) = rw (remove-cons h r.ahbs) refl

  -- A regular buffer is one whose type is put to that.
  of_regular :
      (P : LorieBuffer → Type 0) (b : LorieBuffer)
      → b.desc.type ≡ regular
      → P (with_backing b regular (b.desc.pixels))
      → P b
  of_regular P b t = subst (λ q. P (with_backing b q (b.desc.pixels))) (sym t)

  convert_to_fd-freed :
      (b : LorieBuffer) (format size : ℕ) (r : Res) (c : Option ℕ × Res)
      → b.desc.type ≡ regular
      → Created r c
      → freed (convert_to_fd b format size c) ≡ free os b r
  unfolding convert_to_fd
  convert_to_fd-freed b format size r c t not_created = refl
  convert_to_fd-freed b format size r c t (created fd) = go (os.mmap (open_fd fd r) fd size 0) refl
    where
      go :
          (o : Option ℕ)
          → os.mmap (open_fd fd r) fd size 0 ≡ o
          → freed (convert_to_fd b format size (some fd, open_fd fd r)) ≡ free os b r
      go none e =
          rw (e, convert_to_fd) (ap (λ q. free os b (record r { fds = q })) (remove-cons fd r.fds))
      go (some a) e =
          rw (e, convert_to_fd)
            (free-form _ _
              ∙ ap (free_block b.address) (
                  of_regular (FdPixels format size fd a r) b t
                    (FdPixels-form b format size fd a r (b.desc.pixels)))
              ∙ sym (free-form b r))

  convert_to_hardware-freed :
      (b : LorieBuffer) (format : ℕ) (r : Res)
      → b.desc.type ≡ regular
      → freed (convert_to_hardware b format r) ≡ free os b r
  unfolding convert_to_hardware
  convert_to_hardware-freed b format r t = go (os.ahb_allocate r dims) refl
    where
      dims : Dims
      dims = record { width = b.desc.width; height = b.desc.height; stride = 0; format = format }

      go :
          (o : Option ℕ)
          → os.ahb_allocate r dims ≡ o
          → freed (convert_to_hardware b format r) ≡ free os b r
      go none e = rw (e, convert_to_hardware) refl
      go (some h) e =
          rw (e, convert_to_hardware)
            (free-form _ _
              ∙ ap (free_block b.address) (
                  of_regular (HardwarePixels format _ h r) b t
                    (HardwarePixels-form b format _ h r (b.desc.pixels)))
              ∙ sym (free-form b r))

  convert_from-freed :
      (from type : BufferType) (b : LorieBuffer) (format : ℕ) (r : Res)
      → b.desc.type ≡ from
      → NonZero os
      → freed (convert_from from type b format r) ≡ free os b r
  unfolding convert_from
  convert_from-freed regular fd_backed b format r e ne =
      convert_to_fd-freed b format _ r _ e (create_region-Created os _ r ne)
  convert_from-freed regular hardware b format r e ne = convert_to_hardware-freed b format r e
  convert_from-freed regular regular b format r e ne = refl
  convert_from-freed regular unknown b format r e ne = refl
  convert_from-freed fd_backed type b format r e ne = refl
  convert_from-freed hardware type b format r e ne = refl
  convert_from-freed unknown type b format r e ne = refl

-- A conversion to any type and format, done or not, changes nothing of what is left once the buffer
-- is freed: what it takes goes with the buffer, and what the buffer had is given back at most once.
-- `ASharedMemory_create` must not give descriptor 0.
pub convert-freed :
    (os : Os) (b : LorieBuffer) (type : BufferType) (format : ℕ) (r : Res)
    → NonZero os
    → freed os (convert os b type format r) ≡ free os b r
unfolding convert
convert-freed os b type format r ne =
    if_property (λ q. freed os q ≡ free os b r) (not (is_pixel_format format)) refl
      (convert_from-freed os b.desc.type type b format r refl ne)
