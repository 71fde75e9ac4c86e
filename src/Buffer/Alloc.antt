-- ===== src/Buffer/Alloc.antt =====
-- The life of a buffer: allocation, conversion, release of what it holds.
use termux_x11_virtualkeys.Base.{
  ℕ, ◌+◌, ◌*◌, ◌%◌, ◌^◌, ◌==◌, ltb, not, ◌&&◌, ◌||◌, Bool, true, false, Option, none, some, List,
  if◌then◌else◌,
}
use termux_x11_virtualkeys.Buffer.Os.{
  Os, Res, Dims, remove, open_fd, close_fd, map_at, unmap, take_block, free_block, take_ahb,
  release_ahb,
}
use termux_x11_virtualkeys.Buffer.Region.{align_to_page, create_region}
mod Types
pub use Types.*

-- The release of what a type of buffer holds, as the failure path and `__LorieBuffer_free` have it.
unfoldable pub drop_backing : LorieBuffer → Res → Res
drop_backing b r = elim b.desc.type [
  | regular ↦ free_option b.desc.pixels r
  | fd_backed ↦ close_option b.fd (unmap_option b.desc.pixels r)
  | hardware ↦ release_option b.desc.buffer r
  | unknown ↦ r
]

-- A GL object goes, where that can be done.
abbrev pub dropped : Option ℕ → Bool → List ℕ → List ℕ
dropped none current xs = xs
dropped (some x) false xs = xs
dropped (some x) true xs = remove x xs

module _ (os : Os) where
  -- The block of the buffer, or the way back.
  unfoldable pub publish : LorieBuffer → Res → Option LorieBuffer × Res
  publish b r = elim (os.calloc r 1) [
    | none ↦ (none, drop_backing b r)
    | some a ↦ (some (record b { address = a; refcount = 1 }), take_block a r)
  ]

  with_pixels : LorieBuffer → ℕ → LorieBuffer
  with_pixels b a = record b { desc = record (b.desc) { pixels = some a } }

  -- The three kinds of backing.
  unfoldable pub allocate_regular : LorieBuffer → Res → Option LorieBuffer × Res
  unfolding with_pixels
  allocate_regular b r = elim (os.calloc r (b.desc.stride * b.desc.height * 4)) [
    | none ↦ (none, r)
    | some a ↦ publish (with_pixels b a) (take_block a r)
  ]

  unfoldable pub allocate_fd : LorieBuffer → Res → Option LorieBuffer × Res
  unfolding with_pixels
  allocate_fd b r = elim b.fd [
    | none ↦ (none, r)
    | some fd ↦ elim (os.mmap r fd b.size b.offset) [
      | none ↦ (none, close_fd fd r)
      | some a ↦ publish (with_pixels b a) (map_at a r)
    ]
  ]

  unfoldable pub allocate_hardware : LorieBuffer → Res → Option LorieBuffer × Res
  allocate_hardware b r = elim b.desc.buffer [
    | none ↦ (none, r)
    | some h ↦
        let d = os.ahb_describe h in
        publish
          (record b {
            desc = record (b.desc) {
              width = d.width;
              height = d.height;
              stride = d.stride;
              format = d.format % 2 ^ 8;
            };
          })
          r
  ]

  unfoldable pub allocate_backing : LorieBuffer → Res → Option LorieBuffer × Res
  allocate_backing b r = elim b.desc.type [
    | regular ↦ allocate_regular b r
    | fd_backed ↦ allocate_fd b r
    | hardware ↦ allocate_hardware b r
    | unknown ↦ (none, r)
  ]

  -- The descriptor of the new buffer: the one given, or a duplicate of it.
  unfoldable pub duplicate : Option ℕ → Bool → Res → Option ℕ × Res
  duplicate fd true r = (fd, r)
  duplicate none false r = (none, r)
  duplicate (some fd) false r = elim (os.dup r fd) [
    | none ↦ (none, r)
    | some fd' ↦ (some fd', open_fd fd' r)
  ]

  -- `allocate`.
  unfoldable pub allocate : Args → World → Option LorieBuffer × World
  allocate a w =
      let (fd, r) = duplicate a.fd a.take_fd w.res in
      let id' = (w.next_id + 1) % 2 ^ 64 in
      if not (is_hardware a.type) && not (acceptable a)
      then (none, record { next_id = id'; res = r })
      else (let (b, r') = allocate_backing (draft a w.next_id fd) r in
          (b, record { next_id = id'; res = r' }))

  -- The region for a buffer on a descriptor is there, or the allocation ends.
  unfoldable pub in_region : Args → Option ℕ × Res → World → Option LorieBuffer × World
  in_region a (none, r) w = (none, record w { res = r })
  in_region a (some fd, r) w = allocate (record a { fd = some fd }) (record w { res = r })

  -- `LorieBuffer_allocate`.
  unfoldable pub buffer_allocate :
      (width height format : ℕ) → BufferType → World → Option LorieBuffer × World
  buffer_allocate width height format type w =
      let args : Option ℕ → Option ℕ → ℕ → Args = λ buf fd size. record {
        width = width;
        stride = width;
        height = height;
        format = format;
        type = type;
        buf = buf;
        fd = fd;
        size = size;
        offset = 0;
        take_fd = true;
      } in
      elim type [
        | fd_backed ↦
            let size = align_to_page os (width * height * 4) in
            in_region (args none none size) (create_region os size w.res) w
        | hardware ↦
            let dims : Dims = record {
              width = width;
              height = height;
              stride = 0;
              format = format;
            } in
            elim (os.ahb_allocate w.res dims) [
              | none ↦ allocate (args none none 0) w
              | some h ↦ allocate (args (some h) none 0) (record w { res = take_ahb h w.res })
            ]
        | regular ↦ allocate (args none none 0) w
        | unknown ↦ allocate (args none none 0) w
      ]

  -- `LorieBuffer_wrapFileDescriptor`.
  unfoldable pub wrap_file_descriptor :
      (width stride height format : ℕ)
      → Option ℕ
      → (offset : ℕ) → World
      → Option LorieBuffer × World
  wrap_file_descriptor width stride height format fd offset = allocate (record {
    width = width;
    stride = stride;
    height = height;
    format = format;
    type = fd_backed;
    buf = none;
    fd = fd;
    size = stride * height * 4;
    offset = offset;
    take_fd = false;
  })

  -- `LorieBuffer_wrapAHardwareBuffer`.
  unfoldable pub wrap_hardware_buffer : Option ℕ → World → Option LorieBuffer × World
  wrap_hardware_buffer buf = allocate (record {
    width = 0;
    stride = 0;
    height = 0;
    format = 0;
    type = hardware;
    buf = buf;
    fd = none;
    size = 0;
    offset = 0;
    take_fd = false;
  })

  -- The GL objects, where there is a context and a display.
  unfoldable pub drop_texture : LorieBuffer → Res → Res
  drop_texture b r = record r { textures = dropped b.texture os.current_context r.textures }

  unfoldable pub drop_image : LorieBuffer → Res → Res
  drop_image b r = record r { images = dropped b.image os.current_display r.images }

  -- `__LorieBuffer_free`.
  unfoldable pub free : LorieBuffer → Res → Res
  unfolding drop_texture drop_image
  free b r = free_block b.address (drop_backing b (drop_image b (drop_texture b r)))
