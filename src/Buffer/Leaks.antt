-- ===== src/Buffer/Leaks.antt =====
-- The resources that `LorieBuffer_allocate` of buffer.c takes, against those that a release gives back.
use termux_x11_virtualkeys.Base.{
  ℕ, ◌*◌, ◌≡◌, refl, ap, ◌∙◌, ltb, ◌&&◌, true, false, Option, none, some, arith, inl, inr,
  Bool-cases,
}
use termux_x11_virtualkeys.Buffer.Os.{
  Os, Res, Dims, remove-cons, remove-remove_cons, open_fd, map_at, take_block, free_block, take_ahb,
}
use termux_x11_virtualkeys.Buffer.Region.{
  align_to_page, create_region, NonZero, Created, created, not_created, create_region-Created,
}
use termux_x11_virtualkeys.Buffer.Alloc.{
  BufferType, unknown, regular, fd_backed, hardware, LorieBuffer, World, Args, acceptable,
  drop_backing, publish, allocate_regular, allocate_fd, allocate_hardware, allocate_backing,
  duplicate, in_region, is_pixel_format, allocate, buffer_allocate, free, drop_texture, drop_image,
}

-- The outcome of an allocation that began with `r`: a buffer with one reference whose release gives
-- back all that was taken, or no buffer and nothing taken.
abbrev pub Balanced : Os → Res → Option LorieBuffer × Res → Type 0
Balanced os r (none, r') = r' ≡ r
Balanced os r (some b, r') = (free os b r' ≡ r) × (b.refcount ≡ 1)

-- The result of an allocation, with the resources alone.
abbrev pub resources : Option LorieBuffer × World → Option LorieBuffer × Res
resources (b, w) = (b, w.res)

-- The block of the buffer goes last, and may go as if it had never been there.
free_block-drop_backing :
    (b : LorieBuffer) (a : ℕ) (r : Res)
    → free_block a (drop_backing (record b { address = a; refcount = 1 }) (take_block a r))
      ≡ drop_backing b r
unfolding drop_backing
free_block-drop_backing b a r = grind (arith, remove-cons, remove-remove_cons)

module _ (os : Os) where
  -- Without GL objects only the backing and the block are given back.
  free-plain :
      (b : LorieBuffer) (r : Res)
      → b.texture ≡ none
      → b.image ≡ none
      → free os b r ≡ free_block b.address (drop_backing b r)
  unfolding free
  free-plain b r t i =
      ap (λ q. free_block b.address (drop_backing b (drop_image os b q))) (texture b t)
      ∙ ap (λ q. free_block b.address (drop_backing b q)) (image b i)
    where
      texture : (b : LorieBuffer) → b.texture ≡ none → drop_texture os b r ≡ r
      texture b t = rw (t, drop_texture)

      image : (b : LorieBuffer) → b.image ≡ none → drop_image os b r ≡ r
      image b i = rw (i, drop_image)

  publish-Balanced :
      (b : LorieBuffer) (r r0 : Res)
      → b.texture ≡ none
      → b.image ≡ none
      → drop_backing b r ≡ r0
      → Balanced os r0 (publish os b r)
  unfolding publish
  publish-Balanced b r r0 t i h = go (os.calloc r 1) refl
    where
      go : (o : Option ℕ) → os.calloc r 1 ≡ o → Balanced os r0 (publish os b r)
      go none e = rw (e, publish) h
      go (some a) e =
          rw (e, publish)
            (
              free-plain (record b { address = a; refcount = 1 }) (take_block a r) t i
                  ∙ free_block-drop_backing b a r
                  ∙ h,
              refl,
            )

  -- What the stack's draft looks like.
  abbrev pub IsDraft : LorieBuffer → Type 0
  IsDraft b = (b.texture ≡ none) × (b.image ≡ none)

  allocate_regular-Balanced :
      (b : LorieBuffer) (r : Res)
      → IsDraft b
      → b.desc.type ≡ regular
      → Balanced os r (allocate_regular os b r)
  unfolding allocate_regular
  allocate_regular-Balanced b r d t = go (os.calloc r (b.desc.stride * b.desc.height * 4)) refl
    where
      go :
          (o : Option ℕ)
          → os.calloc r (b.desc.stride * b.desc.height * 4) ≡ o
          → Balanced os r (allocate_regular os b r)
      go none e = rw (e, allocate_regular) refl
      go (some a) e =
          rw (e, allocate_regular)
            (publish-Balanced _ (take_block a r) r d.0 d.1
              (unfold drop_backing in ground (arith, remove-cons a r.blocks)))

  pub allocate_fd-Balanced :
      (b : LorieBuffer) (r : Res) (fd : ℕ)
      → IsDraft b
      → b.desc.type ≡ fd_backed
      → b.fd ≡ some fd
      → Balanced os r (allocate_fd os b (open_fd fd r))
  unfolding allocate_fd
  allocate_fd-Balanced b r fd d t f = go (os.mmap (open_fd fd r) fd b.size b.offset) refl
    where
      go :
          (o : Option ℕ)
          → os.mmap (open_fd fd r) fd b.size b.offset ≡ o
          → Balanced os r (allocate_fd os b (open_fd fd r))
      go none e = rw (f, e, allocate_fd) (ground (arith, remove-cons fd r.fds))
      go (some a) e =
          rw (f, e, allocate_fd)
            (publish-Balanced _ (map_at a (open_fd fd r)) r d.0 d.1
              (unfold drop_backing in ground (arith, remove-cons a r.maps, remove-cons fd r.fds)))

  pub allocate_hardware-Balanced :
      (b : LorieBuffer) (r : Res) (h : ℕ)
      → IsDraft b
      → b.desc.type ≡ hardware
      → b.desc.buffer ≡ some h
      → Balanced os r (allocate_hardware os b (take_ahb h r))
  unfolding allocate_hardware
  allocate_hardware-Balanced b r h d t f =
      rw (f, allocate_hardware)
        (publish-Balanced _ (take_ahb h r) r d.0 d.1
          (unfold drop_backing in ground (arith, remove-cons h r.ahbs)))

  in_region-Balanced :
      (a : Args) (w : World) (c : Option ℕ × Res)
      → a.type ≡ fd_backed
      → a.take_fd ≡ true
      → acceptable a ≡ true
      → Created w.res c
      → Balanced os w.res (resources (in_region os a c w))
  unfolding in_region allocate allocate_backing duplicate
  in_region-Balanced a w c t k okay not_created = refl
  in_region-Balanced a w c t k okay (created fd) =
      rw (okay, t, k, duplicate, allocate_backing)
        (allocate_fd-Balanced _ w.res fd (refl, refl) t refl)

-- Where `LorieBuffer_allocate` makes a buffer, it has one reference, and its release gives back
-- every descriptor, mapping, block and hardware buffer that was taken; where it makes none, nothing
-- is taken. For a buffer on a descriptor the size and format must be acceptable, and
-- `ASharedMemory_create` must not give descriptor 0.
pub buffer_allocate-Balanced :
    (os : Os) (width height format : ℕ) (type : BufferType) (w : World)
    → (type ≡ fd_backed → (is_pixel_format format && (ltb 0 width && ltb 0 height)) ≡ true)
    → NonZero os
    → Balanced os w.res (resources (buffer_allocate os width height format type w))
unfolding buffer_allocate allocate allocate_backing duplicate
buffer_allocate-Balanced os width height format fd_backed w okay ne =
    in_region-Balanced os _ w _ refl refl (okay refl)
      (create_region-Created os (align_to_page os (width * height * 4)) w.res ne)
buffer_allocate-Balanced os width height format unknown w okay ne =
    elim (Bool-cases (is_pixel_format format && (ltb 0 width && ltb 0 height))) [
      | inl good ↦ rw good refl
      | inr bad ↦ rw bad refl
    ]
buffer_allocate-Balanced os width height format regular w okay ne =
    elim (Bool-cases (is_pixel_format format && (ltb 0 width && ltb 0 height))) [
      | inl good ↦ rw good (allocate_regular-Balanced os _ w.res (refl, refl) refl)
      | inr bad ↦ rw bad refl
    ]
buffer_allocate-Balanced os width height format hardware w okay ne =
    go (os.ahb_allocate w.res dims) refl
  where
    dims : Dims
    dims = record { width = width; height = height; stride = 0; format = format }

    go :
        (o : Option ℕ)
        → os.ahb_allocate w.res dims ≡ o
        → Balanced os w.res (resources (buffer_allocate os width height format hardware w))
    go none e = rw (e, buffer_allocate) (unfold allocate_hardware in refl)
    go (some h) e =
        rw (e, buffer_allocate) (allocate_hardware-Balanced os _ w.res h (refl, refl) refl refl)

-- Where the size or format is not acceptable, the region that was made for the buffer stays open
-- though no buffer is made.
pub buffer_allocate_leak :
    (os : Os) (width height format fd : ℕ) (w : World)
    → (is_pixel_format format && (ltb 0 width && ltb 0 height)) ≡ false
    → create_region os (align_to_page os (width * height * 4)) w.res ≡ (some fd, open_fd fd w.res)
    → resources (buffer_allocate os width height format fd_backed w) ≡ (none, open_fd fd w.res)
unfolding buffer_allocate in_region allocate duplicate
buffer_allocate_leak os width height format fd w bad e =
    rw (e, bad, in_region, allocate, duplicate) refl
