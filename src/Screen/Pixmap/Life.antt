-- ===== src/Screen/Pixmap/Life.antt =====
-- `lorieCreatePixmap` and `lorieExaDestroyPixmap` of InitOutput.c, on the allocation, the locks and the
-- counts of buffer.c and the registry of cmdentrypoint.c.
use termux_x11_virtualkeys.Base.{
  ℕ, ◌==◌, ltb, ◌&&◌, ◌||◌, Bool, true, false, Option, none, some, if◌then◌else◌, ◌≡◌, refl, sym,
  ap, ◌∙◌, subst, Bool-cases, inl, inr, arith,
}
use termux_x11_virtualkeys.Buffer.Os.{Os, Res, take_block, free_block, remove-cons}
use termux_x11_virtualkeys.Buffer.Region.{NonZero}
use termux_x11_virtualkeys.Buffer.Alloc.{
  LorieBuffer, World, BufferType, regular, fd_backed, hardware, buffer_allocate, free, drop_backing,
  drop_image, drop_texture, is_pixel_format,
}
use termux_x11_virtualkeys.Buffer.Leaks.{Balanced, buffer_allocate-Balanced}
use termux_x11_virtualkeys.Buffer.Refcount.{release}
use termux_x11_virtualkeys.Buffer.Lock.{lock, unlock, lock_pixels}
use termux_x11_virtualkeys.Registry.{Server, unregister_buffer}
use termux_x11_virtualkeys.Screen.Pixmap.{Pixmap, lock_pixmap}

-- AHARDWAREBUFFER_FORMAT_R8G8B8X8_UNORM
abbrev pub r8g8b8x8 : ℕ
r8g8b8x8 = 2

-- `LoriePixmapPriv` in a block of its own.
pub record Private : Type 0 where
  pub address : ℕ
  pub pixmap : Pixmap

abbrev pub no_pixels : Pixmap
no_pixels = record { buffer = none; locked = none; was_locked = false; mem = none }

-- The type of the buffer, for a pixmap that is to be shared or not.
abbrev pub type_for : (shared legacy_drawing : Bool) → BufferType
type_for shared legacy_drawing =
    if shared then (if legacy_drawing then fd_backed else hardware) else regular

-- What is left where the buffer can not be had, and the pixmap where it can.
abbrev pub with_allocated : Os → ℕ → Option LorieBuffer × World → Option Private × World
with_allocated os a (none, w) = (none, record w { res = free_block a w.res })
with_allocated os a (some b, w) =
    (some (record { address = a; pixmap = lock_pixmap (lock os (some b)) no_pixels }), w)

-- `lorieCreatePixmap` with the block for its `LoriePixmapPriv`, where there is one.
abbrev pub create_in :
    Os
    → (legacy_drawing shared : Bool) → (width height : ℕ) → World
    → Option ℕ
    → Option Private × World
create_in os legacy_drawing shared width height w none = (none, w)
create_in os legacy_drawing shared width height w (some a) =
    let w' : World = record w { res = take_block a w.res } in
    if width == 0 || height == 0
    then (some (record { address = a; pixmap = no_pixels }), w')
    else with_allocated os a
        (buffer_allocate os width height r8g8b8x8 (type_for shared legacy_drawing) w')

-- `lorieCreatePixmap`, without the pitch that it stores, for a width and a height that are not
-- negative, as those of a pixmap of X11 are.
unfoldable pub create_pixmap :
    Os → (legacy_drawing shared : Bool) → (width height : ℕ) → World → Option Private × World
create_pixmap os legacy_drawing shared width height w =
    create_in os legacy_drawing shared width height w (os.calloc w.res 1)

-- The buffer after the unlock in `lorieExaDestroyPixmap`.
abbrev pub unlocked : Os → Option ℕ → LorieBuffer → LorieBuffer
unlocked os none b = b
unlocked os (some address) b = elim ((unlock os (some b)).buffer) [ none ↦ b | some b' ↦ b' ]

-- `lorieExaDestroyPixmap`.
unfoldable pub destroy_pixmap : Os → Private → Server × Res → Server × Res
destroy_pixmap os p (s, r) = elim p.pixmap.buffer [
  | none ↦ (s, free_block p.address r)
  | some b ↦
      let b' = unlocked os p.pixmap.locked b in
      (unregister_buffer (some b') s, free_block p.address ((release os b' r).1))
]

has_size :
    (width height : ℕ)
    → (width == 0 || height == 0) ≡ false
    → (is_pixel_format r8g8b8x8 && (ltb 0 width && ltb 0 height)) ≡ true
has_size width height h = ground (arith, h)

pub free_block-take_block : (a : ℕ) (r : Res) → free_block a (take_block a r) ≡ r
free_block-take_block a r = ap (λ q. record r { blocks = q }) (remove-cons a r.blocks)

module _ (os : Os) where
  -- Two buffers that differ in their locks alone.
  abbrev pub Alike : LorieBuffer → LorieBuffer → Type 0
  Alike b b' =
      ((r : Res) → free os (record b' { refcount = 0 }) r ≡ free os b r)
      × (b'.refcount ≡ b.refcount)

  pub alike :
      (b : LorieBuffer) (locked : Bool) (address : Option ℕ)
      → Alike b (record b { locked = locked; locked_data = address })
  unfolding free drop_backing drop_image drop_texture
  alike b locked address = ((λ r. refl), refl)

  abbrev taken : LorieBuffer → LorieBuffer
  taken b = record b { locked = true; locked_data = (lock_pixels os b).1 }

  -- A lock and an unlock leave a buffer that is alike.
  pub unlocked-Alike :
      (b : LorieBuffer)
      → (b' : LorieBuffer) × ((lock os (some b)).buffer ≡ some b')
        × ((address : Option ℕ) → Alike b (unlocked os address b'))
  unfolding lock unlock free drop_backing
  unlocked-Alike b = elim (Bool-cases b.locked) [
    | inl e ↦ (
      b,
      rw e refl,
      λ address. elim address as (λ x. Alike b (unlocked os x b)) [
        | none ↦ alike b b.locked b.locked_data
        | some x ↦ rw e (alike b false none)
      ],
    )
    | inr e ↦ (
      taken b,
      rw e refl,
      λ address. elim address as (λ x. Alike b (unlocked os x (taken b))) [
        | none ↦ alike b true ((lock_pixels os b).1)
        | some x ↦ alike b false none
      ],
    )
  ]

  -- What destroying a pixmap on a buffer with one reference gives back.
  pub destroy_pixmap-freed :
      (a : ℕ) (p : Pixmap) (b b' : LorieBuffer) (s : Server) (r : Res)
      → p.buffer ≡ some b'
      → Alike b (unlocked os p.locked b')
      → b.refcount ≡ 1
      → (destroy_pixmap os (record { address = a; pixmap = p }) (s, r)).1
        ≡ free_block a (free os b r)
  unfolding destroy_pixmap release free drop_backing
  destroy_pixmap-freed a p b b' s r e (f, c) one = rw (e, release, c, one) (ap (free_block a) (f r))

  -- Nothing was taken, and where there is a pixmap destroying it gives back what was taken.
  abbrev pub GivesBack : Server → Res → Option Private × World → Type 0
  GivesBack s r (none, w) = w.res ≡ r
  GivesBack s r (some p, w) = (destroy_pixmap os p (s, w.res)).1 ≡ r

  with_allocated-GivesBack :
      (a : ℕ) (s : Server) (r : Res) (o : Option LorieBuffer) (w : World)
      → Balanced os (take_block a r) (o, w.res)
      → GivesBack s r (with_allocated os a (o, w))
  with_allocated-GivesBack a s r none w e = ap (free_block a) e ∙ free_block-take_block a r
  with_allocated-GivesBack a s r (some b) w (e, one) =
      let (b', l, f) = unlocked-Alike b in
      destroy_pixmap-freed a (lock_pixmap (lock os (some b)) no_pixels) b b' s w.res l
        (f ((lock_pixmap (lock os (some b)) no_pixels).locked)) one
      ∙ ap (free_block a) e
      ∙ free_block-take_block a r

  create_in-GivesBack :
      (legacy_drawing shared : Bool) (width height : ℕ) (s : Server) (w : World)
      → NonZero os
      → (o : Option ℕ) → GivesBack s w.res (create_in os legacy_drawing shared width height w o)
  unfolding destroy_pixmap
  create_in-GivesBack legacy_drawing shared width height s w ne none = refl
  create_in-GivesBack legacy_drawing shared width height s w ne (some a) =
      let w' : World = record w { res = take_block a w.res } in
      let type = type_for shared legacy_drawing in
      let attempt = buffer_allocate os width height r8g8b8x8 type w' in
      elim (Bool-cases (width == 0 || height == 0)) [
        | inl z ↦
            subst
              (λ t. GivesBack s w.res (
                if t
                then (some (record { address = a; pixmap = no_pixels }), w')
                else with_allocated os a attempt))
              (sym z) (free_block-take_block a w.res)
        | inr z ↦
            subst
              (λ t. GivesBack s w.res (
                if t
                then (some (record { address = a; pixmap = no_pixels }), w')
                else with_allocated os a attempt))
              (sym z)
              (with_allocated-GivesBack a s w.res attempt.0 attempt.1 (
                buffer_allocate-Balanced os width height r8g8b8x8 type w'
                  (λ t. has_size width height z) ne))
      ]

  -- A pixmap that is created and destroyed again, whatever it was asked to be, gives back all that
  -- was taken, and one that can not be created takes nothing; `ASharedMemory_create` must not give
  -- descriptor 0.
  pub create_pixmap-GivesBack :
      (legacy_drawing shared : Bool) (width height : ℕ) (s : Server) (w : World)
      → NonZero os
      → GivesBack s w.res (create_pixmap os legacy_drawing shared width height w)
  unfolding create_pixmap
  create_pixmap-GivesBack legacy_drawing shared width height s w ne =
      create_in-GivesBack legacy_drawing shared width height s w ne (os.calloc w.res 1)
