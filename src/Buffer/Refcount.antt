-- ===== src/Buffer/Refcount.antt =====
-- `LorieBuffer_acquire` and `LorieBuffer_release` of buffer.h.
use termux_x11_virtualkeys.Base.{
  ℕ, zero, suc, ◌+◌, ◌-◌, ◌*◌, ◌%◌, ◌/◌, ◌^◌, ◌<◌, ◌==◌, ◌≡◌, refl, true, false, Option, none, some,
  List, [], ◌∷◌, if◌then◌else◌, arith, ap, sym, ltb, ◌&&◌, ◌∙◌, subst, length,
}
use termux_x11_virtualkeys.Buffer.Os.{Os, Res}
use termux_x11_virtualkeys.Buffer.Alloc.{
  LorieBuffer, World, BufferType, fd_backed, is_pixel_format, buffer_allocate, free, drop_backing,
  drop_image, drop_texture,
}
use termux_x11_virtualkeys.Buffer.Region.{NonZero}
use termux_x11_virtualkeys.Buffer.Leaks.{Balanced, resources, buffer_allocate-Balanced}

-- The addition is on the `int` that the count and its padding make, little-endian.
unfoldable pub acquire : LorieBuffer → LorieBuffer
acquire b =
    let word = (b.refcount + b.padding * 2 ^ 16 + 1) % 2 ^ 32 in
    record b { refcount = word % 2 ^ 16; padding = word / 2 ^ 16 }

-- The subtraction is on the `int16_t`; what was there before it decides. `none` is a freed buffer.
unfoldable pub release : Os → LorieBuffer → Res → Option LorieBuffer × Res
release os b r =
    if b.refcount == 1
    then (none, free os (record b { refcount = 0 }) r)
    else (some (record b { refcount = (b.refcount + 2 ^ 16 - 1) % 2 ^ 16 }), r)

-- A holder takes a reference or gives one back.
pub data RefOp : Type 0 where
  acquires releases : RefOp

abbrev after {ℓ} :
    {A : Type ℓ} → (LorieBuffer → Res → Option A) → Option LorieBuffer × Res → Option A
after k (none, r) = none
after k (some b, r) = k b r

-- What is left after such a history; a use of a freed buffer is `none`.
unfoldable pub history : Os → List RefOp → LorieBuffer → Res → Option (Option LorieBuffer × Res)
history os [] b r = some (some b, r)
history os (acquires ∷ ops) b r = history os ops (acquire b) r
history os (releases ∷ []) b r = some (release os b r)
history os (releases ∷ op ∷ ops) b r = after (history os (op ∷ ops)) (release os b r)

-- The references held after a history that began with `n`; `none` where the buffer is used after
-- the last reference was given back.
unfoldable pub held : List RefOp → ℕ → Option ℕ
held [] n = some n
held (op ∷ ops) zero = none
held (acquires ∷ ops) (suc n) = held ops (suc (suc n))
held (releases ∷ ops) (suc n) = held ops n

-- The buffer `b` as it is with `m` references: freed where there are none.
abbrev pub With : Os → LorieBuffer → Res → ℕ → Option (Option LorieBuffer × Res) → Type 0
With os b r zero h = h ≡ some (none, free os b r)
With os b r (suc k) h = (p : ℕ) × (h ≡ some (some (record b { refcount = suc k; padding = p }), r))

abbrev Fits : ℕ → List RefOp → Type 0
Fits n ops = n + length ops < 2 ^ 16

module _ (os : Os) where
  -- The release of what a buffer holds does not depend on its count.
  free-count :
      (b : LorieBuffer) (c p : ℕ) (r : Res)
      → free os (record b { refcount = c; padding = p }) r ≡ free os b r
  unfolding free drop_backing drop_image drop_texture
  free-count b c p r = refl

  With-count :
      (b : LorieBuffer) (c p m : ℕ) (r : Res) (h : Option (Option LorieBuffer × Res))
      → With os (record b { refcount = c; padding = p }) r m h
      → With os b r m h
  With-count b c p zero r h w = w ∙ ap (λ q. some (none, q)) (free-count b c p r)
  With-count b c p (suc k) r h w = w

  acquire-refcount :
      (b : LorieBuffer) (n : ℕ) → suc n < 2 ^ 16 → b.refcount ≡ n → (acquire b).refcount ≡ suc n
  unfolding acquire
  acquire-refcount b n h e = omega (arith, h, e)

  release-last : (b : LorieBuffer) (r : Res) → b.refcount ≡ 1 → release os b r ≡ (none, free os b r)
  unfolding release free drop_backing drop_image drop_texture
  release-last b r c = rw c refl

  release-other :
      (b : LorieBuffer) (n : ℕ) (r : Res)
      → suc (suc n) < 2 ^ 16
      → b.refcount ≡ suc (suc n)
      → release os b r ≡ (some (record b { refcount = suc n }), r)
  unfolding release
  release-other b n r f c =
      rw (c, not_last) (ap (λ q. (some (record b { refcount = q }), r)) (omega (arith, f)))
    where
      not_last : (suc (suc n) == 1) ≡ false
      not_last = ground arith

  acquire-With :
      (b : LorieBuffer) (m : ℕ) (r : Res) (h : Option (Option LorieBuffer × Res))
      → With os (acquire b) r m h
      → With os b r m h
  unfolding acquire
  acquire-With b m r h w = With-count b _ _ m r h w

  history-With :
      (ops : List RefOp) (n m : ℕ) (b : LorieBuffer) (r : Res)
      → Fits (suc n) ops
      → b.refcount ≡ suc n
      → held ops (suc n) ≡ some m
      → With os b r m (history os ops b r)
  unfolding held history
  history-With [] n zero b r f c h = ground arith
  history-With [] n (suc m) b r f c h =
      (b.padding, ap (λ q. some (some (record b { refcount = q }), r)) (ground (arith, c, h)))
  history-With (acquires ∷ ops) n m b r f c h = acquire-With b m r _ (
      history-With ops (suc n) m (acquire b) r (omega (arith, f))
        (acquire-refcount b (suc n) (omega (arith, f)) c) h)
  history-With (releases ∷ []) zero zero b r f c h = ap some (release-last b r c)
  history-With (releases ∷ []) zero (suc m) b r f c h = ground arith
  history-With (releases ∷ []) (suc n) zero b r f c h = ground arith
  history-With (releases ∷ []) (suc n) (suc m) b r f c h =
      rw (release-other b n r (omega (arith, f)) c)
        (b.padding, ap (λ q. some (some (record b { refcount = q }), r)) (ground (arith, h)))
  history-With (releases ∷ op ∷ ops) zero m b r f c h = ground arith
  history-With (releases ∷ op ∷ ops) (suc n) m b r f c h =
      subst (λ o. With os b r m (after (history os (op ∷ ops)) o))
        (sym (release-other b n r (omega (arith, f)) c))
        (With-count b _ b.padding m r _
          (history-With (op ∷ ops) n m (record b { refcount = suc n }) r (omega (arith, f)) refl h))

-- A new buffer is allocated, of a known format and sizes above 0 where it is backed by a
-- descriptor, on a system that never gives descriptor 0; at most 2^16 - 2 operations are then made
-- on its references. Once as many references are given back as were taken, the one of the
-- allocation included, and none is used after that, the buffer is freed and every descriptor,
-- mapping, block and hardware buffer it took is given back.
pub history-buffer_allocate :
    (os : Os) (width height format : ℕ) (type : BufferType) (w w' : World) (b : LorieBuffer)
    (ops : List RefOp)
    → (type ≡ fd_backed → (is_pixel_format format && (ltb 0 width && ltb 0 height)) ≡ true)
    → NonZero os
    → buffer_allocate os width height format type w ≡ (some b, w')
    → held ops 1 ≡ some 0
    → Fits 1 ops
    → history os ops b (w'.res) ≡ some (none, w.res)
history-buffer_allocate os width height format type w w' b ops okay ne e h f =
    history-With os ops 0 0 b (w'.res) f balanced.1 h ∙ ap (λ q. some (none, q)) balanced.0
  where
    balanced : Balanced os w.res (some b, w'.res)
    balanced =
        subst (λ o. Balanced os w.res (resources o)) e
          (buffer_allocate-Balanced os width height format type w okay ne)
