-- ===== src/Buffer/Lock.antt =====
-- `LorieBuffer_lock` and `LorieBuffer_unlock` of buffer.c, on a buffer that is there and on `NULL`.
use termux_x11_virtualkeys.Base.{
  ℕ, suc, ◌≡◌, refl, sym, subst, ◌∙◌, true, false, Option, none, some, List, [], ◌∷◌, ◌++◌,
  if◌then◌else◌, ◌⊎◌, inl, inr,
}
use termux_x11_virtualkeys.Buffer.Os.{Os}
use termux_x11_virtualkeys.Buffer.Alloc.{LorieBuffer, unknown, regular, fd_backed, hardware}

abbrev pub enoent : ℕ
enoent = 2

abbrev pub eexist : ℕ
eexist = 17

abbrev pub enodev : ℕ
enodev = 19

-- The result, the buffer, and what is stored in `*out` if anything is.
pub record Locking : Type 0 where
  pub ret : ℕ
  pub buffer : Option LorieBuffer
  pub out : Option (Option ℕ)

-- The result and the address of the pixels, for each type of buffer.
unfoldable pub lock_pixels : Os → LorieBuffer → ℕ × Option ℕ
lock_pixels os b = elim b.desc.type [
  | regular ↦ (0, b.desc.pixels)
  | fd_backed ↦ (0, b.desc.pixels)
  | hardware ↦ os.ahb_lock (b.desc.buffer)
  | unknown ↦ (0, b.locked_data)
]

unfoldable pub lock : Os → Option LorieBuffer → Locking
lock os none = record { ret = enodev; buffer = none; out = none }
lock os (some b) =
    let (ret, address) = lock_pixels os b in
    if b.locked
    then (record { ret = eexist; buffer = some b; out = some (b.locked_data) })
    else (record {
      ret = ret;
      buffer = some (record b { locked = true; locked_data = address });
      out = some address;
    })

-- The result of giving the pixels back.
unfoldable pub unlock_pixels : Os → LorieBuffer → ℕ
unlock_pixels os b = elim b.desc.type [
  | hardware ↦ os.ahb_unlock (b.desc.buffer)
  | regular ↦ 0
  | fd_backed ↦ 0
  | unknown ↦ 0
]

unfoldable pub unlock : Os → Option LorieBuffer → Locking
unlock os none = record { ret = enodev; buffer = none; out = none }
unlock os (some b) =
    if b.locked
    then (record {
      ret = unlock_pixels os b;
      buffer = some (record b { locked = false; locked_data = none });
      out = none;
    })
    else (record { ret = enoent; buffer = some b; out = none })

pub data LockOp : Type 0 where
  locks unlocks : LockOp

unfoldable pub perform : Os → LockOp → Option LorieBuffer → Locking
perform os locks b = lock os b
perform os unlocks b = unlock os b

unfoldable pub perform_all : Os → List LockOp → Option LorieBuffer → Option LorieBuffer
unfolding perform
perform_all os [] b = b
perform_all os (op ∷ ops) b = perform_all os ops ((perform os op b).buffer)

-- Neither locked nor with an address left over.
abbrev pub IsUnlocked : LorieBuffer → Type 0
IsUnlocked b = (b.locked ≡ false) × (b.locked_data ≡ none)

module _ (os : Os) (b : LorieBuffer) (u : IsUnlocked b) where
  locked_form : LorieBuffer
  locked_form = record b { locked = true; locked_data = (lock_pixels os b).1 }

  -- A buffer is in one of two states.
  abbrev OneOfTwo : Option LorieBuffer → Type 0
  OneOfTwo c = (c ≡ some b) ⊎ (c ≡ some locked_form)

  after_op : LockOp → LorieBuffer
  after_op locks = locked_form
  after_op unlocks = b

  perform-after_op :
      (op : LockOp) (c : Option LorieBuffer)
      → OneOfTwo c
      → (perform os op c).buffer ≡ some (after_op op)
  unfolding perform lock unlock locked_form after_op
  perform-after_op locks c (inl e) = rw (e, u.0) refl
  perform-after_op unlocks c (inl e) = rw (e, u.0) refl
  perform-after_op locks c (inr e) = rw e refl
  perform-after_op unlocks c (inr e) = rw (e, u.0, u.1) refl

  after_op-OneOfTwo : (op : LockOp) → OneOfTwo (some (after_op op))
  unfolding after_op
  after_op-OneOfTwo locks = inr refl
  after_op-OneOfTwo unlocks = inl refl

  perform_all-last :
      (ops : List LockOp) (op : LockOp) (c : Option LorieBuffer)
      → OneOfTwo c
      → perform_all os (ops ++ (op ∷ [])) c ≡ some (after_op op)
  unfolding perform_all
  perform_all-last [] op c e = perform-after_op op c e
  perform_all-last (o ∷ ops) op c e =
      perform_all-last ops op _
        (subst OneOfTwo (sym (perform-after_op o c e)) (after_op-OneOfTwo o))

-- Whatever sequence of locks and unlocks comes before, an unlock leaves a buffer as it was before
-- the first of them, and a lock leaves it as the first lock would; the buffer starts unlocked, with
-- no address of locked pixels.
pub perform_all_last :
    (os : Os) (b : LorieBuffer) (ops : List LockOp)
    → IsUnlocked b
    → (perform_all os (ops ++ (unlocks ∷ [])) (some b) ≡ some b)
      × (perform_all os (ops ++ (locks ∷ [])) (some b) ≡ (lock os (some b)).buffer)
unfolding after_op perform
perform_all_last os b ops u = (
  perform_all-last os b u ops unlocks (some b) (inl refl),
  perform_all-last os b u ops locks (some b) (inl refl)
      ∙ sym (perform-after_op os b u locks (some b) (inl refl)),
)

-- Where the lock of the hardware buffer fails with `suc e`, the buffer counts as locked all the
-- same: a second attempt is refused with EEXIST, whatever the hardware would answer, and an unlock
-- asks the hardware to unlock what is not locked.
pub lock_failed :
    (os : Os) (b : LorieBuffer) (e : ℕ) (address : Option ℕ)
    → b.desc.type ≡ hardware
    → IsUnlocked b
    → os.ahb_lock (b.desc.buffer) ≡ (suc e, address)
    → ((lock os (some b)).ret ≡ suc e)
      × (((lock os ((lock os (some b)).buffer)).ret ≡ eexist)
          × ((unlock os ((lock os (some b)).buffer)).ret ≡ os.ahb_unlock (b.desc.buffer)))
unfolding lock unlock lock_pixels unlock_pixels
lock_failed os b e address t u f = rw (u.0, t, f) (refl, (refl, refl))
