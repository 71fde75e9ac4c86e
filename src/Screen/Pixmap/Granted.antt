-- ===== src/Screen/Pixmap/Granted.antt =====
-- An access to a pixmap that is granted, of InitOutput.c: `loriePrepareAccess`, then `lorieFinishAccess`.
use termux_x11_virtualkeys.Base.{
  ℕ, ◌+◌, ◌-◌, ◌==◌, ◌≡◌, refl, sym, ap, ◌∙◌, Bool, true, Bool-cases, inl, inr, Option, none, some,
  if◌then◌else◌, arith,
}
use mathlib.Core.Bool.{true≢false}
use termux_x11_virtualkeys.Buffer.Os.{Os}
use termux_x11_virtualkeys.Buffer.Alloc.{LorieBuffer}
use termux_x11_virtualkeys.Buffer.Lock.{Locking, eexist, lock_pixels, lock, unlock, IsUnlocked}
use termux_x11_virtualkeys.Screen.Pixmap.{Access, prepare_access, finish_access}

-- A pixmap whose pixels are not locked has a buffer that is not.
abbrev pub Agrees : Option ℕ → Option LorieBuffer → Type 0
Agrees (some address) b = Unit
Agrees none none = Unit
Agrees none (some b) = IsUnlocked b

-- The mutex is held once more for the screen's pixmap, and as often as before for another one.
abbrev pub IsHeld : (is_screen : Bool) → Access → Access → Type 0
IsHeld is_screen a a' = a'.state_locked ≡ (if is_screen then a.state_locked + 1 else a.state_locked)

-- The buffer, the locked address, the memory of the pixmap and the mutex are what they were.
abbrev pub GivenBack : Access → Access → Type 0
GivenBack a a' =
    (a'.pixmap.buffer ≡ a.pixmap.buffer)
    × ((a'.pixmap.locked ≡ a.pixmap.locked)
        × ((a'.pixmap.mem ≡ a.pixmap.mem) × (a'.state_locked ≡ a.state_locked)))

-- The mutex, whether it was taken or not.
mutex_restored :
    (s : Bool) (h : ℕ) → (if s then (if s then h + 1 else h) - 1 else (if s then h + 1 else h)) ≡ h
mutex_restored s h = ground arith

abbrev access : Option LorieBuffer → Option ℕ → Bool → Option ℕ → ℕ → Option ℕ → Access
access o l w m h ptr = record {
  pixmap = record { buffer = o; locked = l; was_locked = w; mem = m };
  state_locked = h;
  ptr = ptr;
}

lock-IsUnlocked :
    (os : Os) (b : LorieBuffer)
    → IsUnlocked b
    → lock os (some b) ≡ (record {
      ret = (lock_pixels os b).0;
      buffer = some (record b { locked = true; locked_data = (lock_pixels os b).1 });
      out = some (lock_pixels os b).1;
    })
unfolding lock
lock-IsUnlocked os b u =
    ap
      (λ (x : Bool).
        if x then (record { ret = eexist; buffer = some b; out = some (b.locked_data) }) else taken)
      u.0
  where
    taken : Locking
    taken = record {
      ret = (lock_pixels os b).0;
      buffer = some (record b { locked = true; locked_data = (lock_pixels os b).1 });
      out = some (lock_pixels os b).1;
    }

unlock-locked :
    (os : Os) (b : LorieBuffer) (address : Option ℕ)
    → IsUnlocked b
    → (unlock os (some (record b { locked = true; locked_data = address }))).buffer ≡ some b
unfolding unlock
unlock-locked os b address u =
    ap (λ (x : Bool). some (record b { locked = x; locked_data = none })) (sym u.0)
    ∙ ap (λ (x : Option ℕ). some (record b { locked_data = x })) (sym u.1)

given_back :
    (os : Os) (s : Bool) (o : Option LorieBuffer) (l : Option ℕ) (w : Bool) (m : Option ℕ) (h : ℕ)
    (ptr : Option ℕ)
    → Agrees l o
    → (prepare_access os s (access o l w m h ptr)).0 ≡ true
    → IsHeld s (access o l w m h ptr) (prepare_access os s (access o l w m h ptr)).1
      × GivenBack
          (access o l w m h ptr)
          (finish_access os s (prepare_access os s (access o l w m h ptr)).1)
unfolding prepare_access finish_access
given_back os s o (some address) w m h ptr g t = (refl, (refl, (refl, (refl, mutex_restored s h))))
given_back os s o none w (some address) h ptr g t =
    (refl, (refl, (refl, (refl, mutex_restored s h))))
given_back os s none none w none h ptr g t = unfold lock in cc
given_back os s (some b) none w none h ptr g t = elim (Bool-cases ((lock_pixels os b).0 == 0)) [
  | inl e ↦
      rw (lock-IsUnlocked os b g, e)
        (refl, (unlock-locked os b (lock_pixels os b).1 g, (refl, (refl, mutex_restored s h))))
  | inr e ↦ absurd (true≢false (sym (rw (lock-IsUnlocked os b g, e) at t)))
]

-- Where an unlocked pixmap has an unlocked buffer, an access that is granted holds the mutex once
-- more than before for the screen's pixmap, and as often as before for another one; once it is
-- finished, the buffer, the locked address, the memory of the pixmap and the count of the mutex are
-- what they were before the access.
pub finish_access-prepare_access :
    (os : Os) (is_screen : Bool) (a : Access)
    → Agrees a.pixmap.locked a.pixmap.buffer
    → (prepare_access os is_screen a).0 ≡ true
    → IsHeld is_screen a (prepare_access os is_screen a).1
      × GivenBack a (finish_access os is_screen (prepare_access os is_screen a).1)
finish_access-prepare_access os is_screen a g t =
    given_back os is_screen a.pixmap.buffer a.pixmap.locked a.pixmap.was_locked a.pixmap.mem
      a.state_locked a.ptr g t
