-- ===== src/Fence/Examples.antt =====
-- Fences of both kinds.
use termux_x11_virtualkeys.Base.{false, ℕ, ◌+◌, some, if◌then◌else◌, ◌==◌, ◌≡◌, refl}
use termux_x11_virtualkeys.Fence.{Implementation, Calls, trigger}

-- The fence is its descriptor; how often it was triggered is the world.
abbrev counting : ℕ → Implementation ℕ ℕ
counting step = record {
  trigger = λ f w. (0, w + step);
  await = λ f w. (0, w);
  query = λ f w. (w, w);
  reset = λ f w. 0;
  map_shm = λ fd w. (some fd, w);
  unmap_shm = λ f w. w;
}

abbrev calls : Calls ℕ ℕ
calls = record {
  futex = counting 1;
  pthread = counting 2;
  size_of_file = λ w fd. if fd == 3 then 4 else 48;
  calloc = λ blocks. some 64;
}

triggers_pthread : (trigger calls (record { address = 64; is_futex = false; real = 5 }) 0).1 ≡ 2
unfolding trigger
triggers_pthread = refl
