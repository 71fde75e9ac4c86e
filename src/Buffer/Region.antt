-- ===== src/Buffer/Region.antt =====
-- `LorieBuffer_createRegion` and `alignToPage`.
use Prim.Native.Nat.{bit_and}
use termux_x11_virtualkeys.Base.{
  ℕ, zero, suc, ◌+◌, ◌-◌, ◌^◌, ◌%◌, ◌≡◌, refl, not, Option, none, some, if◌then◌else◌, arith,
}
use termux_x11_virtualkeys.Buffer.Os.{Os, Res, open_fd, close_fd}

-- (size + page - 1) & ~(page - 1) on `size_t`.
unfoldable pub align_to_page : Os → ℕ → ℕ
align_to_page os size =
    bit_and ((size + os.page_size - 1) % 2 ^ 64) (2 ^ 64 - 1 - (os.page_size - 1))

-- The last way: /dev/ashmem, closed again where a request fails.
unfoldable pub ashmem_region : Os → ℕ → Res → Option ℕ × Res
ashmem_region os size r = elim (os.open_ashmem r) [
  | none ↦ (none, r)
  | some fd ↦
      let r' = open_fd fd r in
      if not (os.ashmem_set_name r' fd)
      then (none, close_fd fd r')
      else if not (os.ashmem_set_size r' fd size)
      then (none, close_fd fd r')
      else (some fd, r')
]

-- The code tests `if (fd)`, so the next way is tried at descriptor 0, and not at a negative one.
unfoldable pub memfd_region : Os → ℕ → Res → Option ℕ × Res
unfolding ashmem_region
memfd_region os size r = elim (os.memfd_create r) [
  | none ↦ (none, r)
  | some zero ↦ ashmem_region os size (open_fd 0 r)
  | some (suc fd) ↦ (some (suc fd), open_fd (suc fd) r)
]

unfoldable pub create_region : Os → ℕ → Res → Option ℕ × Res
unfolding memfd_region
create_region os size r = elim (os.shared_memory_create r size) [
  | none ↦ (none, r)
  | some zero ↦ memfd_region os size (open_fd 0 r)
  | some (suc fd) ↦ (some (suc fd), open_fd (suc fd) r)
]

-- Where the first way to a region fails, no other is tried, whatever the others would give.
pub create_region_no_fallback :
    (os : Os) (size : ℕ) (r : Res)
    → os.shared_memory_create r size ≡ none
    → create_region os size r ≡ (none, r)
unfolding create_region
create_region_no_fallback os size r e = ground arith

-- Where descriptor 0 is in use elsewhere, a region is one new descriptor, or nothing has changed.
pub data Created (r : Res) : Option ℕ × Res → Type 0 where
  created : (fd : ℕ) → Created r (some fd, open_fd fd r)
  not_created : Created r (none, r)

abbrev pub NonZero : Os → Type 0
NonZero os = (r : Res) (size : ℕ) → os.shared_memory_create r size ≡ some 0 → ⊥

pub create_region-Created :
    (os : Os) (size : ℕ) (r : Res) → NonZero os → Created r (create_region os size r)
unfolding create_region
create_region-Created os size r ne = go (os.shared_memory_create r size) refl
  where
    go : (o : Option ℕ) → os.shared_memory_create r size ≡ o → Created r (create_region os size r)
    go none e = rw (e, create_region) not_created
    go (some zero) e = absurd (ne r size e)
    go (some (suc fd)) e = rw (e, create_region) (created (suc fd))
