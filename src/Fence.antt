-- ===== src/Fence.antt =====
-- Fences in shared memory, xshmfence.c: a fence is one of the futex implementation or of that on
-- pthread, by the size of the file. Both implementations are parameters.
use termux_x11_virtualkeys.Base.{
  ℕ, ◌==◌, Bool, true, false, Option, none, some, List, [], ◌∷◌, if◌then◌else◌, ◌≡◌, refl, ap, ◌∙◌,
}
use termux_x11_virtualkeys.Buffer.Os.{remove, remove-cons}
mod Examples

-- One implementation on fences that are an `F`, in a world that is a `W`.
pub record Implementation (F W : Type 0) : Type 0 where
  pub trigger : F → W → ℕ × W
  pub await : F → W → ℕ × W
  pub query : F → W → ℕ × W
  pub reset : F → W → W
  pub map_shm : (fd : ℕ) → W → Option F × W
  pub unmap_shm : F → W → W

-- What the code calls: both implementations, the size of a file, and the blocks of `calloc`.
pub record Calls (F W : Type 0) : Type 0 where
  pub futex : Implementation F W
  pub pthread : Implementation F W
  pub size_of_file : W → ℕ → ℕ
  pub calloc : List ℕ → Option ℕ

-- `struct xshmfence`, in its block.
pub record Fence (F : Type 0) : Type 0 where
  pub address : ℕ
  pub is_futex : Bool
  pub real : F

-- The blocks of this file that are in use, and the rest of the world.
pub record Memory (W : Type 0) : Type 0 where
  pub blocks : List ℕ
  pub world : W

module _ {F W : Type 0} (c : Calls F W) where
  abbrev pub implementation : Bool → Implementation F W
  implementation is_futex = if is_futex then c.futex else c.pthread

  -- `xshmfence_trigger`, `xshmfence_await`, `xshmfence_query`, `xshmfence_reset`.
  unfoldable pub trigger : Fence F → W → ℕ × W
  trigger f w = (implementation f.is_futex).trigger f.real w

  unfoldable pub await : Fence F → W → ℕ × W
  await f w = (implementation f.is_futex).await f.real w

  unfoldable pub query : Fence F → W → ℕ × W
  query f w = (implementation f.is_futex).query f.real w

  unfoldable pub reset : Fence F → W → W
  reset f w = (implementation f.is_futex).reset f.real w

  -- The fence in its block, where the implementation has mapped it; else the block is freed.
  abbrev pub mapped : ℕ → Bool → List ℕ → Option F × W → Option (Fence F) × Memory W
  mapped a is_futex blocks (none, w) = (none, record { blocks = remove a blocks; world = w })
  mapped a is_futex blocks (some real, w) = (
    some (record { address = a; is_futex = is_futex; real = real }),
    record { blocks = blocks; world = w },
  )

  abbrev pub map_in : (fd : ℕ) → Memory W → Option ℕ → Option (Fence F) × Memory W
  map_in fd m none = (none, m)
  map_in fd m (some a) =
      let is_futex = c.size_of_file m.world fd == 4 in
      mapped a is_futex (a ∷ m.blocks) ((implementation is_futex).map_shm fd m.world)

  -- `xshmfence_map_shm`.
  unfoldable pub map_shm : (fd : ℕ) → Memory W → Option (Fence F) × Memory W
  map_shm fd m = map_in fd m (c.calloc m.blocks)

  -- `xshmfence_unmap_shm`.
  unfoldable pub unmap_shm : Fence F → Memory W → Memory W
  unmap_shm f m = record {
    blocks = remove f.address m.blocks;
    world = (implementation f.is_futex).unmap_shm f.real m.world;
  }

  -- A fence that is mapped is one of the implementation for the size of its file, and to unmap it
  -- again frees its block; where none is mapped no block is kept.
  abbrev pub MapsFor : (fd : ℕ) → Memory W → Option (Fence F) × Memory W → Type 0
  MapsFor fd m (none, m') = m'.blocks ≡ m.blocks
  MapsFor fd m (some f, m') =
      (f.is_futex ≡ (c.size_of_file m.world fd == 4)) × ((unmap_shm f m').blocks ≡ m.blocks)

  mapped-MapsFor :
      (fd a : ℕ) (m : Memory W) (o : Option F) (w : W)
      → MapsFor fd m (mapped a (c.size_of_file m.world fd == 4) (a ∷ m.blocks) (o, w))
  unfolding unmap_shm
  mapped-MapsFor fd a m none w = remove-cons a m.blocks
  mapped-MapsFor fd a m (some real) w = (refl, remove-cons a m.blocks)

  map_in-MapsFor : (fd : ℕ) (m : Memory W) (o : Option ℕ) → MapsFor fd m (map_in fd m o)
  map_in-MapsFor fd m none = refl
  map_in-MapsFor fd m (some a) = mapped-MapsFor fd a m _ _

  -- A fence that is mapped is one of the implementation for the size of its file, and to unmap it
  -- again frees its block; where none is mapped no block is kept.
  pub map_shm-MapsFor : (fd : ℕ) (m : Memory W) → MapsFor fd m (map_shm fd m)
  unfolding map_shm
  map_shm-MapsFor fd m = map_in-MapsFor fd m (c.calloc m.blocks)

-- `xshmfence_alloc_shm`: there is no descriptor.
unfoldable pub alloc_shm : Option ℕ
alloc_shm = none
