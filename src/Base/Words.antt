-- ===== src/Base/Words.antt =====
-- Masks of a byte and wrapping words. A test such as `(b & 0xc0) == 0x80` is written with `/`,
-- and the tables below check on every byte that this is the masked test.
use Prim.Native.Nat.{bit_and}
use Prim.Native.Nat.{ℕ, zero, suc, ◌+◌, ◌-◌, ◌/◌, ◌%◌, ◌^◌}
use mathlib.Core.Path.{◌≡◌, refl}
use mathlib.Core.Bool.{Bool, true, false, ◌&&◌}
use termux_x11_virtualkeys.Base.Tests.{◌==◌, leb}

-- (b & 0xc0) == 0x80
abbrev pub is_continuation : ℕ → Bool
is_continuation b = b / 64 == 2

-- The low `k` bits.
abbrev pub low_bits : ℕ → ℕ → ℕ
low_bits k b = b % 2 ^ k

-- Subtraction of `size_t` values.
abbrev pub sub64 : ℕ → ℕ → ℕ
sub64 a b = (a + 2 ^ 64 - b) % 2 ^ 64

-- 1 for `true`, as C has it.
abbrev pub to_int : Bool → ℕ
to_int true = 1
to_int false = 0

every_byte : ℕ → (ℕ → Bool) → Bool
every_byte zero p = true
every_byte (suc n) p = p n && every_byte n p

-- Two tests agree.
abbrev same : Bool → Bool → Bool
same true b = b
same false true = false
same false false = true

masks_table :
    every_byte 256 (λ b.
      same (is_continuation b) (bit_and b 0xc0 == 0x80)
      && (same (leb 0x80 b) (bit_and b 0x80 == 0x80)
          && (same (leb 0xe0 b) (bit_and b 0xe0 == 0xe0)
              && (same (leb 0xf0 b) (bit_and b 0xf0 == 0xf0)
                  && (same (b / 8 == 30) (bit_and b 0xf8 == 0xf0)
                      && (same (b / 32 == 6) (bit_and b 0xe0 == 0xc0)
                          && (same (b / 16 == 14) (bit_and b 0xf0 == 0xe0)
                              && (low_bits 6 b == bit_and b 0x3f))))))))
    ≡ true
unfolding every_byte
masks_table = refl
