-- ===== src/Keyboard/Xkb.antt =====
-- What InputXKB.c reads of the X server's description of the keyboard (`XkbDescPtr`), by the macros
-- and fields of the XKB library, and the masks and keysyms that it names.
use Prim.Native.Nat.{bit_and}
use termux_x11_virtualkeys.Base.{ℕ, ◌-◌, ◌^◌, ◌==◌, not, Bool, Option, List, if◌then◌else◌}

-- `XkbKTMapEntryRec`.
pub record Entry : Type 0 where
  pub active : Bool
  pub mask : ℕ
  pub level : ℕ

-- `XkbKeyTypeRec`. A map that is `NULL` is empty; `preserve` is 0 where the code finds no list of them.
pub record KeyType : Type 0 where
  pub mods_mask : ℕ
  pub entries : List Entry
  pub preserve : ℕ → ℕ

-- `XkbOutOfRangeGroupAction`.
pub data GroupAction : Type 0 where
  wraps clamps redirects : GroupAction

-- The type of an `XkbAction`, as far as the code looks at it.
pub data ActionType : Type 0 where
  set_mods lock_mods other_action : ActionType

pub record Action : Type 0 where
  pub type : ActionType
  pub uses_modmap : Bool
  pub mask : ℕ

-- The description; the last two are functions of the X server, the second giving lower and upper case.
pub record Xkb : Type 0 where
  pub min_key_code : ℕ
  pub max_key_code : ℕ
  pub in_range : ℕ → Bool
  pub num_groups : ℕ → ℕ
  pub groups_width : ℕ → ℕ
  pub group_action : ℕ → GroupAction
  pub group_number : ℕ → ℕ
  pub key_type : ℕ → ℕ → KeyType
  pub syms : ℕ → ℕ → ℕ
  pub has_actions : ℕ → Bool
  pub actions : ℕ → ℕ → Action
  pub modmap : ℕ → ℕ
  pub names : Option (ℕ → ℕ → ℕ)
  pub group_for_core_state : ℕ → ℕ
  pub convert_case : ℕ → ℕ × ℕ

abbrev pub no_symbol : ℕ
no_symbol = 0

abbrev pub shift_mask : ℕ
shift_mask = 1

abbrev pub lock_mask : ℕ
lock_mask = 2

abbrev pub xk_tab : ℕ
xk_tab = 0xff09

abbrev pub xk_iso_level3_shift : ℕ
xk_iso_level3_shift = 0xfe03

abbrev pub xk_mode_switch : ℕ
xk_mode_switch = 0xff7e

abbrev pub xk_num_lock : ℕ
xk_num_lock = 0xff7f

-- state & mask, as a condition; and state & ~mask of 32-bit words.
abbrev pub has : ℕ → ℕ → Bool
has state mask = not (bit_and state mask == 0)

abbrev pub without : ℕ → ℕ → ℕ
without state mask = bit_and state (2 ^ 32 - 1 - mask)

-- (state & mask) ? 0 : mask
abbrev pub flipped : ℕ → ℕ → ℕ
flipped state mask = if has state mask then 0 else mask
