-- ===== src/Keyboard/Added.antt =====
-- The keysyms that were given a key: `addedKeysyms` of InputXKB.c, the last used in front, with
-- `saveAddedKeysym`, `vncOnKeyUsed`, `getReusableKeycode` and `lorieAddKeysym`.
use termux_x11_virtualkeys.Base.{
  ℕ, zero, suc, ◌+◌, ◌-◌, ◌/◌, ◌%◌, ◌==◌, not, ◌&&◌, ◌||◌, Bool, true, false, Option, none, some,
  List, [], ◌∷◌, if◌then◌else◌,
}
use mathlib.Core.List.{reverse}
use termux_x11_virtualkeys.Keyboard.Xkb.{Xkb}
use termux_x11_virtualkeys.Keyboard.Lookup.{all_rounds}
pub mod Order

-- `AddedKeySym`.
pub record Added : Type 0 where
  pub keysym : ℕ
  pub keycode : ℕ

-- `saveAddedKeysym`; nothing is saved where there is no memory.
abbrev pub save_added : Bool → (code sym : ℕ) → List Added → List Added
save_added false code sym added = added
save_added true code sym added = (record { keysym = sym; keycode = code }) ∷ added

-- The first item with the key, and the list without it.
unfoldable pub take_out : ℕ → List Added → Option (Added × List Added)
take_out key [] = none
take_out key (a ∷ l) =
    let rest : Option (Added × List Added) = elim (take_out key l) [
      | none ↦ none
      | some (it, l') ↦ some (it, a ∷ l')
    ] in
    if a.keycode == key then some (a, l) else rest

-- `vncOnKeyUsed`.
unfoldable pub on_key_used : ℕ → List Added → List Added
unfolding take_out
on_key_used key [] = []
on_key_used key (a ∷ l) =
    if a.keycode == key
    then a ∷ l
    else elim (take_out key (a ∷ l)) [ none ↦ a ∷ l | some (it, l') ↦ it ∷ l' ]

-- Nobody else has changed the key: its first symbol, and its name that begins with `T`.
abbrev pub is_named : Option (ℕ → ℕ → ℕ) → ℕ → Bool
is_named none key = true
is_named (some name) key = name key 0 == b'T'

unfoldable pub is_ours : Xkb → Added → Bool
is_ours xkb a =
    not (xkb.num_groups a.keycode == 0)
    && (xkb.syms a.keycode 0 == a.keysym && is_named xkb.names a.keycode)

-- The loop of `getReusableKeycode`, over the items from the last one on.
unfoldable pub reuse_from : Xkb → List Added → ℕ × List Added
reuse_from xkb [] = (0, [])
reuse_from xkb (a ∷ earlier) =
    let rest = reuse_from xkb earlier in
    if is_ours xkb a && not (a.keycode == 0) then (a.keycode, earlier) else rest

-- `getReusableKeycode`.
unfoldable pub reusable_keycode : Xkb → List Added → ℕ × List Added
unfolding reuse_from
reusable_keycode xkb added =
    let (key, earlier) = reuse_from xkb (reverse added) in (key, reverse earlier)

-- The last key of the keyboard that has no groups.
unfoldable pub free_key : Xkb → (rounds key : ℕ) → Option ℕ
free_key xkb zero key = none
free_key xkb (suc rounds) key =
    let rest = free_key xkb rounds (key - 1) in if xkb.num_groups key == 0 then some key else rest

-- The key that is taken for a new keysym, or 0.
unfoldable pub new_key : Xkb → List Added → ℕ × List Added
unfolding free_key reusable_keycode
new_key xkb added = elim (free_key xkb (all_rounds xkb) xkb.max_key_code) [
  | some key ↦ (key, added)
  | none ↦ reusable_keycode xkb added
]

-- The name `Tddd` of the key.
abbrev pub name_char : (key i : ℕ) → ℕ
name_char key zero = b'T'
name_char key (suc zero) = b'0' + key / 100 % 10
name_char key (suc (suc zero)) = b'0' + key / 10 % 10
name_char key (suc (suc (suc i))) = b'0' + key % 10

abbrev pub name_key : ℕ → Option (ℕ → ℕ → ℕ) → Option (ℕ → ℕ → ℕ)
name_key key none = none
name_key key (some name) = some (λ k i. if k == key then name_char key i else name k i)

-- Two symbols of a key.
abbrev pub set_syms : (key lower upper : ℕ) → Xkb → Xkb
set_syms key lower upper xkb = record xkb {
  syms = λ k i.
      if k == key && i == 0 then lower else if k == key && i == 1 then upper else xkb.syms k i;
}

-- `lorieAddKeysym`: the key, the keyboard and the list. `change_types` is `XkbChangeTypesOfKey` for one
-- alphabetic group.
unfoldable pub add_keysym : (ℕ → Xkb → Xkb) → Bool → ℕ → Xkb → List Added → ℕ × (Xkb × List Added)
unfolding new_key
add_keysym change_types allocates keysym xkb added =
    let (key, added') = new_key xkb added in
    let (lower, upper) = xkb.convert_case keysym in
    if key == 0 then (0, (xkb, added')) else (
      key,
      (
        set_syms key lower upper (change_types key (record xkb { names = name_key key xkb.names })),
        save_added allocates key lower added',
      ),
    )
