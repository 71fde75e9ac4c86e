-- ===== src/Keyboard/Lookup/Found.antt =====
-- What `lorieKeysymToKeycode` of InputXKB.c finds, against the keysyms that the keys give.
use termux_x11_virtualkeys.Base.{
  ℕ, zero, suc, ◌+◌, ◌==◌, ==_iff, ◌≡◌, refl, ap, ◌≤◌, ◌<◌, ◌⊎◌, inl, inr, true, false, Bool-cases,
  arith,
}
use termux_x11_virtualkeys.Keyboard.Xkb.{Xkb}
use termux_x11_virtualkeys.Keyboard.Lookup.{
  is_fake_key, produces, search_key, all_rounds, lookup_key, keysym_to_keycode, level_three_mask,
  shifted, levelled, shifted_levelled,
}

module _ (xkb : Xkb) (keysym state : ℕ) where
  -- A key among the rounds that gives the keysym.
  abbrev pub Gives : (rounds key r : ℕ) → Type 0
  Gives rounds key r = (produces xkb keysym state r ≡ true) × ((key ≤ r) × (r < key + rounds))

  search_key-Gives :
      (rounds key fallback : ℕ)
      → (search_key xkb keysym state rounds key fallback ≡ fallback)
        ⊎ Gives rounds key (search_key xkb keysym state rounds key fallback)
  unfolding search_key
  search_key-Gives zero key fallback = inl refl
  search_key-Gives (suc rounds) key fallback =
      grind
        (arith, search_key-Gives rounds (suc key) fallback, search_key-Gives rounds (suc key) key)

  -- Where nothing is found there was no fallback, and no key gives the keysym.
  search_key-fallback :
      (rounds key fallback : ℕ)
      → 0 < key
      → search_key xkb keysym state rounds key fallback ≡ 0
      → fallback ≡ 0
  unfolding search_key
  search_key-fallback zero key fallback p e = e
  search_key-fallback (suc rounds) key fallback p e = ground (
    arith,
    search_key-fallback rounds (suc key) fallback,
    search_key-fallback rounds (suc key) key,
  )

  search_key-none :
      (rounds key fallback k : ℕ)
      → 0 < key
      → key ≤ k
      → k < key + rounds
      → search_key xkb keysym state rounds key fallback ≡ 0
      → produces xkb keysym state k ≡ false
  unfolding search_key
  search_key-none zero key fallback k p a b e = absurd (omega arith)
  search_key-none (suc rounds) key fallback k p a b e = elim (Bool-cases (k == key)) [
    | inl same ↦ ground (
      arith,
      ap (produces xkb keysym state) ((==_iff k key).0 same),
      search_key-fallback rounds (suc key) fallback,
      search_key-fallback rounds (suc key) key,
    )
    | inr other ↦
        ground (
          arith,
          search_key-none rounds (suc key) fallback k,
          search_key-none rounds (suc key) key k,
        )
  ]

  -- A key that no keyboard sends is found only where all that give the keysym are such.
  search_key-fake :
      (rounds key fallback k : ℕ)
      → key ≤ k
      → k < key + rounds
      → is_fake_key (search_key xkb keysym state rounds key fallback) ≡ true
      → produces xkb keysym state k ≡ true
      → is_fake_key k ≡ true
  unfolding search_key
  search_key-fake zero key fallback k a b f e = absurd (omega arith)
  search_key-fake (suc rounds) key fallback k a b f e = elim (Bool-cases (k == key)) [
    | inl same ↦ ground (
      arith,
      ap (produces xkb keysym state) ((==_iff k key).0 same),
      ap is_fake_key ((==_iff k key).0 same),
    )
    | inr other ↦
        ground (
          arith,
          search_key-fake rounds (suc key) fallback k,
          search_key-fake rounds (suc key) key k,
        )
  ]

  -- The lookup in one state: a key of the keyboard that gives the keysym, or 0.
  lookup_key-Gives :
      (lookup_key xkb keysym state ≡ 0)
      ⊎ Gives (all_rounds xkb) xkb.min_key_code (lookup_key xkb keysym state)
  unfolding lookup_key
  lookup_key-Gives = search_key-Gives (all_rounds xkb) xkb.min_key_code 0

-- Where a key of the keyboard gives the keysym, the lookup in that state finds a key, and it finds a
-- key that no real keyboard sends only if that one is such a key too; the keys of the keyboard begin
-- above 0.
pub lookup_key-best :
    (xkb : Xkb) (keysym state k : ℕ)
    → 0 < xkb.min_key_code
    → xkb.min_key_code ≤ k
    → k ≤ xkb.max_key_code
    → produces xkb keysym state k ≡ true
    → (0 < lookup_key xkb keysym state)
      × ((is_fake_key (lookup_key xkb keysym state) ≡ false) ⊎ (is_fake_key k ≡ true))
unfolding lookup_key
lookup_key-best xkb keysym state k p a b e = ground (
  arith,
  search_key-none xkb keysym state (all_rounds xkb) xkb.min_key_code 0 k,
  search_key-fake xkb keysym state (all_rounds xkb) xkb.min_key_code 0 k,
)

-- A key that is found is a key of the keyboard and gives the keysym in the state that comes with it.
pub keysym_to_keycode-produces :
    (xkb : Xkb) (kstate keysym state : ℕ)
    → xkb.min_key_code ≤ xkb.max_key_code
    → let found = keysym_to_keycode xkb kstate keysym state in
      (found.0 ≡ 0)
      ⊎ ((produces xkb keysym found.1 found.0 ≡ true)
          × ((xkb.min_key_code ≤ found.0) × (found.0 ≤ xkb.max_key_code)))
unfolding keysym_to_keycode
keysym_to_keycode-produces xkb kstate keysym state p = ground (
  arith,
  lookup_key-Gives xkb keysym state,
  lookup_key-Gives xkb keysym (shifted xkb state),
  lookup_key-Gives xkb keysym (levelled xkb (level_three_mask xkb kstate) state),
  lookup_key-Gives xkb keysym (shifted_levelled xkb (level_three_mask xkb kstate) state),
)
