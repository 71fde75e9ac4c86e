-- ===== src/Keyboard/Added/Order.antt =====
-- The order of the list of added keysyms of InputXKB.c, where a key is used and where one is taken
-- again.
use termux_x11_virtualkeys.Base.{
  ℕ, ◌==◌, ◌≡◌, ◌≢◌, refl, sym, ◌∙◌, subst, not, Bool, true, false, Bool-cases, Option, none, some,
  List, [], ◌∷◌, ◌++◌, inl, inr, if◌then◌else◌, All, arith,
}
use mathlib.Core.List.{Perm, reverse, reverse-append, reverse-cons, reverse-reverse, append_assoc}
use mathlib.Core.List.Perm
use termux_x11_virtualkeys.Keyboard.Xkb.{Xkb}
use termux_x11_virtualkeys.Keyboard.Added.{
  Added, take_out, on_key_used, is_ours, reuse_from, reusable_keycode,
}

-- The key is one of the list, and it is the first one of it.
unfoldable pub has_key : ℕ → List Added → Bool
has_key key [] = false
has_key key (a ∷ l) = let rest = has_key key l in if a.keycode == key then true else rest

abbrev pub is_first : ℕ → List Added → Bool
is_first key [] = false
is_first key (a ∷ l) = a.keycode == key

-- What is taken out: an item with the key and the rest, or nothing where no item has it.
abbrev Taken : ℕ → List Added → Option (Added × List Added) → Type 0
Taken key l none = has_key key l ≡ false
Taken key l (some (it, l')) =
    ((it.keycode == key) ≡ true) × (Perm (it ∷ l') l × (has_key key l ≡ true))

take_out-Taken : (key : ℕ) (l : List Added) → Taken key l (take_out key l)
unfolding take_out has_key
take_out-Taken key [] = refl
take_out-Taken key (a ∷ l) = elim (Bool-cases (a.keycode == key)) [
  | inl e ↦ rw e (e, (Perm.refl (a ∷ l), rw e refl))
  | inr e ↦ rw e (step (take_out key l) (take_out-Taken key l) e)
]
  where
    step :
        (o : Option (Added × List Added))
        → Taken key l o
        → (a.keycode == key) ≡ false
        → Taken key (a ∷ l) (elim o as (λ _. Option (Added × List Added)) [
          | none ↦ none
          | some (it, l') ↦ some (it, a ∷ l')
        ])
    step none t e = rw e t
    step (some (it, l')) (f, (p, h)) e =
        rw e (f, (Perm.trans (Perm.swap a it l') (Perm.cons a p), h))

-- The use of a key leaves the items as they are but for their order, and the key stands first after it
-- exactly where it is one of the list.
pub on_key_used-Perm :
    (key : ℕ) (l : List Added)
    → Perm (on_key_used key l) l × (is_first key (on_key_used key l) ≡ has_key key l)
unfolding on_key_used has_key
on_key_used-Perm key [] = (Perm.refl [], refl)
on_key_used-Perm key (a ∷ l) = elim (Bool-cases (a.keycode == key)) [
  | inl e ↦ rw e (Perm.refl (a ∷ l), e)
  | inr e ↦ rw e (step (take_out key l) (take_out-Taken key l) e)
]
  where
    used : Option (Added × List Added) → List Added
    used o =
        elim (elim o as (λ _. Option (Added × List Added)) [
          | none ↦ none
          | some (it, l') ↦ some (it, a ∷ l')
        ])
          as (λ _. List Added) [ none ↦ a ∷ l | some (it, l') ↦ it ∷ l' ]

    step :
        (o : Option (Added × List Added))
        → Taken key l o
        → (a.keycode == key) ≡ false
        → Perm (used o) (a ∷ l) × (is_first key (used o) ≡ has_key key l)
    step none t e = (Perm.refl (a ∷ l), e ∙ sym t)
    step (some (it, l')) (f, (p, h)) e = (Perm.trans (Perm.swap a it l') (Perm.cons a p), f ∙ sym h)

-- The list from its end, where the items of `stale` are not ours.
reuse_from-append :
    (xkb : Xkb) (stale earlier : List Added)
    → All (λ b. is_ours xkb b ≡ false) stale
    → reuse_from xkb (stale ++ earlier) ≡ reuse_from xkb earlier
unfolding reuse_from
reuse_from-append xkb [] earlier h = refl
reuse_from-append xkb (b ∷ stale) earlier h = rw h.0 (reuse_from-append xkb stale earlier h.1)

All-snoc : (P : Added → Type 0) (l : List Added) (a : Added) → All P l → P a → All P (l ++ (a ∷ []))
All-snoc P [] a h p = (p, tt)
All-snoc P (b ∷ l) a h p = (h.0, All-snoc P l a h.1 p)

All-reverse : (P : Added → Type 0) (l : List Added) → All P l → All P (reverse l)
All-reverse P [] h = tt
All-reverse P (a ∷ l) h =
    subst (All P) (sym (reverse-cons a l)) (All-snoc P (reverse l) a (All-reverse P l h.1) h.0)

-- The key that is taken again is that of the last item that is still ours: the items behind it, which
-- other clients have changed, are dropped with it, and those before it stay.
pub reusable_keycode-last :
    (xkb : Xkb) (used : List Added) (a : Added) (stale : List Added)
    → is_ours xkb a ≡ true
    → a.keycode ≢ 0
    → All (λ b. is_ours xkb b ≡ false) stale
    → reusable_keycode xkb (used ++ (a ∷ stale)) ≡ (a.keycode, used)
unfolding reusable_keycode reuse_from
reusable_keycode-last xkb used a stale o n h =
    rw
      (
        reverse-append used (a ∷ stale),
        reverse-cons a stale,
        append_assoc (reverse stale) (a ∷ []) (reverse used),
      )
      (rw (reuse_from-append xkb (reverse stale) (a ∷ reverse used) (All-reverse _ stale h))
        (rw (o, named) (rw (reverse-reverse used) refl)))
  where
    named : not (a.keycode == 0) ≡ true
    named = ground (arith, n)
