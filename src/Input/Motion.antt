-- ===== src/Input/Motion.antt =====
-- The position of the pointer for EVENT_MOUSE, of cmdentrypoint.c.
use termux_x11_virtualkeys.Base.{
  ℕ, ◌≡◌, true, false, Bool-cases, inl, inr, if_property, List, [], ◌∷◌, ◌++◌, ◌==◌, ltb, subst,
  if◌then◌else◌,
}
use mathlib.Core.List.{append-nil}
use termux_x11_virtualkeys.Input.{
  Floats, MouseEvent, PointerEvent, moves_to, moves_by, scrolls, presses_button, releases_button,
  within, move, scroll, handle_mouse,
}

-- What the code relies on: 0 is less than no size, and nothing is less than itself.
pub record Ordered {N : Type 0} (floats : Floats N) : Type 0 where
  pub irreflexive : (a : N) → floats.less a a ≡ false
  pub positive : (n : ℕ) → floats.less (floats.of_nat n) (floats.of_nat 0) ≡ false
  pub asymmetric : (a b : N) → floats.less a b ≡ true → floats.less b a ≡ false

module _ {N : Type 0} (floats : Floats N) where
  -- Not below 0 and not above the size.
  abbrev pub Inside : N → ℕ → Type 0
  Inside a size =
      (floats.less a (floats.of_nat 0) ≡ false) × (floats.less (floats.of_nat size) a ≡ false)

  abbrev pub OnScreen : (width height : ℕ) → List (PointerEvent N) → Type 0
  OnScreen width height [] = Unit
  OnScreen width height (moves_to x y ∷ es) =
      (Inside x width × Inside y height) × OnScreen width height es
  OnScreen width height (moves_by x y ∷ es) = OnScreen width height es
  OnScreen width height (scrolls axis d ∷ es) = OnScreen width height es
  OnScreen width height (presses_button b ∷ es) = OnScreen width height es
  OnScreen width height (releases_button b ∷ es) = OnScreen width height es

  within-Inside : Ordered floats → (a : N) (size : ℕ) → Inside (within floats a size) size
  unfolding within
  within-Inside o a size = elim (Bool-cases (floats.less b (floats.of_nat 0))) [
    | inl h ↦ rw h (o.irreflexive (floats.of_nat 0), o.positive size)
    | inr h ↦ rw h (
      h,
      elim (Bool-cases (floats.less a (floats.of_nat size))) [
        | inl k ↦ rw k (o.asymmetric a (floats.of_nat size) k)
        | inr k ↦ rw k (o.irreflexive (floats.of_nat size))
      ],
    )
  ]
    where
      b : N
      b = if floats.less a (floats.of_nat size) then a else floats.of_nat size

  scroll-OnScreen :
      (width height axis : ℕ) (d : N) (es : List (PointerEvent N))
      → OnScreen width height es
      → OnScreen width height (scroll floats axis d ++ es)
  scroll-OnScreen width height axis d es h = elim (Bool-cases (floats.is_zero d)) [
    | inl k ↦ rw k h
    | inr k ↦ rw k h
  ]

-- Whatever event of the mouse comes, the motion that is queued ends on the screen where it is absolute,
-- where numbers are ordered as doubles are.
pub handle_mouse-OnScreen :
    {N : Type 0} (floats : Floats N) (width height : ℕ) (e : MouseEvent N)
    → Ordered floats
    → OnScreen floats width height (handle_mouse floats width height e)
unfolding handle_mouse move
handle_mouse-OnScreen {N} floats width height e o =
    if_property (OnScreen floats width height) (e.detail == 0) moved (
      if_property (OnScreen floats width height) (e.detail == 4) scrolled
        (if_property (OnScreen floats width height) (ltb 4 e.detail) {x = []} tt button))
  where
    moved : OnScreen floats width height (move floats width height e ∷ [])
    moved = elim (Bool-cases e.relative) [
      | inl h ↦ unfold move in rw h tt
      | inr h ↦
          unfold move in
          rw h ((within-Inside floats o e.x width, within-Inside floats o e.y height), tt)
    ]

    scrolled : OnScreen floats width height (scroll floats 2 e.x ++ scroll floats 3 e.y)
    scrolled = scroll-OnScreen floats width height 2 e.x (scroll floats 3 e.y) (
        subst (OnScreen floats width height) (append-nil (scroll floats 3 e.y))
          (scroll-OnScreen floats width height 3 e.y [] tt))

    button :
        OnScreen floats width height
          ((if e.down then presses_button e.detail else releases_button e.detail) ∷ [])
    button = elim (Bool-cases e.down) [ inl h ↦ rw h tt | inr h ↦ rw h tt ]
