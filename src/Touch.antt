-- ===== src/Touch.antt =====
-- `handleTouchEvent` of cmdentrypoint.c. Floating point is a parameter, as are the touches that the X
-- server keeps and `QueueTouchEvents`.
use termux_x11_virtualkeys.Base.{
  ℕ, ◌==◌, ==_iff, ◌≡◌, refl, sym, ap, ◌∙◌, subst, ltb, not, ◌&&◌, ◌||◌, Bool, true, false,
  Bool-cases, ◌⊎◌, inl, inr, Option, none, some, List, [], ◌∷◌, if◌then◌else◌, arith,
}
pub mod Order
mod Examples

-- XI_TouchBegin, XI_TouchUpdate, XI_TouchEnd, and any other number.
pub data TouchType : Type 0 where
  touch_begin touch_update touch_end : TouchType
  touch_other : ℕ → TouchType

pub record TouchEvent : Type 0 where
  pub type : TouchType
  pub id : ℕ
  pub x : ℕ
  pub y : ℕ

-- The doubles: a number, the test `==`, and `x * 0xFFFF / (float) size`.
pub record Doubles (D : Type 0) : Type 0 where
  pub of_nat : ℕ → D
  pub equal : D → D → Bool
  pub scaled : ℕ → ℕ → D

-- `DDXTouchPointInfoRec`; a valuator may be unset.
pub record TouchPoint (D : Type 0) : Type 0 where
  pub active : Bool
  pub valuator_x : Option D
  pub valuator_y : Option D

-- The arguments of `QueueTouchEvents`.
pub record Queued (D : Type 0) : Type 0 where
  pub type : TouchType
  pub id : ℕ
  pub x : D
  pub y : D

-- max(min(x, size), 0) of a number that is not negative.
abbrev pub clamp : ℕ → ℕ → ℕ
clamp x size = if ltb size x then size else x

abbrev pub is_update : TouchType → Bool
is_update touch_update = true
is_update touch_begin = false
is_update touch_end = false
is_update (touch_other n) = false

-- The type that is queued, if any, for a touch that is active or not.
unfoldable pub effective_type : TouchType → Bool → Option TouchType
effective_type touch_update active = if active then some touch_update else some touch_begin
effective_type touch_end active = if active then some touch_end else none
effective_type touch_begin active = some touch_begin
effective_type (touch_other n) active = some (touch_other n)

module _ {D : Type 0} where
  -- touch && touch->active
  abbrev pub is_active : Option (TouchPoint D) → Bool
  is_active none = false
  is_active (some t) = t.active

  -- `valuator_mask_fetch_double` gives a value, and it is the one asked for.
  abbrev pub holds : Doubles D → Option D → ℕ → Bool
  holds d none x = false
  holds d (some old) x = d.equal old (d.of_nat x)

  abbrev pub unmoved : Doubles D → Option (TouchPoint D) → (x y : ℕ) → Bool
  unmoved d none x y = false
  unmoved d (some t) x y = holds d t.valuator_x x && holds d t.valuator_y y

  -- What is queued for an event that is no repetition, with the type that it takes.
  unfoldable pub forward :
      Doubles D → (width height : ℕ) → TouchEvent → Bool → Option TouchType → Option (Queued D)
  forward d width height e true type = none
  forward d width height e false none = none
  forward d width height e false (some type) = some (record {
    type = type;
    id = e.id;
    x = d.scaled (clamp e.x width) width;
    y = d.scaled (clamp e.y height) height;
  })

  -- An event on a screen, where the X server knows that touch.
  unfoldable pub handle_touch :
      Doubles D → (width height : ℕ) → TouchEvent → Option (TouchPoint D) → Option (Queued D)
  unfolding forward
  handle_touch d width height e touch =
      forward d width height e
        (is_active touch
          && (is_update e.type && unmoved d touch (clamp e.x width) (clamp e.y height)))
        (effective_type e.type (is_active touch))

  -- An event is handled with the touches that the X server has then; `queue` is what becomes of them.
  unfoldable pub handle_all :
      Doubles D
      → (width height : ℕ) → (Queued D → (ℕ → Option (TouchPoint D)) → ℕ → Option (TouchPoint D))
      → List TouchEvent
      → (ℕ → Option (TouchPoint D))
      → List (Queued D)
  handle_all d width height queue [] touches = []
  handle_all d width height queue (e ∷ es) touches =
      elim (handle_touch d width height e (touches e.id)) [
        | none ↦ handle_all d width height queue es touches
        | some q ↦ q ∷ handle_all d width height queue es (queue q touches)
      ]
