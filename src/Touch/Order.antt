-- ===== src/Touch/Order.antt =====
-- The order of the touches that `handleTouchEvent` of cmdentrypoint.c queues.
use termux_x11_virtualkeys.Base.{
  ℕ, ◌==◌, ◌≡◌, refl, sym, ap, subst, ◌&&◌, Bool, true, false, Option, none, some, List, [], ◌∷◌,
  if◌then◌else◌, ◌⊎◌, arith,
}
use termux_x11_virtualkeys.Touch.{
  TouchType, touch_begin, touch_update, touch_end, touch_other, TouchEvent, Doubles, TouchPoint,
  Queued, clamp, is_update, is_active, unmoved, effective_type, forward, handle_touch, handle_all,
}

-- Whether a touch goes on after what is queued for some touch.
abbrev pub goes_on : TouchType → Bool → Bool
goes_on touch_begin before = true
goes_on touch_update before = before
goes_on touch_end before = false
goes_on (touch_other n) before = before

-- An update and an end belong to a touch that was begun and has not ended.
abbrev pub Allowed : TouchType → Bool → Type 0
Allowed touch_begin on = Unit
Allowed touch_update on = on ≡ true
Allowed touch_end on = on ≡ true
Allowed (touch_other n) on = Unit

effective_type-Allowed :
    (t : TouchType) (active : Bool) (r : TouchType)
    → effective_type t active ≡ some r
    → Allowed r active
unfolding effective_type
effective_type-Allowed t active r e = ground arith

module _ {D : Type 0} where
  -- Which touches go on after what is queued.
  abbrev pub after : Queued D → (ℕ → Bool) → ℕ → Bool
  after q on id = if id == q.id then goes_on q.type (on id) else on id

  pub Accepted : (ℕ → Bool) → List (Queued D) → Type 0
  Accepted on [] = Unit
  Accepted on (q ∷ qs) = Allowed q.type (on q.id) × Accepted (after q on) qs

  Accepted-same :
      (qs : List (Queued D)) (on on' : ℕ → Bool)
      → ((id : ℕ) → on id ≡ on' id)
      → Accepted on qs
      → Accepted on' qs
  unfolding Accepted
  Accepted-same [] on on' s a = tt
  Accepted-same (q ∷ qs) on on' s a =
      (subst (Allowed q.type) (s q.id) (a.0), Accepted-same qs _ _ same (a.1))
    where
      same : (id : ℕ) → after q on id ≡ after q on' id
      same id = ap (λ x. if id == q.id then goes_on q.type x else x) (s id)

  forward_nothing :
      (d : Doubles D) (width height : ℕ) (e : TouchEvent) (active still : Bool)
      → forward d width height e
          (active && (is_update e.type && still))
          (effective_type e.type active)
        ≡ none
      → ((e.type ≡ touch_end) × (active ≡ false))
        ⊎ ((e.type ≡ touch_update) × ((active ≡ true) × (still ≡ true)))
  unfolding forward effective_type
  forward_nothing d width height e active still h = ground arith

  -- What the X server has of a touch follows what is queued.
  abbrev pub Follows : (Queued D → (ℕ → Option (TouchPoint D)) → ℕ → Option (TouchPoint D)) → Type 0
  Follows queue =
      (q : Queued D) (touches : ℕ → Option (TouchPoint D)) (id : ℕ)
      → is_active (queue q touches id) ≡ after q (λ i. is_active (touches i)) id

  forward-Allowed :
      (d : Doubles D) (width height : ℕ) (e : TouchEvent) (active skip : Bool)
      (r : Option TouchType) (q : Queued D)
      → effective_type e.type active ≡ r
      → forward d width height e skip r ≡ some q
      → (q.id ≡ e.id) × Allowed q.type active
  unfolding forward
  forward-Allowed d width height e active true r q f h = ground arith
  forward-Allowed d width height e active false none q f h = ground arith
  forward-Allowed d width height e active false (some t) q f h =
      subst (λ o. Fits o) h (refl, effective_type-Allowed e.type active t f)
    where
      Fits : Option (Queued D) → Type 0
      Fits none = Unit
      Fits (some p) = (p.id ≡ e.id) × Allowed p.type active

  handle_touch-Allowed :
      (d : Doubles D) (width height : ℕ) (e : TouchEvent) (t : Option (TouchPoint D)) (q : Queued D)
      → handle_touch d width height e t ≡ some q
      → (q.id ≡ e.id) × Allowed q.type (is_active t)
  unfolding handle_touch
  handle_touch-Allowed d width height e t q h =
      forward-Allowed d width height e (is_active t) _ (effective_type e.type (is_active t)) q refl
        h

  -- One event more in front.
  handle_all-cons :
      (d : Doubles D) (width height : ℕ)
      (queue : Queued D → (ℕ → Option (TouchPoint D)) → ℕ → Option (TouchPoint D)) (e : TouchEvent)
      (es : List TouchEvent) (touches : ℕ → Option (TouchPoint D))
      → Follows queue
      → Accepted (λ id. is_active (touches id)) (handle_all d width height queue es touches)
      → ((q : Queued D)
          → Accepted
              (λ id. is_active (queue q touches id))
              (handle_all d width height queue es (queue q touches)))
      → Accepted (λ id. is_active (touches id)) (handle_all d width height queue (e ∷ es) touches)
  unfolding handle_all Accepted
  handle_all-cons d width height queue e es touches f same more =
      go (handle_touch d width height e (touches e.id)) refl
    where
      go :
          (o : Option (Queued D))
          → handle_touch d width height e (touches e.id) ≡ o
          → Accepted
              (λ id. is_active (touches id))
              (handle_all d width height queue (e ∷ es) touches)
      go none h = rw (h, handle_all) same
      go (some q) h =
          rw (h, handle_all)
            (
              subst (λ i. Allowed q.type (is_active (touches i))) (sym (allowed.0)) (allowed.1),
              Accepted-same _ _ _ (f q touches) (more q),
            )
        where
          allowed : (q.id ≡ e.id) × Allowed q.type (is_active (touches e.id))
          allowed = handle_touch-Allowed d width height e (touches e.id) q h

-- Whatever events come, and whatever touches there are first, an update or an end is queued only for
-- a touch that was begun and has not ended, by what was queued before it; `QueueTouchEvents` has to
-- begin and end touches as it is told.
pub handle_all-Accepted :
    {D : Type 0} (d : Doubles D) (width height : ℕ)
    (queue : Queued D → (ℕ → Option (TouchPoint D)) → ℕ → Option (TouchPoint D))
    (es : List TouchEvent) (touches : ℕ → Option (TouchPoint D))
    → Follows queue
    → Accepted (λ id. is_active (touches id)) (handle_all d width height queue es touches)
unfolding handle_all Accepted
handle_all-Accepted d width height queue [] touches f = tt
handle_all-Accepted d width height queue (e ∷ es) touches f =
    handle_all-cons d width height queue e es touches f
      (handle_all-Accepted d width height queue es touches f)
      (λ q. handle_all-Accepted d width height queue es (queue q touches) f)

-- Nothing is queued only for an end of a touch that is not active, or for an update of an active one
-- whose stored valuators are the new ones.
pub handle_touch_nothing :
    {D : Type 0} (d : Doubles D) (width height : ℕ) (e : TouchEvent) (t : Option (TouchPoint D))
    → handle_touch d width height e t ≡ none
    → ((e.type ≡ touch_end) × (is_active t ≡ false))
      ⊎ ((e.type ≡ touch_update)
          × ((is_active t ≡ true) × (unmoved d t (clamp e.x width) (clamp e.y height) ≡ true)))
unfolding handle_touch forward effective_type
handle_touch_nothing d width height e t h = forward_nothing d width height e (is_active t) _ h

-- An update of an active touch at the place where it is already is queued again, where the stored
-- valuator is the one that was queued and that double is not the number of the pixel.
pub handle_touch_repeated :
    {D : Type 0} (d : Doubles D) (width height : ℕ) (e : TouchEvent) (t : TouchPoint D)
    → e.type ≡ touch_update
    → t.active ≡ true
    → t.valuator_x ≡ some (d.scaled (clamp e.x width) width)
    → d.equal (d.scaled (clamp e.x width) width) (d.of_nat (clamp e.x width)) ≡ false
    → handle_touch d width height e (some t)
      ≡ some (record {
        type = touch_update;
        id = e.id;
        x = d.scaled (clamp e.x width) width;
        y = d.scaled (clamp e.y height) height;
      })
unfolding handle_touch forward effective_type
handle_touch_repeated d width height e t u a v n =
    rw (u, a, v, n, handle_touch, forward, effective_type) refl
