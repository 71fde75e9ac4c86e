-- ===== src/Touch/Examples.antt =====
-- Touches at concrete inputs, with doubles cut to whole numbers.
use termux_x11_virtualkeys.Base.{
  ℕ, ◌*◌, ◌/◌, ◌==◌, false, Option, none, some, List, [], ◌∷◌, if◌then◌else◌, arith,
}
use termux_x11_virtualkeys.Touch.Order.{Follows, goes_on, Accepted, handle_all-Accepted}
use termux_x11_virtualkeys.Touch.{
  touch_update, touch_end, TouchEvent, Doubles, TouchPoint, Queued, is_active, handle_all,
}

abbrev whole : Doubles ℕ
whole = record { of_nat = λ n. n; equal = λ a b. a == b; scaled = λ x size. x * 0xffff / size }

-- The X server's touches after what is queued.
abbrev queue_touch : Queued ℕ → (ℕ → Option (TouchPoint ℕ)) → ℕ → Option (TouchPoint ℕ)
queue_touch q touches id =
    if id == q.id
    then some (record {
      active = goes_on q.type (is_active (touches id));
      valuator_x = some q.x;
      valuator_y = some q.y;
    })
    else touches id

queue_touch-Follows : Follows queue_touch
queue_touch-Follows q touches id = ground arith

-- A finger that moves before it is down, stays, and goes.
abbrev finger : List TouchEvent
finger =
    (record { type = touch_update; id = 1; x = 10; y = 20 })
    ∷ (record { type = touch_update; id = 1; x = 10; y = 20 })
    ∷ (record { type = touch_end; id = 2; x = 0; y = 0 })
    ∷ (record { type = touch_end; id = 1; x = 10; y = 20 })
    ∷ []

handle_all-Accepted_example :
    Accepted (λ id. false) (handle_all whole 100 100 queue_touch finger (λ id. none))
handle_all-Accepted_example =
    handle_all-Accepted whole 100 100 queue_touch finger (λ id. none) queue_touch-Follows
