-- ===== src/Keyboard/Event/Balance.antt =====
-- The keys that are released for a modifier around a key, of `lorieKeysymKeyboardEvent` in InputXKB.c.
use termux_x11_virtualkeys.Base.{
  ℕ, zero, suc, ◌==◌, ==_iff, ◌≡◌, refl, sym, ap, ◌∙◌, leb, ◌&&◌, Bool, true, false, Bool-cases,
  if_property, List, [], ◌∷◌, ◌++◌, map, if◌then◌else◌, inl, inr, arith, length, All,
}
use termux_x11_virtualkeys.Keyboard.Xkb.{Xkb, has, shift_mask}
use termux_x11_virtualkeys.Keyboard.Lookup.{all_rounds, level_three_mask}
use termux_x11_virtualkeys.Keyboard.Modifiers.{
  collect, keys_down, release_shift, release_level_three, sets,
}
use termux_x11_virtualkeys.Keyboard.Event.{
  KeyEvent, press, release, Keys, Env, Fake, none_needed, impossible, presses, releases, fake,
  before, after, is_impossible, fake_shift, fake_level_three, send_key, max_release,
}

-- Whether the key is down after events, where `down` says whether it was before.
unfoldable pub replay : ℕ → List KeyEvent → Bool → Bool
replay k [] down = down
replay k (press j ∷ es) down = replay k es (if k == j then true else down)
replay k (release j ∷ es) down = replay k es (if k == j then false else down)

replay-append :
    (k : ℕ) (es fs : List KeyEvent) (down : Bool)
    → replay k (es ++ fs) down ≡ replay k fs (replay k es down)
unfolding replay
replay-append k [] fs down = refl
replay-append k (press j ∷ es) fs down = replay-append k es fs _
replay-append k (release j ∷ es) fs down = replay-append k es fs _

mem : ℕ → List ℕ → Bool
mem k [] = false
mem k (j ∷ js) = let rest = mem k js in if k == j then true else rest

replay-map_press_true : (k : ℕ) (js : List ℕ) → replay k (map press js) true ≡ true
unfolding replay
replay-map_press_true k [] = refl
replay-map_press_true k (j ∷ js) = ground (arith, replay-map_press_true k js)

replay-map_press :
    (k : ℕ) (js : List ℕ) (down : Bool) → mem k js ≡ true → replay k (map press js) down ≡ true
unfolding replay mem
replay-map_press k [] down m = cc
replay-map_press k (j ∷ js) down m =
    ground (arith, replay-map_press_true k js, replay-map_press k js down)

-- Events that do not name a key.
untouched :
    (k : ℕ) (js : List ℕ) (down : Bool)
    → mem k js ≡ false
    → (replay k (map press js) down ≡ down) × (replay k (map release js) down ≡ down)
unfolding replay mem
untouched k [] down m = (refl, refl)
untouched k (j ∷ js) down m = ground (arith, untouched k js down)

All-mem :
    (down : ℕ → Bool) (k : ℕ) (js : List ℕ)
    → All (λ j. down j ≡ true) js
    → mem k js ≡ true
    → down k ≡ true
unfolding mem
All-mem down k [] a m = cc
All-mem down k (j ∷ js) a m = elim (Bool-cases (k == j)) [
  | inl e ↦ ap down ((==_iff k j).0 e) ∙ a.0
  | inr e ↦ All-mem down k js (a.1) (rw e at m)
]

-- The key that is pressed for a modifier.
abbrev pub is_pressed_by : Fake → ℕ → Bool
is_pressed_by none_needed k = false
is_pressed_by impossible k = false
is_pressed_by (presses j) k = k == j
is_pressed_by (releases js) k = false

-- The keys that are released for a modifier are down.
abbrev Real : (ℕ → Bool) → Fake → Type 0
Real down none_needed = Unit
Real down impossible = Unit
Real down (presses j) = Unit
Real down (releases js) = All (λ j. down j ≡ true) js

-- Either the key is put back at the end, or it is not named.
data Restored (down : ℕ → Bool) (k : ℕ) (f : Fake) : Type 0 where
  put_back : ((x : Bool) → replay k (after f) x ≡ down k) → Restored down k f
  not_named :
      ((x : Bool) → replay k (before f) x ≡ x)
      → ((x : Bool) → replay k (after f) x ≡ x)
      → Restored down k f

restored :
    (down : ℕ → Bool) (k : ℕ) (f : Fake)
    → Real down f
    → is_pressed_by f k ≡ false
    → Restored down k f
unfolding replay
restored down k none_needed r q = not_named (λ x. refl) (λ x. refl)
restored down k impossible r q = not_named (λ x. refl) (λ x. refl)
restored down k (presses j) r q = not_named (λ x. rw q refl) (λ x. rw q refl)
restored down k (releases js) r q = elim (Bool-cases (mem k js)) [
  | inl m ↦ put_back (λ x. replay-map_press k js x m ∙ sym (All-mem down k js r m))
  | inr m ↦ not_named (λ x. (untouched k js x m).1) (λ x. (untouched k js x m).0)
]

-- Where the key was up, it may be one that is pressed for the modifier.
Restored-up :
    (down : ℕ → Bool) (k : ℕ) (f : Fake) → Real down f → down k ≡ false → Restored down k f
unfolding replay
Restored-up down k none_needed r d = restored down k none_needed r refl
Restored-up down k impossible r d = restored down k impossible r refl
Restored-up down k (releases js) r d = restored down k (releases js) r refl
Restored-up down k (presses j) r d = elim (Bool-cases (k == j)) [
  | inl e ↦ put_back (λ x. rw e (sym d))
  | inr e ↦ restored down k (presses j) r e
]

flat :
    (k keycode : ℕ) (a b c d : List KeyEvent) (x : Bool)
    → replay k (a ++ (b ++ (press keycode ∷ (c ++ d)))) x
      ≡ replay k d (replay k c (if k == keycode then true else replay k b (replay k a x)))
unfolding replay
flat k keycode a b c d x = replay-append k a _ x ∙ replay-append k b _ _ ∙ replay-append k c d _

-- The events around a key leave any other key as it was.
around :
    (down : ℕ → Bool) (k keycode : ℕ) (f g : Fake)
    → (k == keycode) ≡ false
    → Restored down k f
    → Restored down k g
    → replay k (before f ++ (before g ++ (press keycode ∷ (after g ++ after f)))) (down k) ≡ down k
around down k keycode f g e (put_back p) rg = flat k keycode _ _ (after g) (after f) _ ∙ p _
around down k keycode f g e (not_named p q) (put_back r) =
    flat k keycode _ _ (after g) (after f) _ ∙ q _ ∙ r _
around down k keycode f g e (not_named p q) (not_named r s) =
    flat k keycode _ _ (after g) (after f) _ ∙ q _ ∙ s _ ∙ rw e (r _ ∙ p _)

-- What is collected passes the test.
collect-All :
    (test : ℕ → Bool) (max rounds key : ℕ) (keys : List ℕ)
    → All (λ j. test j ≡ true) keys
    → All (λ j. test j ≡ true) (collect test max rounds key keys)
unfolding collect
collect-All test max zero key keys a = a
collect-All test max (suc rounds) key keys a =
    if_property (All (λ j. test j ≡ true)) (test key && leb max (length keys)) tt
      (collect-All test max rounds (suc key) _ (snoc (test key) refl))
  where
    All-snoc :
        (js : List ℕ)
        → All (λ j. test j ≡ true) js
        → test key ≡ true
        → All (λ j. test j ≡ true) (js ++ (key ∷ []))
    All-snoc [] b e = (e, tt)
    All-snoc (j ∷ js) b e = (b.0, All-snoc js (b.1) e)

    snoc :
        (b : Bool)
        → test key ≡ b
        → All (λ j. test j ≡ true) (if b then keys ++ (key ∷ []) else keys)
    snoc true e = All-snoc keys a e
    snoc false e = a

module _ (xkb : Xkb) (down : ℕ → Bool) where
  keys_down-All :
      (state mask max : ℕ) → All (λ j. down j ≡ true) (keys_down xkb down state mask max)
  unfolding keys_down
  keys_down-All state mask max = weaken _ (
      collect-All (λ key. down key && sets xkb state mask key) max (all_rounds xkb) xkb.min_key_code
        [] tt)
    where
      weaken :
          (js : List ℕ)
          → All (λ j. (down j && sets xkb state mask j) ≡ true) js
          → All (λ j. down j ≡ true) js
      weaken [] a = tt
      weaken (j ∷ js) a = (first (down j) (sets xkb state mask j) (a.0), weaken js (a.1))
        where
          first : (x y : Bool) → (x && y) ≡ true → x ≡ true
          first true y e = refl
          first false y e = e

  fake-Real :
      (now needed : Bool) (key : ℕ) (js : List ℕ)
      → All (λ j. down j ≡ true) js
      → Real down (fake now needed key js)
  fake-Real false true zero js a = tt
  fake-Real false true (suc key) js a = tt
  fake-Real true false key [] a = tt
  fake-Real true false key (j ∷ js) a = a
  fake-Real false false key js a = tt
  fake-Real true true key js a = tt

  release_shift-All : (state max : ℕ) → All (λ j. down j ≡ true) (release_shift xkb down state max)
  unfolding release_shift
  release_shift-All state max =
      if_property (All (λ j. down j ≡ true)) (has state shift_mask)
        (keys_down-All state shift_mask max) tt

  release_level_three-All :
      (state max : ℕ) → All (λ j. down j ≡ true) (release_level_three xkb down state max)
  unfolding release_level_three
  release_level_three-All state max =
      if_property (All (λ j. down j ≡ true)) (level_three_mask xkb state == 0) tt (
        if_property (All (λ j. down j ≡ true)) (has state (level_three_mask xkb state))
          (keys_down-All state (level_three_mask xkb state) max) tt)

-- A key that is sent with its modifiers leaves every key as it was, down or up, other than the key
-- itself and the keys that were pressed for a modifier, where the modifiers are possible: what was
-- released for a modifier is down again.
pub send_key-restores :
    (env : Env) (keys : Keys) (keysym keycode needed k : ℕ)
    → is_impossible (fake_shift env keys.xkb needed) ≡ false
    → is_impossible (fake_level_three env keys.xkb needed) ≡ false
    → (k == keycode) ≡ false
    → is_pressed_by (fake_shift env keys.xkb needed) k ≡ false
    → is_pressed_by (fake_level_three env keys.xkb needed) k ≡ false
    → replay k
        (send_key env keys keysym keycode
          (fake_shift env keys.xkb needed)
          (fake_level_three env keys.xkb needed)).0
        (env.is_down k)
      ≡ env.is_down k
unfolding send_key
send_key-restores env keys keysym keycode needed k i j e p q =
    rw (i, j)
      (around env.is_down k keycode (fake_shift env keys.xkb needed)
        (fake_level_three env keys.xkb needed) e
        (restored env.is_down k _
          (unfold fake_shift in
            fake-Real keys.xkb env.is_down _ _ _ _
              (release_shift-All keys.xkb env.is_down env.kstate max_release))
          p)
        (restored env.is_down k _
          (unfold fake_level_three in
            fake-Real keys.xkb env.is_down _ _ _ _
              (release_level_three-All keys.xkb env.is_down env.kstate max_release))
          q))

-- Where the modifiers are possible, every key that was up before a key is sent with its modifiers,
-- other than the key itself, is up after it: also one that was pressed for a modifier.
pub send_key_keeps_up :
    (env : Env) (keys : Keys) (keysym keycode needed k : ℕ)
    → is_impossible (fake_shift env keys.xkb needed) ≡ false
    → is_impossible (fake_level_three env keys.xkb needed) ≡ false
    → (k == keycode) ≡ false
    → env.is_down k ≡ false
    → replay k
        (send_key env keys keysym keycode
          (fake_shift env keys.xkb needed)
          (fake_level_three env keys.xkb needed)).0
        (env.is_down k)
      ≡ false
unfolding send_key
send_key_keeps_up env keys keysym keycode needed k i j e d =
    rw (i, j)
      (around env.is_down k keycode (fake_shift env keys.xkb needed)
        (fake_level_three env keys.xkb needed) e
        (Restored-up env.is_down k _
          (unfold fake_shift in
            fake-Real keys.xkb env.is_down _ _ _ _
              (release_shift-All keys.xkb env.is_down env.kstate max_release))
          d)
        (Restored-up env.is_down k _
          (unfold fake_level_three in
            fake-Real keys.xkb env.is_down _ _ _ _
              (release_level_three-All keys.xkb env.is_down env.kstate max_release))
          d))
    ∙ d
