-- ===== src/Screen/Configure.antt =====
-- `lorieConfigureNotify` of InitOutput.c: the size, the frame rate and the name that the activity asks
-- for. The mode that libxcvt makes of a size, and what the change of the screen's size does, are
-- parameters.
use termux_x11_virtualkeys.Clipboard.Text.{c_string}
use termux_x11_virtualkeys.Base.{
  ℕ, zero, suc, ◌/◌, ◌<◌, ◌==◌, not, ltb, ◌&&◌, ◌||◌, Bool, true, false, Option, none, some, List,
  [], ◌∷◌, if◌then◌else◌, take, ◌≡◌, refl, arith, if_property,
}

-- What the function reads and writes: the screen, `pvfb->root`, and the first output, if there is one.
-- `modes` counts the modes that were set.
pub record Root : Type 0 where
  pub screen_width : ℕ
  pub screen_height : ℕ
  pub framerate : ℕ
  pub vblank_interval : ℕ
  pub name : List ℕ
  pub output_name : Option (List ℕ)
  pub modes : ℕ

-- So many zeros behind a list.
abbrev pub zero_filled : ℕ → List ℕ → List ℕ
zero_filled zero xs = []
zero_filled (suc n) [] = 0 ∷ zero_filled n []
zero_filled (suc n) (x ∷ xs) = x ∷ zero_filled n xs

-- `strncpy` of at most so many bytes to an array of 1024 zeros.
unfoldable pub copied_name : ℕ → List ℕ → List ℕ
copied_name n name = zero_filled 1024 (take (if ltb n 1024 then n else 1024) (c_string name))

-- The array with a NUL as its last byte.
abbrev pub nul_terminated : List ℕ → List ℕ
nul_terminated name = zero_filled 1024 (take 1023 name)

abbrev pub is_some : Option (List ℕ) → Bool
is_some none = false
is_some (some a) = true

-- The name that is kept, and that of the output.
unfoldable pub take_name : ℕ → Option (List ℕ) → Root → Root
take_name name_size none r = r
take_name name_size (some name) r =
    if is_some r.output_name
    then record r {
      name = copied_name name_size name;
      output_name = some (nul_terminated (copied_name name_size name));
    }
    else r

abbrev pub differs : (width height framerate : ℕ) → Root → Bool
differs width height framerate r =
    not (r.screen_width == width)
    || (not (r.screen_height == height) || not (r.framerate == framerate))

module _ (mode_for : (width height framerate : ℕ) → ℕ × ℕ) where
  -- The mode is made and set, and with it the size of the screen.
  unfoldable pub set_mode : (width height framerate : ℕ) → Root → Root
  set_mode width height framerate r = record r {
    screen_width = (mode_for width height framerate).0;
    screen_height = (mode_for width height framerate).1;
    framerate = framerate;
    vblank_interval = 1000000 / framerate;
    modes = suc r.modes;
  }

  abbrev pub rate_or_default : ℕ → ℕ
  rate_or_default framerate = if framerate == 0 then 30 else framerate

  -- `lorieConfigureNotify`.
  unfoldable pub configure_notify :
      (width height framerate name_size : ℕ) → Option (List ℕ) → Root → Root
  unfolding take_name set_mode
  configure_notify width height framerate name_size name r =
      let rate = rate_or_default framerate in
      let r' = take_name name_size name r in
      if is_some r'.output_name
        && (not (width == 0) && (not (height == 0) && differs width height rate r'))
      then set_mode width height rate r'
      else r'

  -- The time between frames is that of the frame rate, which is not 0.
  abbrev pub IsTimed : Root → Type 0
  IsTimed r = (0 < r.framerate) × (r.vblank_interval ≡ 1000000 / r.framerate)

  take_name-IsTimed :
      (name_size : ℕ) (name : Option (List ℕ)) (r : Root)
      → IsTimed r
      → IsTimed (take_name name_size name r)
  unfolding take_name
  take_name-IsTimed name_size none r h = h
  take_name-IsTimed name_size (some name) r h = if_property IsTimed (is_some r.output_name) h h

  rate_positive : (framerate : ℕ) → 0 < rate_or_default framerate
  rate_positive framerate = ground arith

  -- Whatever is asked for, a screen that was timed by its frame rate stays so: the division by the
  -- frame rate never is one by 0.
  pub configure_notify-IsTimed :
      (width height framerate name_size : ℕ) (name : Option (List ℕ)) (r : Root)
      → IsTimed r
      → IsTimed (configure_notify width height framerate name_size name r)
  unfolding configure_notify set_mode
  configure_notify-IsTimed width height framerate name_size name r h =
      let r' = take_name name_size name r in
      if_property IsTimed
        (is_some r'.output_name
          && (not (width == 0)
              && (not (height == 0) && differs width height (rate_or_default framerate) r')))
        (rate_positive framerate, refl) (take_name-IsTimed name_size name r h)
