-- ===== src/Clipboard/Text/Slack.antt =====
-- When `lorieCheckUTF8` of clipboard.c answers, by the memory behind the text.
use termux_x11_virtualkeys.Base.{
  ℕ, suc, zero, ◌+◌, ◌-◌, ◌≤◌, ◌<◌, Bool, List, [], ◌∷◌, Option, none, some, Run, ok, fault,
  out_of_fuel, Returns, ReturnsOr, ReturnsOr-mono, Returns-ReturnsOr, leb, length, length-drop,
  drop, arith, Bool-cases, false, ◌||◌, inl, inr, ◌==◌,
}
use termux_x11_virtualkeys.Clipboard.Text.{sequence, check_utf8_loop, check_utf8}

-- A sequence is refused, or takes one to four bytes.
abbrev Advances : Option ℕ → Type 0
Advances none = Unit
Advances (some n) = (1 ≤ n) × (n ≤ 4)

sequence-Advances : (c : ℕ) (utf : List ℕ) → 4 ≤ length utf → Returns Advances (sequence c utf)
unfolding sequence
sequence-Advances c [] h = absurd (omega arith)
sequence-Advances c (a ∷ []) h = absurd (omega arith)
sequence-Advances c (a ∷ b ∷ []) h = absurd (omega arith)
sequence-Advances c (a ∷ b ∷ d ∷ []) h = absurd (omega arith)
sequence-Advances c (a ∷ b ∷ d ∷ e ∷ utf) h = ground arith

-- What the loop may read: one byte, and four behind the bytes that are left to check.
abbrev Room : List ℕ → ℕ → Type 0
Room utf size = (1 ≤ length utf) × (0 < size → size + 4 ≤ length utf)

Advances-elim :
    (r : Run (Option ℕ)) (k : ℕ → Run Bool)
    → Returns Advances r
    → ((n : ℕ) → 1 ≤ n → n ≤ 4 → Returns (λ _. Unit {0}) (k n))
    → Returns {A = Bool}
        (λ _. Unit {0})
        (elim r [
          | ok (some n) ↦ k n
          | ok none ↦ ok false
          | fault ↦ fault
          | out_of_fuel ↦ out_of_fuel
        ])
Advances-elim (ok none) k a h = tt
Advances-elim (ok (some n)) k a h = h n a.0 a.1
Advances-elim fault k a h = a
Advances-elim out_of_fuel k a h = a

check_utf8_loop-Returns :
    (fuel : ℕ) (utf : List ℕ) (size : ℕ)
    → Room utf size
    → size < fuel
    → Returns {A = Bool} (λ _. Unit {0}) (check_utf8_loop fuel utf size)
unfolding check_utf8_loop
check_utf8_loop-Returns zero utf size h f = absurd (omega arith)
check_utf8_loop-Returns (suc fuel) [] size h f = absurd (omega arith)
check_utf8_loop-Returns (suc fuel) (c ∷ utf) size h f = elim (Bool-cases (c == 0 || size == 0)) [
  | inl stop ↦ rw (stop, check_utf8_loop) tt
  | inr more ↦
      let p : 0 < size = ground arith in
      rw (more, check_utf8_loop)
        (Advances-elim (sequence c (c ∷ utf)) _
          (sequence-Advances c (c ∷ utf) (omega (arith, h.1 p)))
          λ n lo hi.
            check_utf8_loop-Returns fuel (drop n (c ∷ utf)) (size - n)
              (
                omega (arith, h.1 p, length-drop n (c ∷ utf)),
                λ q. omega (arith, h.1 p, length-drop n (c ∷ utf)),
              )
              (omega arith))
]

-- With four readable bytes behind the text `lorieCheckUTF8` answers, whatever the bytes are.
pub check_utf8-Returns :
    (utf : List ℕ) (size : ℕ)
    → size + 4 ≤ length utf
    → Returns {A = Bool} (λ _. Unit {0}) (check_utf8 utf size)
unfolding check_utf8
check_utf8-Returns utf size h =
    check_utf8_loop-Returns (size + 1) utf size (omega arith, λ p. h) (omega arith)

-- Whatever stands in memory, a sequence is looked at without a loop.
sequence-ends : (c : ℕ) (utf : List ℕ) → ReturnsOr (Unit {0}) Advances (sequence c utf)
unfolding sequence
sequence-ends c [] = ground arith
sequence-ends c (a ∷ []) = ground arith
sequence-ends c (a ∷ b ∷ []) = ground arith
sequence-ends c (a ∷ b ∷ d ∷ []) = ground arith
sequence-ends c (a ∷ b ∷ d ∷ e ∷ utf) = ground arith

Advances-ends :
    (r : Run (Option ℕ)) (k : ℕ → Run Bool)
    → ReturnsOr (Unit {0}) Advances r
    → ((n : ℕ) → 1 ≤ n → n ≤ 4 → ReturnsOr (Unit {0}) (λ _. Unit {0}) (k n))
    → ReturnsOr {A = Bool}
        (Unit {0})
        (λ _. Unit {0})
        (elim r [
          | ok (some n) ↦ k n
          | ok none ↦ ok false
          | fault ↦ fault
          | out_of_fuel ↦ out_of_fuel
        ])
Advances-ends (ok none) k a h = tt
Advances-ends (ok (some n)) k a h = h n a.0 a.1
Advances-ends fault k a h = tt
Advances-ends out_of_fuel k a h = a

check_utf8_loop-ends :
    (fuel : ℕ) (utf : List ℕ) (size : ℕ)
    → size < fuel
    → ReturnsOr {A = Bool} (Unit {0}) (λ _. Unit {0}) (check_utf8_loop fuel utf size)
unfolding check_utf8_loop
check_utf8_loop-ends zero utf size f = absurd (omega arith)
check_utf8_loop-ends (suc fuel) [] size f = tt
check_utf8_loop-ends (suc fuel) (c ∷ utf) size f = elim (Bool-cases (c == 0 || size == 0)) [
  | inl stop ↦ rw (stop, check_utf8_loop) tt
  | inr more ↦
      let p : 0 < size = ground arith in
      rw (more, check_utf8_loop)
        (Advances-ends (sequence c (c ∷ utf)) _ (sequence-ends c (c ∷ utf))
          λ n lo hi. check_utf8_loop-ends fuel (drop n (c ∷ utf)) (size - n) (omega arith))
]

-- `lorieCheckUTF8` answers, or it faults, and then memory has fewer than four bytes behind the text.
pub check_utf8-ReturnsOr :
    (utf : List ℕ) (size : ℕ)
    → ReturnsOr {A = Bool} (length utf < size + 4) (λ _. Unit {0}) (check_utf8 utf size)
unfolding check_utf8
check_utf8-ReturnsOr utf size = elim (Bool-cases (leb (size + 4) (length utf))) [
  | inl room ↦
      Returns-ReturnsOr (length utf < size + 4) (λ _. Unit {0}) (check_utf8 utf size)
        (check_utf8-Returns utf size (ground arith))
  | inr short ↦
      ReturnsOr-mono (Unit {0}) (length utf < size + 4) (λ _. Unit {0}) (λ _. Unit {0})
        (check_utf8 utf size) (check_utf8_loop-ends (size + 1) utf size (omega arith))
        (λ _. ground arith) (λ _ u. u)
]
