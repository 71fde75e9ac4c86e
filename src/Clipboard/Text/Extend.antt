-- ===== src/Clipboard/Text/Extend.antt =====
-- `lorieCheckUTF8` of clipboard.c on the same text with more memory behind it.
use termux_x11_virtualkeys.Base.{
  ℕ, suc, zero, ◌+◌, ◌-◌, ◌≤◌, Bool, Bool-cases, false, ◌||◌, inl, inr, ◌==◌, List, [], ◌∷◌, ◌++◌,
  Option, none, some, Run, ok, fault, out_of_fuel, ◌≡◌, length, drop, arith, refl,
}
use termux_x11_virtualkeys.Clipboard.Text.{sequence, check_utf8_loop, check_utf8}

sequence-extends :
    (c : ℕ) (utf m : List ℕ) (r : Option ℕ) → sequence c utf ≡ ok r → sequence c (utf ++ m) ≡ ok r
unfolding sequence
sequence-extends c [] m r e = ground arith
sequence-extends c (a ∷ []) m r e = ground arith
sequence-extends c (a ∷ b ∷ []) m r e = ground arith
sequence-extends c (a ∷ b ∷ d ∷ []) m r e = ground arith
sequence-extends c (a ∷ b ∷ d ∷ x ∷ utf) m r e = ground (arith, e)

sequence-le :
    (c d : ℕ) (utf : List ℕ) (n : ℕ) → sequence c (d ∷ utf) ≡ ok (some n) → n ≤ length (d ∷ utf)
unfolding sequence
sequence-le c d [] n e = ground arith
sequence-le c d (a ∷ []) n e = ground arith
sequence-le c d (a ∷ b ∷ []) n e = ground arith
sequence-le c d (a ∷ b ∷ x ∷ utf) n e = ground arith

drop-append : (n : ℕ) (s m : List ℕ) → n ≤ length s → drop n (s ++ m) ≡ drop n s ++ m
drop-append zero s m h = refl
drop-append (suc n) [] m h = absurd (omega arith)
drop-append (suc n) (c ∷ s) m h = drop-append n s m (omega arith)

check_utf8_loop-extends :
    (fuel : ℕ) (utf m : List ℕ) (size : ℕ) (answer : Bool)
    → check_utf8_loop fuel utf size ≡ ok answer
    → check_utf8_loop fuel (utf ++ m) size ≡ ok answer
unfolding check_utf8_loop
check_utf8_loop-extends zero utf m size answer e = cc
check_utf8_loop-extends (suc fuel) [] m size answer e = cc
check_utf8_loop-extends (suc fuel) (c ∷ utf) m size answer e =
    elim (Bool-cases (c == 0 || size == 0)) [
      | inl stop ↦ rw (stop, check_utf8_loop) (rw (stop, check_utf8_loop) at e)
      | inr more ↦
          rw (more, check_utf8_loop)
            (go (λ n. check_utf8_loop-extends fuel (drop n (c ∷ utf)) m (size - n) answer)
              (sequence c (c ∷ utf)) refl (rw (more, check_utf8_loop) at e))
    ]
  where
    step : Run (Option ℕ) → List ℕ → Run Bool
    step r l = elim r [
      | ok (some n) ↦ check_utf8_loop fuel (drop n l) (size - n)
      | ok none ↦ ok false
      | fault ↦ fault
      | out_of_fuel ↦ out_of_fuel
    ]

    go :
        ((n : ℕ)
          → check_utf8_loop fuel (drop n (c ∷ utf)) (size - n) ≡ ok answer
          → check_utf8_loop fuel (drop n (c ∷ utf) ++ m) (size - n) ≡ ok answer)
        → (r : Run (Option ℕ)) → sequence c (c ∷ utf) ≡ r
        → step r (c ∷ utf) ≡ ok answer
        → step (sequence c ((c ∷ utf) ++ m)) ((c ∷ utf) ++ m) ≡ ok answer
    go ih (ok none) s a = rw (sequence-extends c (c ∷ utf) m none s) a
    go ih (ok (some n)) s a =
        rw
          (
            sequence-extends c (c ∷ utf) m (some n) s,
            drop-append n (c ∷ utf) m (sequence-le c c utf n s),
          )
          (ih n a)
    go ih fault s a = cc
    go ih out_of_fuel s a = cc

-- An answer of `lorieCheckUTF8` stays the same with more memory behind what it was given.
pub check_utf8-extends :
    (utf m : List ℕ) (size : ℕ) (answer : Bool)
    → check_utf8 utf size ≡ ok answer
    → check_utf8 (utf ++ m) size ≡ ok answer
unfolding check_utf8
check_utf8-extends utf m size answer e = check_utf8_loop-extends (size + 1) utf m size answer e
