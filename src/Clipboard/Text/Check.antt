-- ===== src/Clipboard/Text/Check.antt =====
-- What `lorieCheckUTF8` accepts.
use termux_x11_virtualkeys.Base.{
  ℕ, suc, zero, ◌+◌, ◌≤◌, ◌<◌, ◌≡◌, ◌↔◌, ◌⊎◌, inl, inr, ◌≢◌, ◌&&◌, ◌∙◌, refl, Bool, true, false,
  List, [], ◌∷◌, ◌++◌, Run, ok, fault, length, arith, All, Bool-cases, ltb, leb,
}
use termux_x11_virtualkeys.Base.Words.{is_continuation}
use termux_x11_virtualkeys.Clipboard.Text.{check_utf8_loop, check_utf8}

-- One group of bytes and the text after it: a first byte, and as many continuation bytes as the
-- code asks for.
pub data Group : List ℕ → List ℕ → Type 0 where
  one : {c : ℕ} {t : List ℕ} → c ≢ 0 → c < 0x80 → Group (c ∷ t) t
  two :
      {c d : ℕ} {t : List ℕ} → 0x80 ≤ c → c < 0xe0 → is_continuation d ≡ true → Group (c ∷ d ∷ t) t
  three :
      {c d e : ℕ} {t : List ℕ}
      → 0xe0 ≤ c
      → c < 0xf0
      → is_continuation d ≡ true
      → is_continuation e ≡ true
      → Group (c ∷ d ∷ e ∷ t) t
  four :
      {c d e f : ℕ} {t : List ℕ}
      → 0xf0 ≤ c
      → c < 0xf8
      → is_continuation d ≡ true
      → is_continuation e ≡ true
      → is_continuation f ≡ true
      → Group (c ∷ d ∷ e ∷ f ∷ t) t

-- A text of such groups, up to its end or to a NUL inside it.
pub data Shaped : List ℕ → Type 0 where
  end : Shaped []
  nul : {s : List ℕ} → Shaped (0 ∷ s)
  group : {s t : List ℕ} → Group s t → Shaped t → Shaped s

length-Group : {s t : List ℕ} → Group s t → length t < length s
length-Group (one h k) = omega arith
length-Group (two h k p) = omega arith
length-Group (three h k p q) = omega arith
length-Group (four h k p q r) = omega arith

-- The loop steps over a group.
check_utf8_loop-Group :
    {s t : List ℕ} (fuel : ℕ) (m : List ℕ)
    → Group s t
    → check_utf8_loop (suc fuel) (s ++ m) (length s) ≡ check_utf8_loop fuel (t ++ m) (length t)
unfolding check_utf8_loop
check_utf8_loop-Group fuel m (one {t} h k) = ground arith
check_utf8_loop-Group fuel m (two h k p) = ground arith
check_utf8_loop-Group fuel m (three h k p q) = ground arith
check_utf8_loop-Group fuel m (four h k p q r) = ground arith

abbrev terminated : List ℕ → List ℕ
terminated s = s ++ 0 ∷ []

abbrev Refused : List ℕ → Type 0
Refused s = (fuel : ℕ) → check_utf8_loop (suc fuel) (terminated s) (length s) ≡ ok false

-- The text starts with a group, or the check stops here and refuses.
abbrev Split : List ℕ → Type 0
Split s = ((t : List ℕ) × Group s t) ⊎ Refused s

module _ (c : ℕ) (b : c < 256) where
  fourth_byte :
      (d e : ℕ) (s : List ℕ)
      → 0xf0 ≤ c
      → is_continuation d ≡ true
      → is_continuation e ≡ true
      → Split (c ∷ d ∷ e ∷ s)
  unfolding check_utf8_loop
  fourth_byte d e [] h p q = inr (λ fuel. ground arith)
  fourth_byte d e (f ∷ s) h p q = elim (Bool-cases (ltb c 0xf8 && is_continuation f)) [
    | inl r ↦ inl (s, four h (ground arith) p q (ground arith))
    | inr r ↦ inr (λ fuel. ground arith)
  ]

  third_byte : (d : ℕ) (s : List ℕ) → 0xe0 ≤ c → is_continuation d ≡ true → Split (c ∷ d ∷ s)
  unfolding check_utf8_loop
  third_byte d [] h p = inr (λ fuel. ground arith)
  third_byte d (e ∷ s) h p = elim (Bool-cases (is_continuation e)) [
    | inr q ↦ inr (λ fuel. ground arith)
    | inl q ↦ elim (Bool-cases (leb 0xf0 c)) [
      | inl k ↦ fourth_byte d e s (ground arith) p q
      | inr k ↦ inl (s, three h (ground arith) p q)
    ]
  ]

  second_byte : (s : List ℕ) → 0x80 ≤ c → Split (c ∷ s)
  unfolding check_utf8_loop
  second_byte [] h = inr (λ fuel. ground arith)
  second_byte (d ∷ s) h = elim (Bool-cases (is_continuation d)) [
    | inr p ↦ inr (λ fuel. ground arith)
    | inl p ↦ elim (Bool-cases (leb 0xe0 c)) [
      | inl k ↦ third_byte d s (ground arith) p
      | inr k ↦ inl (s, two h (ground arith) p)
    ]
  ]

  first_byte : (s : List ℕ) → c ≢ 0 → Split (c ∷ s)
  first_byte s h = elim (Bool-cases (ltb c 0x80)) [
    | inl p ↦ inl (s, one h (ground arith))
    | inr p ↦ second_byte s (ground arith)
  ]

-- The loop ends with an answer, and says yes only to a shaped text.
abbrev Answered : List ℕ → Run Bool → Type 0
Answered s r = (Shaped s × (r ≡ ok true)) ⊎ (r ≡ ok false)

Answered-Group : {s t : List ℕ} {r : Run Bool} → Group s t → Answered t r → Answered s r
Answered-Group g (inl (h, e)) = inl (group g h, e)
Answered-Group g (inr e) = inr e

All-Group : {s t : List ℕ} → Group s t → All (λ c. c < 256) s → All (λ c. c < 256) t
All-Group (one h k) b = b.1
All-Group (two h k p) b = b.1.1
All-Group (three h k p q) b = b.1.1.1
All-Group (four h k p q r) b = b.1.1.1.1

check_utf8_loop-Answered :
    (fuel : ℕ) (s : List ℕ)
    → All (λ c. c < 256) s
    → length s < fuel
    → Answered s (check_utf8_loop fuel (terminated s) (length s))
check_utf8_loop-Answered zero s b h = absurd (omega arith)
check_utf8_loop-Answered (suc fuel) [] b h = unfold check_utf8_loop in inl (end, refl)
check_utf8_loop-Answered (suc fuel) (zero ∷ s) b h = unfold check_utf8_loop in inl (nul, refl)
check_utf8_loop-Answered (suc fuel) (suc c ∷ s) b h =
    elim (first_byte (suc c) b.0 s (ground arith)) [
      | inr refused ↦ inr (refused fuel)
      | inl (t, g) ↦ rw (check_utf8_loop-Group fuel (0 ∷ []) g) (
          Answered-Group g
            (check_utf8_loop-Answered fuel t (All-Group g b) (omega (arith, length-Group g))))
    ]

Shaped-check_utf8_loop :
    {s : List ℕ} (fuel : ℕ) (m : List ℕ)
    → length s < fuel
    → Shaped s
    → check_utf8_loop fuel (s ++ 0 ∷ m) (length s) ≡ ok true
unfolding check_utf8_loop
Shaped-check_utf8_loop zero m h g = absurd (omega arith)
Shaped-check_utf8_loop (suc fuel) m h end = refl
Shaped-check_utf8_loop (suc fuel) m h nul = refl
Shaped-check_utf8_loop (suc fuel) m h (group g rest) =
    check_utf8_loop-Group fuel (0 ∷ m) g
    ∙ Shaped-check_utf8_loop fuel m (omega (arith, length-Group g)) rest

Answered-total : {s : List ℕ} {r : Run Bool} → Answered s r → (answer : Bool) × (r ≡ ok answer)
Answered-total (inl (h, e)) = (true, e)
Answered-total (inr e) = (false, e)

Answered-Shaped : {s : List ℕ} {r : Run Bool} → Answered s r → r ≡ ok true → Shaped s
Answered-Shaped (inl (h, e)) answer = h
Answered-Shaped (inr e) answer = cc

pub Shaped-check_utf8 : {s : List ℕ} → Shaped s → check_utf8 (s ++ 0 ∷ []) (length s) ≡ ok true
unfolding check_utf8
Shaped-check_utf8 {s} = Shaped-check_utf8_loop (length s + 1) [] (omega arith)

-- On a buffer that ends in a NUL behind the checked bytes, `lorieCheckUTF8` answers and reads
-- nothing past the NUL; and it says yes exactly to the texts that are groups of a first byte and
-- its continuation bytes, up to the end or to a NUL inside.
pub check_utf8-Shaped :
    (s : List ℕ)
    → All (λ c. c < 256) s
    → ((answer : Bool) × (check_utf8 (s ++ 0 ∷ []) (length s) ≡ ok answer))
      × ((check_utf8 (s ++ 0 ∷ []) (length s) ≡ ok true) ↔ Shaped s)
unfolding check_utf8
check_utf8-Shaped s b =
    let answered = check_utf8_loop-Answered (length s + 1) s b (omega arith) in
    (Answered-total answered, (Answered-Shaped answered, Shaped-check_utf8))

check_utf8_loop_overread :
    (fuel : ℕ) (s : List ℕ)
    → All (λ c. (0 < c) × (c < 0x80)) s
    → length s < fuel
    → check_utf8_loop fuel s (length s) ≡ fault
unfolding check_utf8_loop
check_utf8_loop_overread zero s b h = absurd (omega arith)
check_utf8_loop_overread (suc fuel) [] b h = refl
check_utf8_loop_overread (suc fuel) (c ∷ s) b h =
    ground (arith, check_utf8_loop_overread fuel s b.1)

-- On a buffer of exactly `size` bytes that holds plain ASCII with no NUL, `lorieCheckUTF8` reads
-- the byte behind the buffer.
pub check_utf8_overread :
    (s : List ℕ) → All (λ c. (0 < c) × (c < 0x80)) s → check_utf8 s (length s) ≡ fault
unfolding check_utf8
check_utf8_overread s b = check_utf8_loop_overread (length s + 1) s b (omega arith)
