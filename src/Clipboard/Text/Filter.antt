-- ===== src/Clipboard/Text/Filter.antt =====
-- Filtered text: what stays of its shape, and how much room the conversions take.
use termux_x11_virtualkeys.Base.{
  ℕ, ◌+◌, ◌*◌, ◌≤◌, ◌<◌, ◌≡◌, ◌≢◌, inl, inr, refl, List, [], ◌∷◌, ◌==◌, All, length, arith,
  Bool-cases, if◌then◌else◌, ltb, subst,
}
use termux_x11_virtualkeys.Clipboard.Text.{c_string, convert_lf, latin1_to_utf8}
use termux_x11_virtualkeys.Clipboard.Text.Check.{
  Group, Shaped, one, two, three, four, end, nul, group,
}

-- Both filters at once: the text up to a NUL, without its carriage returns.
pub filtered : List ℕ → List ℕ
filtered [] = []
filtered (c ∷ s) =
    let rest = filtered s in if c == 0 then [] else if c == 13 then rest else c ∷ rest

pub c_string-convert_lf : (s : List ℕ) → c_string (convert_lf s) ≡ filtered s
unfolding c_string convert_lf filtered
c_string-convert_lf [] = refl
c_string-convert_lf (c ∷ s) = ground (arith, c_string-convert_lf s)

filtered-Group : {s t : List ℕ} → Group s t → Shaped (filtered t) → Shaped (filtered s)
unfolding filtered
filtered-Group (one {c} {t} ne h) g = elim (Bool-cases (c == 13)) [
  | inl cr ↦ subst Shaped (ground arith) g
  | inr other ↦ subst Shaped {x = c ∷ filtered t} (ground arith) (group (one ne h) g)
]
filtered-Group (two {c} {d} {t} h k p) g =
    subst Shaped {x = c ∷ d ∷ filtered t} (ground arith) (group (two h k p) g)
filtered-Group (three {c} {d} {e} {t} h k p q) g =
    subst Shaped {x = c ∷ d ∷ e ∷ filtered t} (ground arith) (group (three h k p q) g)
filtered-Group (four {c} {d} {e} {f} {t} h k p q r) g =
    subst Shaped {x = c ∷ d ∷ e ∷ f ∷ filtered t} (ground arith) (group (four h k p q r) g)

pub filtered-Shaped : {s : List ℕ} → Shaped s → Shaped (filtered s)
unfolding filtered
filtered-Shaped end = end
filtered-Shaped nul = end
filtered-Shaped (group g h) = filtered-Group g (filtered-Shaped h)

-- Neither a NUL nor a carriage return.
abbrev pub IsPlain : ℕ → Type 0
IsPlain c = (c ≢ 0) × (c ≢ 13)

pub filtered-IsPlain : (s : List ℕ) → All IsPlain (filtered s)
unfolding filtered
filtered-IsPlain [] = tt
filtered-IsPlain (c ∷ s) = ground (arith, filtered-IsPlain s)

pub latin1_to_utf8-convert_lf :
    (s : List ℕ) → latin1_to_utf8 (convert_lf s) ≡ latin1_to_utf8 (filtered s)
unfolding latin1_to_utf8 convert_lf filtered
latin1_to_utf8-convert_lf [] = refl
latin1_to_utf8-convert_lf (c ∷ s) = ground (arith, latin1_to_utf8-convert_lf s)

pub latin1_to_utf8-Shaped : (s : List ℕ) → All (λ c. c < 256) s → Shaped (latin1_to_utf8 s)
unfolding latin1_to_utf8
latin1_to_utf8-Shaped [] h = end
latin1_to_utf8-Shaped (c ∷ s) h = elim (Bool-cases (c == 0)) [
  | inl z ↦ rw z end
  | inr nz ↦ elim (Bool-cases (ltb c 128)) [
    | inl l ↦ rw (nz, l) (group (one (ground arith) (ground arith)) (latin1_to_utf8-Shaped s h.1))
    | inr l ↦
        rw (nz, l)
          (group (two (ground arith) (ground arith) (ground arith)) (latin1_to_utf8-Shaped s h.1))
  ]
]

pub latin1_to_utf8-IsPlain : (s : List ℕ) → All IsPlain s → All IsPlain (latin1_to_utf8 s)
unfolding latin1_to_utf8
latin1_to_utf8-IsPlain [] h = tt
latin1_to_utf8-IsPlain (c ∷ s) h = ground (arith, latin1_to_utf8-IsPlain s h.1)

length-convert_lf-le : (s : List ℕ) → length (convert_lf s) ≤ length s
unfolding convert_lf
length-convert_lf-le [] = omega arith
length-convert_lf-le (c ∷ s) = ground (arith, length-convert_lf-le s)

length-latin1_to_utf8-le : (s : List ℕ) → length (latin1_to_utf8 s) ≤ 2 * length s
unfolding latin1_to_utf8
length-latin1_to_utf8-le [] = omega arith
length-latin1_to_utf8-le (c ∷ s) = ground (arith, length-latin1_to_utf8-le s)

-- Of a property of `n` bytes the filtered text fits its buffer of `n + 1` bytes, and its UTF-8 the
-- buffer of `2 * (n + 1)`, each with a NUL left at the end.
pub conversion_buffers :
    (s : List ℕ)
    → (length (convert_lf s) < length s + 1)
      × (length (latin1_to_utf8 (convert_lf s)) < (length s + 1) * 2)
conversion_buffers s = (
  omega (arith, length-convert_lf-le s),
  omega (arith, length-convert_lf-le s, length-latin1_to_utf8-le (convert_lf s)),
)

pub filtered-bytes : (s : List ℕ) → All (λ c. c < 256) s → All (λ c. c < 256) (filtered s)
unfolding filtered
filtered-bytes [] h = tt
filtered-bytes (c ∷ s) h = ground (arith, filtered-bytes s h.1)
