-- ===== src/Clipboard/Text/Agree.antt =====
-- The check and the decoder of clipboard.c side by side, and both beside the definition of UTF-8.
use termux_x11_virtualkeys.Base.{
  ℕ, suc, zero, ◌<◌, ◌≡◌, inl, inr, true, List, [], ◌∷◌, ◌++◌, ok, length, arith, All, Bool-cases,
  ltb,
}
use termux_x11_virtualkeys.Base.Words.{is_continuation}
use termux_x11_virtualkeys.Clipboard.Text.{check_utf8, utf8_to_ucs4}
use termux_x11_virtualkeys.Clipboard.Text.Encode.{IsScalar, encode, encode_all}
use termux_x11_virtualkeys.Clipboard.Text.Check.{
  Group, Shaped, one, two, three, four, end, group, nul, Shaped-check_utf8,
}

encode-Group : (u : ℕ) (t : List ℕ) → 0 < u → u < 0x110000 → Group (encode u ++ t) t
unfolding encode
encode-Group u t p h = elim (Bool-cases (ltb u 0x80)) [
  | inl a ↦ rw a (one (ground arith) (ground arith))
  | inr a ↦ elim (Bool-cases (ltb u 0x800)) [
    | inl k ↦ rw (a, k) (two (ground arith) (ground arith) (ground arith))
    | inr k ↦ elim (Bool-cases (ltb u 0x10000)) [
      | inl l ↦ rw (a, k, l) (three (ground arith) (ground arith) (ground arith) (ground arith))
      | inr l ↦
          rw (a, k, l)
            (four (ground arith) (ground arith) (ground arith) (ground arith) (ground arith))
    ]
  ]
]

encode_all-Shaped : (us : List ℕ) → All IsScalar us → Shaped (encode_all us)
unfolding encode_all
encode_all-Shaped [] h = end
encode_all-Shaped (zero ∷ us) h = unfold encode in nul
encode_all-Shaped (suc u ∷ us) h =
    group (encode-Group (suc u) (encode_all us) (omega arith) h.0.0) (encode_all-Shaped us h.1)

-- The check accepts the UTF-8 encoding of every sequence of scalar values.
pub check_utf8-encode_all :
    (us : List ℕ)
    → All IsScalar us
    → check_utf8 (encode_all us ++ 0 ∷ []) (length (encode_all us)) ≡ ok true
check_utf8-encode_all us h = Shaped-check_utf8 (encode_all-Shaped us h)

-- Two continuation bytes with no first byte are no character, and the decoder replaces them; but
-- the check takes them for one character, and accepts any accepted text with such a pair in front.
pub check_utf8_stray :
    (b d : ℕ) (s : List ℕ)
    → is_continuation b ≡ true
    → is_continuation d ≡ true
    → Shaped s
    → (check_utf8 ((b ∷ d ∷ s) ++ 0 ∷ []) (length (b ∷ d ∷ s)) ≡ ok true)
      × (utf8_to_ucs4 (b ∷ d ∷ 0 ∷ []) 3 ≡ ok (0xfffd, 2))
unfolding utf8_to_ucs4
check_utf8_stray b d s p q h =
    (Shaped-check_utf8 (group (two (ground arith) (ground arith) q) h), ground arith)
