-- ===== src/Wire/Typed.antt =====
-- The messages of `sendTextEvent` of activity.c for a text in UTF-8.
use termux_x11_virtualkeys.Clipboard.Text.Encode.{
  IsScalar, encode, encode_all, length-encode_bounds,
}
use termux_x11_virtualkeys.Wire.{unicode}
use termux_x11_virtualkeys.Wire.Framing.{Message}
use termux_x11_virtualkeys.Wire.Activity.{
  messages, send_text_event, Locale, alone, text_loop, text_messages,
}
use termux_x11_virtualkeys.Base.{
  append-nil, ℕ, zero, suc, ◌+◌, ◌≤◌, ◌<◌, ◌==◌, ltb, leb, true, false, some, List, [], ◌∷◌, ◌++◌,
  if◌then◌else◌, length, ok, ◌>>=◌, ◌≡◌, refl, ◌∙◌, subst, arith, Bool-cases, inl, inr,
  length-append, drop-length_append, append_assoc, All,
}

-- What `mbrtowc` does in a UTF-8 locale: on the encoding of a character that is not NUL, it gives the
-- character and the length of the encoding.
abbrev pub DecodesUtf8 : Locale → Type 0
DecodesUtf8 l =
    (u : ℕ) (rest : List ℕ)
    → IsScalar u
    → 0 < u
    → l.mbrtowc (encode u ++ rest) ≡ some (u, length (encode u))

-- An encoding has a first byte, which is not 0.
encode_cons : (u : ℕ) → 0 < u → (b : ℕ) × (bs : List ℕ) × (encode u ≡ b ∷ bs) × ((b == 0) ≡ false)
unfolding encode
encode_cons u h = elim (Bool-cases (ltb u 0x80)) [
  | inl y ↦ rw y (u, [], refl, ground (arith, h))
  | inr y ↦ rw y (elim (Bool-cases (ltb u 0x800)) [
    | inl z ↦ rw z (_, _, refl, ground arith)
    | inr z ↦ rw z (elim (Bool-cases (ltb u 0x10000)) [
      | inl w ↦ rw w (_, _, refl, ground arith)
      | inr w ↦ rw w (_, _, refl, ground arith)
    ])
  ])
]

suc_nonzero : (n : ℕ) → (suc n == 0) ≡ false
suc_nonzero n = ground arith

leb-true : (a b : ℕ) → a ≤ b → leb a b ≡ true
leb-true a b h = ground (arith, h)

leb-false : (a b : ℕ) → b < a → leb a b ≡ false
leb-false a b h = ground (arith, h)

-- The events of the characters of a text.
unfoldable pub unicode_messages : {N : Type 0} → List ℕ → List (Message ℕ N)
unicode_messages [] = []
unicode_messages (u ∷ us) = alone (unicode u) ∷ unicode_messages us

length-encode_all : (us : List ℕ) → length us ≤ length (encode_all us)
unfolding encode_all
length-encode_all [] = omega arith
length-encode_all (u ∷ us) = omega (
  arith,
  length-encode_all us,
  length-append (encode u) (encode_all us),
  (length-encode_bounds u).0,
)

module _ {N : Type 0} (l : Locale) (law : DecodesUtf8 l) where
  -- A round of the loop on a character.
  text_loop_step :
      (fuel size offset u : ℕ) (rest : List ℕ)
      → IsScalar u
      → 0 < u
      → text_loop {N = N} l (suc fuel) size offset (encode u ++ rest) ≡ (
          if leb size (offset + length (encode u))
          then ok (alone (unicode u) ∷ [])
          else (text_loop l fuel size (offset + length (encode u)) rest
              >>= (λ ms. ok (alone (unicode u) ∷ ms))))
  unfolding text_loop
  text_loop_step fuel size offset u rest s h =
      let (b, bs, e, z) = encode_cons u h in
      let decoded = subst (λ t. l.mbrtowc (t ++ rest) ≡ some (u, length t)) e (law u rest s h) in
      rw (e, z, decoded, drop-length_append (b ∷ bs) rest) (rw (suc_nonzero (length bs)) refl)

  -- The loop from a character on.
  text_loop-encode_all :
      (fuel size offset u : ℕ) (us behind : List ℕ)
      → All (λ u. IsScalar u × (0 < u)) (u ∷ us)
      → length us < fuel
      → size ≡ offset + length (encode_all (u ∷ us))
      → text_loop {N = N} l fuel size offset (encode_all (u ∷ us) ++ behind)
        ≡ ok (unicode_messages (u ∷ us))
  unfolding encode_all unicode_messages
  text_loop-encode_all zero size offset u us behind a h e = absurd (omega (arith, h))
  text_loop-encode_all (suc fuel) size offset u [] behind ((s, p), a) h e =
      rw
        (
          append-nil (encode u),
          text_loop_step fuel size offset u behind s p,
          leb-true size (offset + length (encode u))
              (omega (arith, e, length-append (encode u) [])),
        )
        refl
  text_loop-encode_all (suc fuel) size offset u (v ∷ vs) behind ((s, p), a) h e =
      rw
        (
          append_assoc (encode u) (encode v ++ encode_all vs) behind,
          text_loop_step fuel size offset u ((encode v ++ encode_all vs) ++ behind) s p,
          leb-false size (offset + length (encode u)) (
              omega (
                arith,
                e,
                length-append (encode u) (encode v ++ encode_all vs),
                length-append (encode v) (encode_all vs),
                (length-encode_bounds v).0,
              )),
          text_loop-encode_all fuel size (offset + length (encode u)) v vs behind a
              (omega (arith, h))
              (omega (arith, e, length-append (encode u) (encode v ++ encode_all vs))),
        )
        refl

  text_messages_nonempty :
      (text behind : List ℕ)
      → 0 < length text
      → text_messages {N = N} l text behind
        ≡ text_loop l (length text) (length text) 0 (text ++ behind)
  unfolding text_messages
  text_messages_nonempty [] behind h = absurd (omega (arith, h))
  text_messages_nonempty (b ∷ text) behind h = refl

  text_messages_empty :
      (behind : List ℕ) → text_messages {N = N} l (encode_all []) behind ≡ ok (unicode_messages [])
  unfolding text_messages encode_all unicode_messages
  text_messages_empty behind = refl

  -- Of the UTF-8 of a text without NUL `sendTextEvent` sends each character as one event, in order,
  -- and stops at the end of the text, whatever is in memory behind it, where `mbrtowc` decodes UTF-8.
  pub text_messages-encode_all :
      (us behind : List ℕ)
      → All (λ u. IsScalar u × (0 < u)) us
      → messages {N = N} l (send_text_event (some (encode_all us)) behind)
        ≡ ok (unicode_messages us)
  unfolding messages
  text_messages-encode_all [] behind a = text_messages_empty behind
  text_messages-encode_all (u ∷ us) behind a =
      let long = length-encode_all (u ∷ us) in
      text_messages_nonempty (encode_all (u ∷ us)) behind (omega (arith, long))
      ∙ text_loop-encode_all (length (encode_all (u ∷ us))) (length (encode_all (u ∷ us))) 0 u us
          behind a (omega (arith, long)) (omega arith)
