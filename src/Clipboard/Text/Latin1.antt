-- ===== src/Clipboard/Text/Latin1.antt =====
-- `lorieUtf8ToLatin1` and `lorieLatin1ToUTF8`.
use termux_x11_virtualkeys.Base.{
  ℕ, suc, zero, ◌+◌, ◌*◌, ◌-◌, ◌^◌, ◌≤◌, ◌<◌, ◌≡◌, inl, inr, ◌≢◌, ap, ◌∙◌, refl, List, [], ◌∷◌,
  ◌++◌, map, ok, fault, length, length-append, drop-length_append, arith, All, Bool-cases, ltb,
  ◌>>=◌,
}
use mathlib.Core.List.{append_assoc}
use termux_x11_virtualkeys.Clipboard.Text.{
  utf8_to_ucs4, count_loop, write_loop, utf8_to_latin1, latin1_byte, latin1_to_utf8, c_string,
}
use termux_x11_virtualkeys.Clipboard.Text.Encode.{
  IsScalar, encode, encode_all, length-encode_bounds,
}
use termux_x11_virtualkeys.Clipboard.Text.Decode.{utf8_to_ucs4-encode}

-- A scalar value other than NUL.
abbrev pub IsText : ℕ → Type 0
IsText u = (0 < u) × IsScalar u

abbrev StartsNonZero : List ℕ → Type 0
StartsNonZero [] = ⊥
StartsNonZero (b ∷ _) = b ≢ 0

encode-StartsNonZero : (u : ℕ) → 0 < u → StartsNonZero (encode u)
unfolding encode
encode-StartsNonZero u h = elim (Bool-cases (ltb u 0x80)) [
  | inl p ↦ rw p (omega arith)
  | inr p ↦ elim (Bool-cases (ltb u 0x800)) [
    | inl k ↦ rw (p, k) (omega arith)
    | inr k ↦ elim (Bool-cases (ltb u 0x10000)) [
      | inl l ↦ rw (p, k, l) (omega arith)
      | inr l ↦ rw (p, k, l) (omega arith)
    ]
  ]
]

-- One round of either pass over the bytes `s` of a character `u`.
count_round :
    (u : ℕ) (s m : List ℕ) (in_len fuel sz : ℕ)
    → StartsNonZero s
    → in_len < 2 ^ 64
    → length s ≤ in_len
    → utf8_to_ucs4 (s ++ m) in_len ≡ ok (u, length s)
    → count_loop (suc fuel) (s ++ m) in_len sz ≡ count_loop fuel m (in_len - length s) (sz + 1)
unfolding count_loop
count_round u [] m in_len fuel sz ne big fits char = absurd ne
count_round u (b ∷ t) m in_len fuel sz ne big fits char = ground (arith, drop-length_append t m)

write_round :
    (u : ℕ) (s m : List ℕ) (in_len fuel room : ℕ)
    → StartsNonZero s
    → in_len < 2 ^ 64
    → length s ≤ in_len
    → utf8_to_ucs4 (s ++ m) in_len ≡ ok (u, length s)
    → write_loop (suc fuel) (s ++ m) in_len (suc room)
      ≡ (write_loop fuel m (in_len - length s) room >>= λ out. ok (latin1_byte u ∷ out))
unfolding write_loop
write_round u [] m in_len fuel room ne big fits char = absurd ne
write_round u (b ∷ t) m in_len fuel room ne big fits char = ground (arith, drop-length_append t m)

-- Both passes walk over the encoding of a text, whatever memory `m` comes behind it.
count_loop-encode_all :
    (us m : List ℕ) (fuel k in_len sz : ℕ)
    → All IsText us
    → fuel ≡ length us + k
    → in_len < 2 ^ 64
    → 4 * length us ≤ in_len
    → count_loop fuel (encode_all us ++ m) in_len sz
      ≡ count_loop k m (in_len - length (encode_all us)) (sz + length us)
unfolding encode_all
count_loop-encode_all [] m fuel k in_len sz h e big fits = ground arith
count_loop-encode_all (u ∷ us) m zero k in_len sz h e big fits = absurd (omega arith)
count_loop-encode_all (u ∷ us) m (suc fuel) k in_len sz h e big fits =
    let n = length-encode_bounds u in
    rw
      (
        append_assoc,
        count_round u (encode u) (encode_all us ++ m) in_len fuel sz (encode-StartsNonZero u h.0.0)
            big (omega (arith, n))
            (utf8_to_ucs4-encode u in_len (encode_all us ++ m) h.0.1 (omega (arith, n))),
        count_loop-encode_all us m fuel k (in_len - length (encode u)) (sz + 1) h.1 (omega arith)
            (omega arith) (omega (arith, n)),
      )
      (ground (arith, length-append (encode u) (encode_all us)))

write_loop-encode_all :
    (us m : List ℕ) (fuel in_len room : ℕ)
    → All IsText us
    → length us < fuel
    → length us ≤ room
    → in_len < 2 ^ 64
    → 4 * length us ≤ in_len
    → write_loop fuel (encode_all us ++ 0 ∷ m) in_len room ≡ ok (map latin1_byte us)
unfolding encode_all
write_loop-encode_all us m zero in_len room h e r big fits = absurd (omega arith)
write_loop-encode_all [] m (suc fuel) in_len room h e r big fits = unfold write_loop in ground arith
write_loop-encode_all (u ∷ us) m (suc fuel) in_len zero h e r big fits = absurd (omega arith)
write_loop-encode_all (u ∷ us) m (suc fuel) in_len (suc room) h e r big fits =
    let n = length-encode_bounds u in
    rw (
      append_assoc,
      write_round u (encode u) (encode_all us ++ 0 ∷ m) in_len fuel room
          (encode-StartsNonZero u h.0.0) big (omega (arith, n))
          (utf8_to_ucs4-encode u in_len (encode_all us ++ 0 ∷ m) h.0.1 (omega (arith, n))),
      write_loop-encode_all us m fuel (in_len - length (encode u)) room h.1 (omega arith)
          (omega arith) (omega arith) (omega (arith, n)),
    )

length-le_encode_all : (us : List ℕ) → length us ≤ length (encode_all us)
unfolding encode_all
length-le_encode_all [] = omega arith
length-le_encode_all (u ∷ us) = omega (
  arith,
  length-le_encode_all us,
  length-append (encode u) (encode_all us),
  length-encode_bounds u,
)

c_string-map-latin1_byte :
    (us : List ℕ) → All IsText us → c_string (map latin1_byte us) ≡ map latin1_byte us
unfolding c_string latin1_byte
c_string-map-latin1_byte [] h = refl
c_string-map-latin1_byte (u ∷ us) h = ground (arith, c_string-map-latin1_byte us h.1)

-- From the UTF-8 of a text without NUL that is shorter than a gigabyte, `lorieUtf8ToLatin1` makes
-- one byte for each character, a question mark where the character is not in Latin-1; it reads
-- nothing behind the NUL, whatever stands there, and writes nothing behind its buffer.
pub utf8_to_latin1-encode_all :
    (us rest : List ℕ)
    → All IsText us
    → length us < 2 ^ 30
    → utf8_to_latin1 (encode_all us ++ 0 ∷ rest) ≡ ok (map latin1_byte us)
unfolding utf8_to_latin1
utf8_to_latin1-encode_all us rest h small =
    let n = length-append (encode_all us) (0 ∷ rest) in
    let l = length-le_encode_all us in
    let fuel = length (encode_all us ++ 0 ∷ rest) + 1 in
    let counted : count_loop fuel (encode_all us ++ 0 ∷ rest) (2 ^ 64 - 1) 0 ≡ ok (length us) =
      count_loop-encode_all us (0 ∷ rest) fuel (suc (fuel - length us - 1)) (2 ^ 64 - 1) 0 h
        (omega arith) (omega arith) (omega arith)
      ∙ unfold count_loop in ground arith in
    rw (
      counted,
      write_loop-encode_all us rest fuel 4294967295 (length us + 1) h (omega arith) (omega arith)
          (omega arith) (omega arith),
      c_string-map-latin1_byte us h,
    )

latin1_to_utf8-encode_all :
    (s : List ℕ) → All (λ c. (0 < c) × (c < 256)) s → latin1_to_utf8 s ≡ encode_all s
unfolding latin1_to_utf8 encode_all encode
latin1_to_utf8-encode_all [] h = refl
latin1_to_utf8-encode_all (c ∷ s) h = ground (arith, latin1_to_utf8-encode_all s h.1)

map-latin1_byte : (s : List ℕ) → All (λ c. (0 < c) × (c < 256)) s → map latin1_byte s ≡ s
unfolding latin1_byte
map-latin1_byte [] h = refl
map-latin1_byte (c ∷ s) h = ground (arith, map-latin1_byte s h.1)

latin1-IsText : (s : List ℕ) → All (λ c. (0 < c) × (c < 256)) s → All IsText s
latin1-IsText [] h = tt
latin1-IsText (c ∷ s) h = ((h.0.0, (omega arith, inl (omega arith))), latin1-IsText s h.1)

-- A Latin-1 text without NUL, shorter than a gigabyte, comes back from UTF-8 as it was.
pub utf8_to_latin1-latin1_to_utf8 :
    (s rest : List ℕ)
    → All (λ c. (0 < c) × (c < 256)) s
    → length s < 2 ^ 30
    → utf8_to_latin1 (latin1_to_utf8 s ++ 0 ∷ rest) ≡ ok s
utf8_to_latin1-latin1_to_utf8 s rest h small =
    rw (latin1_to_utf8-encode_all s h)
      (utf8_to_latin1-encode_all s rest (latin1-IsText s h) small ∙ ap ok (map-latin1_byte s h))

length-encode_all-le : (us : List ℕ) → length (encode_all us) ≤ 4 * length us
unfolding encode_all
length-encode_all-le [] = omega arith
length-encode_all-le (u ∷ us) = omega (
  arith,
  length-encode_all-le us,
  length-append (encode u) (encode_all us),
  length-encode_bounds u,
)

truncated_char :
    (b max : ℕ) → 0xc0 ≤ b → b < 0xf8 → 2 ≤ max → utf8_to_ucs4 (b ∷ 0 ∷ []) max ≡ ok (0xfffd, 2)
unfolding utf8_to_ucs4
truncated_char b zero l h p = absurd (omega arith)
truncated_char b (suc max) l h p = ground arith

count_loop_truncated :
    (b k in_len sz : ℕ)
    → 0xc0 ≤ b
    → b < 0xf8
    → 2 < in_len
    → in_len < 2 ^ 64
    → count_loop (suc (suc k)) (b ∷ 0 ∷ []) in_len sz ≡ fault
unfolding count_loop
count_loop_truncated b k in_len sz lo hi p big =
    ground (arith, truncated_char b in_len lo hi (omega arith))

-- Where a text breaks off after the first byte of a longer character, the conversion takes the
-- terminating NUL for part of that character, and reads behind it.
pub utf8_to_latin1_truncated :
    (us : List ℕ) (b : ℕ)
    → All IsText us
    → length us < 2 ^ 30
    → 0xc0 ≤ b
    → b < 0xf8
    → utf8_to_latin1 (encode_all us ++ b ∷ 0 ∷ []) ≡ fault
unfolding utf8_to_latin1
utf8_to_latin1_truncated us b h small lo hi =
    let n = length-append (encode_all us) (b ∷ 0 ∷ []) in
    let l = length-le_encode_all us in
    let fuel = length (encode_all us ++ b ∷ 0 ∷ []) + 1 in
    let counted : count_loop fuel (encode_all us ++ b ∷ 0 ∷ []) (2 ^ 64 - 1) 0 ≡ fault =
      count_loop-encode_all us (b ∷ 0 ∷ []) fuel (suc (suc (fuel - length us - 2))) (2 ^ 64 - 1) 0 h
        (omega arith) (omega arith) (omega arith)
      ∙ count_loop_truncated b (fuel - length us - 2) _ _ lo hi
          (omega (arith, length-encode_all-le us)) (omega arith) in
    rw counted
