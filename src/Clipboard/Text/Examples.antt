-- ===== src/Clipboard/Text/Examples.antt =====
-- The text conversions at small texts.
use termux_x11_virtualkeys.Base.{
  ℕ, ◌≡◌, ◌↔◌, refl, List, [], ◌∷◌, ◌++◌, ok, Bool, true, false, length, arith, map,
}
use termux_x11_virtualkeys.Clipboard.Text.{
  latin1_to_utf8, check_utf8, utf8_to_ucs4, utf8_to_latin1, latin1_byte,
}
use termux_x11_virtualkeys.Clipboard.Text.Encode.{encode, encode_all}
use termux_x11_virtualkeys.Clipboard.Text.Decode.{utf8_to_ucs4-encode}
use termux_x11_virtualkeys.Clipboard.Text.Check.{Shaped, check_utf8-Shaped}
use termux_x11_virtualkeys.Clipboard.Text.Latin1.{utf8_to_latin1-encode_all}

-- "é€" and a line break.
abbrev sample : List ℕ
sample = 0xe9 ∷ 0x20ac ∷ 10 ∷ []

-- "naïve" in Latin-1.
abbrev naive : List ℕ
naive = 0x6e ∷ 0x61 ∷ 0xef ∷ 0x76 ∷ 0x65 ∷ []

euro_bytes : encode 0x20ac ≡ 0xe2 ∷ 0x82 ∷ 0xac ∷ []
unfolding encode
euro_bytes = refl

decodes_euro : utf8_to_ucs4 (0xe2 ∷ 0x82 ∷ 0xac ∷ 0 ∷ []) 9 ≡ ok (0x20ac, 3)
unfolding utf8_to_ucs4
decodes_euro = refl

accepts_naive : check_utf8 (latin1_to_utf8 naive ++ 0 ∷ []) 6 ≡ ok true
unfolding check_utf8 latin1_to_utf8
accepts_naive = refl

refuses_broken : check_utf8 (0xe2 ∷ 0x82 ∷ 0x41 ∷ 0 ∷ []) 3 ≡ ok false
unfolding check_utf8
refuses_broken = refl

latin1_of_sample : utf8_to_latin1 (encode_all sample ++ 0 ∷ []) ≡ ok (0xe9 ∷ 0x3f ∷ 10 ∷ [])
unfolding utf8_to_latin1 encode_all encode
latin1_of_sample = refl

utf8_to_ucs4-encode_example :
    utf8_to_ucs4 (encode 0x1f600 ++ 0 ∷ []) 9 ≡ ok (0x1f600, length (encode 0x1f600))
unfolding encode
utf8_to_ucs4-encode_example = utf8_to_ucs4-encode 0x1f600 9 (0 ∷ []) (omega arith) (omega arith)

check_utf8-Shaped_example :
    ((answer : Bool) × (check_utf8 (naive ++ 0 ∷ []) 5 ≡ ok answer))
    × ((check_utf8 (naive ++ 0 ∷ []) 5 ≡ ok true) ↔ Shaped naive)
check_utf8-Shaped_example = check_utf8-Shaped naive (omega arith)

utf8_to_latin1-encode_all_example :
    utf8_to_latin1 (encode_all sample ++ 0 ∷ 0xff ∷ []) ≡ ok (map latin1_byte sample)
utf8_to_latin1-encode_all_example =
    utf8_to_latin1-encode_all sample (0xff ∷ []) (omega arith) (omega arith)
