-- ===== src/Clipboard/Text/Decode.antt =====
-- `lorieUtf8ToUCS4` on encoded text.
use termux_x11_virtualkeys.Base.{ℕ, suc, zero, ◌≤◌, ◌≡◌, List, ◌++◌, ok, length, arith}
use termux_x11_virtualkeys.Clipboard.Text.{utf8_to_ucs4}
use termux_x11_virtualkeys.Clipboard.Text.Encode.{IsScalar, encode}

-- the encoding of a scalar value decodes to it
pub utf8_to_ucs4-encode :
    (u max : ℕ) (rest : List ℕ)
    → IsScalar u
    → length (encode u) ≤ max
    → utf8_to_ucs4 (encode u ++ rest) max ≡ ok (u, length (encode u))
unfolding utf8_to_ucs4 encode
utf8_to_ucs4-encode u zero rest s h = ground arith
utf8_to_ucs4-encode u (suc zero) rest s h = ground arith
utf8_to_ucs4-encode u (suc (suc zero)) rest s h = ground arith
utf8_to_ucs4-encode u (suc (suc (suc zero))) rest s h = ground arith
utf8_to_ucs4-encode u (suc (suc (suc (suc max)))) rest s h = ground arith
