-- ===== src/Clipboard/Text.antt =====
-- The text conversions at the head of clipboard.c. Memory is a list of bytes from the pointer to
-- the end of its allocation; a read beyond it is `fault`. Loops over such memory take fuel.
pub mod Encode
pub mod Decode
pub mod Check
pub mod Agree
pub mod Latin1
pub mod Filter
pub mod Slack
pub mod Extend
mod Examples
use termux_x11_virtualkeys.Base.{
  ℕ, zero, suc, ◌+◌, ◌-◌, ◌*◌, ◌/◌, ◌^◌, Bool, true, false, not, ◌&&◌, ◌||◌, Option, none, some,
  List, [], ◌∷◌, ltb, leb, ◌==◌, if◌then◌else◌, length, drop, Run, ok, fault, out_of_fuel, ◌>>=◌,
}
use termux_x11_virtualkeys.Base.Words.{is_continuation, low_bits, sub64, to_int}

-- What `strlen` and `strdup` see of a buffer: the bytes before the first NUL.
unfoldable pub c_string : List ℕ → List ℕ
c_string [] = []
c_string (c ∷ s) = let rest = c_string s in if c == 0 then [] else c ∷ rest

-- `lorieConvertLF` drops every carriage return.
pub convert_lf : List ℕ → List ℕ
convert_lf [] = []
convert_lf (c ∷ src) = let rest = convert_lf src in if c == 13 then rest else c ∷ rest

-- `lorieLatin1ToUTF8`, up to the NUL.
pub latin1_to_utf8 : List ℕ → List ℕ
latin1_to_utf8 [] = []
latin1_to_utf8 (c ∷ s) =
    let rest = latin1_to_utf8 s in
    if c == 0
    then []
    else if ltb c 128
    then c ∷ rest
    else (0xc2 + to_int (ltb 0xbf c)) ∷ (low_bits 6 c + 0x80) ∷ rest

-- A continuation byte at the pointer: the read, then the test.
continues : List ℕ → Run Bool
continues [] = fault
continues (b ∷ _) = ok (is_continuation b)

-- The length of the sequence that starts with `c`, or `none` where `lorieCheckUTF8` returns 0.
sequence : ℕ → List ℕ → Run (Option ℕ)
unfolding continues
sequence c utf =
    if ltb c 0x80
    then ok (some 1)
    else (continues (drop 1 utf) >>= λ second.
        if not second
        then ok none
        else if not (leb 0xe0 c)
        then ok (some 2)
        else (continues (drop 2 utf) >>= λ third.
            if not third
            then ok none
            else if not (leb 0xf0 c)
            then ok (some 3)
            else if not (c / 8 == 30)
            then ok none
            else (continues (drop 3 utf) >>= λ fourth. if fourth then ok (some 4) else ok none)))

-- The loop of `lorieCheckUTF8`: `utf` is what is left of the memory, `size` what is left of the
-- bytes to check. The byte is read before the index is compared with the size.
pub check_utf8_loop : ℕ → List ℕ → ℕ → Run Bool
unfolding sequence
check_utf8_loop zero utf size = out_of_fuel
check_utf8_loop (suc fuel) [] size = fault
check_utf8_loop (suc fuel) (c ∷ utf) size = elim (c == 0 || size == 0) [
  | true ↦ ok true
  | false ↦ elim (sequence c (c ∷ utf)) [
    | ok (some n) ↦ check_utf8_loop fuel (drop n (c ∷ utf)) (size - n)
    | ok none ↦ ok false
    | fault ↦ fault
    | out_of_fuel ↦ out_of_fuel
  ]
]

pub check_utf8 : List ℕ → ℕ → Run Bool
unfolding check_utf8_loop
check_utf8 utf size = check_utf8_loop (size + 1) utf size

-- Surrogate code points are replaced.
pub replace_surrogate : ℕ → ℕ
replace_surrogate ucs = if leb 0xd800 ucs && ltb ucs 0xe000 then 0xfffd else ucs

-- The continuation bytes of one character: how many are left, the memory, the bytes that may be
-- read, the value and the bytes consumed so far.
pub decode_tail : ℕ → List ℕ → ℕ → ℕ → ℕ → Run (ℕ × ℕ)
unfolding replace_surrogate
decode_tail zero src max dst consumed = ok (replace_surrogate dst, consumed)
decode_tail (suc count) [] max dst consumed = if max == 0 then ok (0xfffd, consumed + 1) else fault
decode_tail (suc count) (b ∷ src) max dst consumed =
    let rest = decode_tail count src (max - 1) (dst * 64 + low_bits 6 b) (consumed + 1) in
    if max == 0 || not (is_continuation b) then ok (0xfffd, consumed + 1) else rest

-- An invalid first byte takes the continuation bytes after it along.
pub skip_continuations : List ℕ → ℕ → ℕ → Run ℕ
skip_continuations [] max consumed = if max == 0 then ok consumed else fault
skip_continuations (b ∷ src) max consumed =
    let rest = skip_continuations src (max - 1) (consumed + 1) in
    if max == 0 || not (is_continuation b) then ok consumed else rest

-- `lorieUtf8ToUCS4`: the code point, and the bytes consumed.
pub utf8_to_ucs4 : List ℕ → ℕ → Run (ℕ × ℕ)
unfolding decode_tail skip_continuations
utf8_to_ucs4 src zero = ok (0xfffd, 0)
utf8_to_ucs4 [] (suc max) = fault
utf8_to_ucs4 (b ∷ src) (suc max) =
    if ltb b 0x80
    then decode_tail 0 src max b 1
    else if b / 32 == 6
    then decode_tail 1 src max (low_bits 5 b) 1
    else if b / 16 == 14
    then decode_tail 2 src max (low_bits 4 b) 1
    else if b / 8 == 30
    then decode_tail 3 src max (low_bits 3 b) 1
    else (do consumed ← skip_continuations src max 1; ok (0xfffd, consumed))

-- The first pass of `lorieUtf8ToLatin1` counts the characters.
pub count_loop : ℕ → List ℕ → ℕ → ℕ → Run ℕ
unfolding utf8_to_ucs4
count_loop zero s in_len sz = out_of_fuel
count_loop (suc fuel) [] in_len sz = if in_len == 0 then ok sz else fault
count_loop (suc fuel) (b ∷ s) in_len sz = elim (in_len == 0 || b == 0) [
  | true ↦ ok sz
  | false ↦ elim (utf8_to_ucs4 (b ∷ s) in_len) [
    | ok (ucs, len) ↦ count_loop fuel (drop len (b ∷ s)) (sub64 in_len len) (sz + 1)
    | fault ↦ fault
    | out_of_fuel ↦ out_of_fuel
  ]
]

-- The byte that stands for a code point.
pub latin1_byte : ℕ → ℕ
latin1_byte ucs = if ltb 0xff ucs then b'?' else ucs

-- The second pass writes the characters; `room` is what is left of `out`.
pub write_loop : ℕ → List ℕ → ℕ → ℕ → Run (List ℕ)
unfolding utf8_to_ucs4 latin1_byte
write_loop zero s in_len room = out_of_fuel
write_loop (suc fuel) [] in_len room = if in_len == 0 then ok [] else fault
write_loop (suc fuel) (b ∷ s) in_len room = elim (in_len == 0 || b == 0) [
  | true ↦ ok []
  | false ↦ elim (utf8_to_ucs4 (b ∷ s) in_len) [
    | ok (ucs, len) ↦ elim room [
      | zero ↦ fault
      | suc left ↦ write_loop fuel (drop len (b ∷ s)) (sub64 in_len len) left >>= λ out.
          ok (latin1_byte ucs ∷ out)
    ]
    | fault ↦ fault
    | out_of_fuel ↦ out_of_fuel
  ]
]

-- `lorieUtf8ToLatin1`: both passes, with the lengths that the code starts them with.
unfoldable pub utf8_to_latin1 : List ℕ → Run (List ℕ)
unfolding count_loop write_loop c_string
utf8_to_latin1 src = do
  sz ← count_loop (length src + 1) src (2 ^ 64 - 1) 0
  out ← write_loop (length src + 1) src 4294967295 (sz + 1)
  ok (c_string out)
