-- ===== src/Base/Text.antt =====
-- Python's `str` as its code points, and its UTF-8 codec: `str.encode()` and
-- `bytes.decode(errors="replace")`, which writes U+FFFD for each maximal ill-formed part.
use Prim.Native.Nat.{ℕ, ◌+◌, ◌-◌, ◌*◌, ◌/◌, ◌%◌, ◌≤◌, ◌<◌}
use Prim.Native.Char.{code}
use Prim.Native.String.{String}
use mathlib.Core.Path.{◌≡◌, refl, ap, ◌∙◌}
use mathlib.Core.Logic.{◌⊎◌}
use mathlib.Core.Bool.{Bool, true, ◌&&◌}
use mathlib.Core.List.{List, [], ◌∷◌, ◌++◌}
use native.Mathlib.Decide.{dec_lt}
use native.Mathlib.Omega.{arith}
use tine.Base.Tests.{ltb, leb, ◌==◌, if◌then◌else◌}
use tine.Base.Lists.{Bytes, All}

abbrev pub Text : Type 0
Text = List ℕ

-- A literal of the program.
abbrev pub text_of : String → Text
text_of String.[] = []
text_of (String.◌∷◌ c s) = code c ∷ text_of s

pub encode_char : ℕ → Bytes
encode_char c =
    if ltb c 0x80
    then c ∷ []
    else if ltb c 0x800
    then (0xc0 + c / 64) ∷ (0x80 + c % 64) ∷ []
    else if ltb c 0x10000
    then (0xe0 + c / 4096) ∷ (0x80 + c / 64 % 64) ∷ (0x80 + c % 64) ∷ []
    else (0xf0 + c / 262144) ∷ (0x80 + c / 4096 % 64) ∷ (0x80 + c / 64 % 64) ∷ (0x80 + c % 64) ∷ []

unfoldable pub encode : Text → Bytes
unfolding encode_char
encode [] = []
encode (c ∷ t) = encode_char c ++ encode t

-- Between two characters, or inside one: the bytes still to come, the bits read, and the range of
-- the next byte.
pub data Decoder : Type 0 where
  between : Decoder
  inside : ℕ → ℕ → ℕ → ℕ → Decoder

abbrev within : ℕ → ℕ → ℕ → Bool
within lo hi b = leb lo b && leb b hi

abbrev pub replacement : ℕ
replacement = 0xfffd

start : ℕ → Text × Decoder
start b =
    if ltb b 0x80
    then (b ∷ [], between)
    else if within 0xc2 0xdf b
    then ([], inside 1 (b - 0xc0) 0x80 0xbf)
    else if b == 0xe0
    then ([], inside 2 0 0xa0 0xbf)
    else if b == 0xed
    then ([], inside 2 13 0x80 0x9f)
    else if within 0xe1 0xef b
    then ([], inside 2 (b - 0xe0) 0x80 0xbf)
    else if b == 0xf0
    then ([], inside 3 0 0x90 0xbf)
    else if b == 0xf4
    then ([], inside 3 4 0x80 0x8f)
    else if within 0xf1 0xf3 b
    then ([], inside 3 (b - 0xf0) 0x80 0xbf)
    else (replacement ∷ [], between)

decode_byte : Decoder → ℕ → Text × Decoder
unfolding start
decode_byte between b = start b
decode_byte (inside left bits lo hi) b =
    let bits' = bits * 64 + (b - 0x80) in
    let (out, next) = start b in
    if within lo hi b
    then (if left == 1 then (bits' ∷ [], between) else ([], inside (left - 1) bits' 0x80 0xbf))
    else (replacement ∷ out, next)

decode_from : Decoder → Bytes → Text
unfolding decode_byte
decode_from between [] = []
decode_from (inside _ _ _ _) [] = replacement ∷ []
decode_from d (b ∷ bs) = let (out, next) = decode_byte d b in out ++ decode_from next bs

unfoldable pub decode : Bytes → Text
unfolding decode_from
decode = decode_from between

-- A Unicode scalar value: no surrogate.
abbrev pub IsScalar : ℕ → Type 0
IsScalar c = (c < 0xd800) ⊎ ((0xe000 ≤ c) × (c < 0x110000))

one_byte :
    (c : ℕ) (bs : Bytes)
    → c < 0x80
    → decode_from between (encode_char c ++ bs) ≡ c ∷ decode_from between bs
unfolding decode_from encode_char
one_byte c bs h = ground arith

two_bytes :
    (c : ℕ) (bs : Bytes)
    → 0x80 ≤ c
    → c < 0x800
    → decode_from between (encode_char c ++ bs) ≡ c ∷ decode_from between bs
unfolding decode_from encode_char
two_bytes c bs l h = ground arith

three_bytes :
    (c : ℕ) (bs : Bytes)
    → IsScalar c
    → 0x800 ≤ c
    → c < 0x10000
    → decode_from between (encode_char c ++ bs) ≡ c ∷ decode_from between bs
unfolding decode_from encode_char
three_bytes c bs s l h = ground arith

four_bytes :
    (c : ℕ) (bs : Bytes)
    → 0x10000 ≤ c
    → c < 0x110000
    → decode_from between (encode_char c ++ bs) ≡ c ∷ decode_from between bs
unfolding decode_from encode_char
four_bytes c bs l h = ground arith

decode_from-encode_char :
    (c : ℕ) (bs : Bytes)
    → IsScalar c
    → decode_from between (encode_char c ++ bs) ≡ c ∷ decode_from between bs
decode_from-encode_char c bs s = elim (dec_lt c 0x80) [
  | yes h ↦ one_byte c bs h
  | no h1 ↦ elim (dec_lt c 0x800) [
    | yes h ↦ two_bytes c bs (omega arith) h
    | no h2 ↦ elim (dec_lt c 0x10000) [
      | yes h ↦ three_bytes c bs s (omega arith) h
      | no h3 ↦ four_bytes c bs (omega arith) (omega arith)
    ]
  ]
]

pub decode-encode : (t : Text) → All IsScalar t → decode (encode t) ≡ t
unfolding decode encode
decode-encode [] h = refl
decode-encode (c ∷ t) h =
    decode_from-encode_char c (encode t) h.0 ∙ ap (◌∷◌ c) (unfold decode in decode-encode t h.1)

-- A text of ASCII characters is its own encoding.
pub encode-ascii : (t : Text) → All (λ (c : ℕ). c < 128) t → encode t ≡ t
unfolding encode
encode-ascii [] h = refl
encode-ascii (c ∷ t) h =
    let small = h.0 in
    let one : ltb c 0x80 ≡ true = ground arith in rw one (ap (◌∷◌ c) (encode-ascii t h.1))
