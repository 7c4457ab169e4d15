-- ===== src/Archive/Cpio/Alignment.antt =====
-- Where the payloads of an archive start.
use tine.Base.{
  ℕ, zero, suc, ◌+◌, ◌-◌, ◌*◌, ◌/◌, ◌%◌, ◌^◌, ◌≤◌, ◌<◌, ◌≡◌, refl, ap, ◌∙◌, min, true, List, [],
  ◌∷◌, ◌++◌, All, Bytes, length, length-append, replicate, leb, arith,
}
use tine.Base.Text.{Text, encode}
use tine.Archive.Cpio.{
  Writer, magic, header_length, block, path_max, up_to, roundup, hex_digits, hex_width, hex8,
  hex_fields, write, pad, name_size, header,
}

pub length-hex_digits : (k v : ℕ) → length (hex_digits k v) ≡ k
unfolding hex_digits
length-hex_digits zero v = refl
length-hex_digits (suc k) v =
    omega (arith, length-append (hex_digits k (v / 16)) (_ ∷ []), length-hex_digits k (v / 16))

pub hex_width-small : (fuel k v : ℕ) → v < 16 ^ k → hex_width fuel k v ≡ k
unfolding hex_width
hex_width-small zero k v h = refl
hex_width-small (suc fuel) k v h = ground (arith, h)

pub length-hex8 : (v : ℕ) → v < 2 ^ 32 → length (hex8 v) ≡ 8
unfolding hex8
length-hex8 v h = length-hex_digits (hex_width v 8 v) v ∙ hex_width-small v 8 v (omega (arith, h))

abbrev pub FitsField : ℕ → Type 0
FitsField v = v < 2 ^ 32

pub length-hex_fields : (vs : List ℕ) → All FitsField vs → length (hex_fields vs) ≡ length vs * 8
unfolding hex_fields
length-hex_fields [] h = refl
length-hex_fields (v ∷ vs) h =
    omega
      (arith, length-append (hex8 v) (hex_fields vs), length-hex8 v h.0, length-hex_fields vs h.1)

length-replicate : (n : ℕ) → length (replicate {A = ℕ} n 0) ≡ n
length-replicate zero = refl
length-replicate (suc n) = ap suc (length-replicate n)

pub padded_pos : (align : ℕ) (w : Writer) → (pad align w).pos ≡ roundup w.pos align
unfolding pad write roundup
padded_pos align w = omega (arith, length-replicate (up_to w.pos align))

pub roundup_four : (n : ℕ) → n % 4 ≡ 0 → roundup n 4 ≡ n
unfolding roundup
roundup_four n h = ground (arith, h)

up_to-divides : (n : ℕ) → (n + up_to n block) % block ≡ 0
up_to-divides n = ground arith

name_size-block :
    (pos raw : ℕ)
    → roundup (pos + header_length + (raw + 1)) block - (pos + header_length) ≤ path_max
    → ((pos + header_length + name_size true pos raw) % block ≡ 0)
      × (raw < name_size true pos raw)
      × (name_size true pos raw ≤ path_max)
unfolding name_size roundup
name_size-block pos raw h =
    let end = pos + header_length + (raw + 1) in
    let whole = up_to-divides end in
    let fits : leb (roundup end block - (pos + header_length)) path_max ≡ true =
      ground (arith, h) in
    rw fits (ap (λ (n : ℕ). n % block) (omega arith) ∙ whole, omega arith, h)

-- The fields of a header that are not its name fit their eight digits.
pub record IsEncodable (w : Writer) (raw mode filesize mtime : ℕ) : Type 0 where
  pub number_fits : FitsField (suc w.ino)
  pub mode_fits : FitsField mode
  pub time_fits : FitsField (min mtime w.epoch)
  pub size_fits : FitsField filesize
  pub room : roundup (w.pos + header_length + (raw + 1)) block - (w.pos + header_length) ≤ path_max

-- The payload behind an aligned header starts at a block, where the padded name is not too long for
-- the kernel and the fields fit.
pub header-aligned :
    (name : Text) (mode filesize mtime : ℕ) (w : Writer)
    → IsEncodable w (length (encode name)) mode filesize mtime
    → (header name mode filesize mtime true w).pos % block ≡ 0
unfolding header write
header-aligned name mode filesize mtime w h =
    let raw = encode name in
    let size = name_size true w.pos (length raw) in
    let (ends, longer, most) = name_size-block w.pos (length raw) h.room in
    let fields : List ℕ =
      suc w.ino ∷ mode ∷ 0 ∷ 0 ∷ 1 ∷ min mtime w.epoch ∷ filesize ∷ 0 ∷ 0 ∷ 0 ∷ 0 ∷ size ∷ 0 ∷ [] in
    let short : FitsField size = omega (arith, most) in
    let z : FitsField 0 = omega arith in
    let fit : All FitsField fields = (
      h.number_fits,
      (
        h.mode_fits,
        (z, (z, (omega arith, (h.time_fits, (h.size_fits, (z, (z, (z, (z, (short, (z, tt))))))))))),
      ),
    ) in
    let named : Bytes = raw ++ replicate (size - length raw) 0 in
    let head : Bytes = magic ++ hex_fields fields in
    let heads : length head ≡ header_length =
      omega (arith, length-append magic (hex_fields fields), length-hex_fields fields fit) in
    let names : length named ≡ size = omega (
      arith,
      length-append raw (replicate (size - length raw) 0),
      length-replicate (size - length raw),
      longer,
    ) in
    let end : w.pos + length head + length named ≡ w.pos + header_length + size =
      rw (heads, names) refl in
    let fourth : (w.pos + header_length + size) % 4 ≡ 0 = omega (arith, ends) in
    let lands : (header name mode filesize mtime true w).pos ≡ w.pos + header_length + size =
      padded_pos 4 _ ∙ ap (λ (n : ℕ). roundup n 4) end ∙ roundup_four _ fourth in
    ap (λ (n : ℕ). n % block) lands ∙ ends
