-- ===== src/Archive/Cpio.antt =====
-- The `Writer` of archive/cpio.py. Its file is the bytes written; a write goes to the writer's own
-- position, as pwrite does. A file to add is its name, its mode, its mtime and its bytes.
pub mod Alignment
pub mod Reader
pub mod Extract
use tine.Base.{
  ℕ, zero, suc, ◌+◌, ◌-◌, ◌*◌, ◌/◌, ◌%◌, ◌^◌, min, bit_or, bit_and, Bool, true, false, not, ◌&&◌,
  List, [], ◌∷◌, ◌++◌, Bytes, length, take, drop, replicate, ltb, leb, if◌then◌else◌,
}
use tine.Base.Text.{Text, encode, text_of}

abbrev pub magic : Bytes
magic = text_of "070701"

abbrev pub trailer : Text
trailer = text_of "TRAILER!!!"

-- _HEADER
abbrev pub header_length : ℕ
header_length = 110

-- _BLOCK
abbrev pub block : ℕ
block = 4096

-- _PATH_MAX
abbrev pub path_max : ℕ
path_max = 4096

-- (-n) % align
abbrev pub up_to : ℕ → ℕ → ℕ
up_to n align = (align - n % align) % align

-- `_roundup`
unfoldable pub roundup : ℕ → ℕ → ℕ
roundup n align = n + up_to n align

pub record Writer : Type 0 where
  pub out : Bytes
  pub pos : ℕ
  pub ino : ℕ
  pub epoch : ℕ
  pub block_align : Bool
  pub is_open : Bool

abbrev pub hex_digit : ℕ → ℕ
hex_digit n = if ltb n 10 then b'0' + n else 87 + n

unfoldable pub hex_digits : ℕ → ℕ → Bytes
hex_digits zero v = []
hex_digits (suc k) v = hex_digits k (v / 16) ++ hex_digit (v % 16) ∷ []

-- As many digits as it takes, and no fewer than `k`.
unfoldable pub hex_width : ℕ → ℕ → ℕ → ℕ
hex_width zero k v = k
hex_width (suc fuel) k v = let more = hex_width fuel (suc k) v in if ltb v (16 ^ k) then k else more

-- b"%08x" % v
unfoldable pub hex8 : ℕ → Bytes
hex8 v = hex_digits (hex_width v 8 v) v

unfoldable pub hex_fields : List ℕ → Bytes
hex_fields [] = []
hex_fields (v ∷ vs) = hex8 v ++ hex_fields vs

-- `_write`
unfoldable pub write : Bytes → Writer → Writer
write content w = record w {
  out = take w.pos w.out ++ (content ++ drop (w.pos + length content) w.out);
  pos = w.pos + length content;
}

-- `_pad`
unfoldable pub pad : ℕ → Writer → Writer
pad align w = write (replicate (up_to w.pos align) 0) w

-- The size of the name's field, which is padded where the payload is to start at a block.
unfoldable pub name_size : Bool → ℕ → ℕ → ℕ
unfolding roundup
name_size aligned pos raw =
    let size = raw + 1 in
    let padded = roundup (pos + header_length + size) block - (pos + header_length) in
    if aligned && leb padded path_max then padded else size

-- `_header`
unfoldable pub header : Text → ℕ → ℕ → ℕ → Bool → Writer → Writer
header name mode filesize mtime aligned w =
    let ino = suc w.ino in
    let raw = encode name in
    let size = name_size aligned w.pos (length raw) in
    let fields =
      ino ∷ mode ∷ 0 ∷ 0 ∷ 1 ∷ min mtime w.epoch ∷ filesize ∷ 0 ∷ 0 ∷ 0 ∷ 0 ∷ size ∷ 0 ∷ [] in
    pad 4 (
      write (raw ++ replicate (size - length raw) 0)
        (write (magic ++ hex_fields fields) (record w { ino = ino })))

abbrev pub permissions : ℕ → ℕ
permissions mode = bit_and mode 0o7777

unfoldable pub add_dir : Text → ℕ → ℕ → Writer → Writer
add_dir name mode mtime = header name (bit_or 0o040000 (permissions mode)) 0 mtime false

unfoldable pub add_symlink : Text → Text → ℕ → Writer → Writer
add_symlink name target mtime w =
    let raw = encode target in
    pad 4 (write raw (header name (bit_or 0o120000 0o777) (length raw) mtime false w))

unfoldable pub add_file : Text → Bytes → ℕ → ℕ → Writer → Writer
add_file name content mode mtime w = pad 4 (
    write content (
      header name (bit_or 0o100000 (permissions mode)) (length content) mtime
        (w.block_align && leb block (length content)) w))

unfoldable pub close : Writer → Writer
close w =
    let fields = 0 ∷ 0 ∷ 0 ∷ 0 ∷ 1 ∷ 0 ∷ 0 ∷ 0 ∷ 0 ∷ 0 ∷ 0 ∷ (length trailer + 1) ∷ 0 ∷ [] in
    let ended = pad 4 (write (encode trailer ++ 0 ∷ []) (write (magic ++ hex_fields fields) w)) in
    if not w.is_open then w else record ended { is_open = false }
