-- ===== src/Archive/Cpio/Reader.antt =====
-- `read` of archive/cpio.py. A source is its bytes from `start` on, and a position is counted from there.
pub mod Numbers
pub mod Shapes
pub mod Written
pub mod Members
pub mod Close
pub mod RoundTrip
use tine.Base.{
  ℕ, zero, suc, ◌+◌, ◌-◌, ◌*◌, bit_and, Bool, true, false, not, ◌&&◌, Option, none, some, List, [],
  ◌∷◌, Bytes, length, take, drop, same_bytes, ltb, leb, ◌==◌, if◌then◌else◌, ◌>>=◌,
}
use tine.Base.Text.{Text, encode, decode}
use tine.Archive.Cpio.{magic, trailer, header_length, roundup}

pub record Entry : Type 0 where
  pub ino : ℕ
  pub mode : ℕ
  pub nlink : ℕ
  pub devmajor : ℕ
  pub devminor : ℕ
  pub name : Text
  pub size : ℕ
  pub data_off : ℕ
  pub target : Bytes

-- How the generator ends: at the trailer, or by an error. `no_rounds` is raised nowhere.
pub data Ending : Type 0 where
  complete bad_magic bad_number bad_name no_rounds : Ending

-- What it yields, and how it ends.
pub record Reading : Type 0 where
  pub entries : List Entry
  pub ending : Ending

abbrev pub hex_value : ℕ → Option ℕ
hex_value c =
    if leb b'0' c && leb c b'9'
    then some (c - b'0')
    else if leb b'a' c && leb c b'f'
    then some (c - 87)
    else if leb b'A' c && leb c b'F'
    then some (c - 55)
    else none

unfoldable pub number_from : ℕ → Bytes → Option ℕ
number_from acc [] = some acc
number_from acc (c ∷ digits) = do d ← hex_value c; number_from (acc * 16 + d) digits

-- int(digits, 16)
abbrev pub number : Bytes → Option ℕ
number [] = none
number (c ∷ digits) = number_from 0 (c ∷ digits)

-- So many fields of eight digits.
unfoldable pub numbers : ℕ → Bytes → Option (List ℕ)
numbers zero source = some []
numbers (suc count) source = do
  n ← number (take 8 source)
  others ← numbers count (drop 8 source)
  some (n ∷ others)

-- f[index]
abbrev pub field : ℕ → List ℕ → ℕ
field index [] = 0
field zero (n ∷ f) = n
field (suc index) (n ∷ f) = field index f

-- split(b"\x00", 1)[0]
unfoldable pub before_nul : Bytes → Bytes
before_nul [] = []
before_nul (b ∷ bs) = let rest = before_nul bs in if b == 0 then [] else b ∷ rest

-- bytes.decode(), which refuses what is no encoding of a text.
abbrev pub strict : Bytes → Option Text
strict bs = if same_bytes (encode (decode bs)) bs then some (decode bs) else none

-- stat.S_ISLNK
abbrev pub is_symlink : ℕ → Bool
is_symlink mode = bit_and mode 0o170000 == 0o120000

abbrev pub entry_at : ℕ → ℕ → Bytes → List ℕ → Text → Entry
entry_at start pos source f name =
    let data_off = roundup (pos + header_length + field 11 f) 4 in
    record {
      ino = field 0 f;
      mode = field 1 f;
      nlink = field 4 f;
      devmajor = field 7 f;
      devminor = field 8 f;
      name = name;
      size = field 6 f;
      data_off = start + data_off;
      target =
          if is_symlink (field 1 f) then take (field 6 f) (drop (data_off - pos) source) else [];
    }

-- The position behind a record.
abbrev pub behind : ℕ → List ℕ → ℕ
behind pos f = roundup (roundup (pos + header_length + field 11 f) 4 + field 6 f) 4

abbrev pub yield_entry : Entry → Reading → Reading
yield_entry entry reading = record reading { entries = entry ∷ reading.entries }

abbrev pub stop : Ending → Reading
stop ending = record { entries = []; ending = ending }

-- Goes on behind the record, with the fields and the name that were read.
abbrev pub read_named : ℕ → ℕ → Bytes → List ℕ → Option Text → (ℕ → Bytes → Reading) → Reading
read_named start pos source f none rest = stop Ending.bad_name
read_named start pos source f (some name) rest =
    if same_bytes name trailer
    then stop Ending.complete
    else yield_entry (entry_at start pos source f name)
        (rest (behind pos f) (drop (behind pos f - pos) source))

abbrev pub read_fields : ℕ → ℕ → Bytes → Option (List ℕ) → (ℕ → Bytes → Reading) → Reading
read_fields start pos source none rest = stop Ending.bad_number
read_fields start pos source (some f) rest =
    read_named start pos source f
      (strict (before_nul (take (field 11 f) (drop header_length source)))) rest

-- The loop, with so many rounds.
unfoldable pub read_in : ℕ → ℕ → ℕ → Bytes → Reading
read_in start zero pos source = stop Ending.no_rounds
read_in start (suc rounds) pos source =
    if not (same_bytes (take 6 source) magic)
    then stop Ending.bad_magic
    else read_fields start pos source (numbers 13 (drop 6 source)) (read_in start rounds)

-- Each record takes a byte at least, so these rounds are enough.
unfoldable pub read : ℕ → Bytes → Reading
read start source = read_in start (suc (length source)) 0 source
