-- ===== src/RemoteCache/Wire/Message.antt =====
-- `Message` of remote_cache/wire.py: a parsed message, its fields reachable by number.
pub mod Lookup
use tine.Base.{
  ℕ, ◌+◌, Bool, not, Option, none, some, List, [], ◌∷◌, ◌++◌, Bytes, last_or, is_nil, ◌==◌,
  if◌then◌else◌,
}
use tine.Base.Text.{Text, decode}
use tine.RemoteCache.Outcome.{Result, ok, ◌>>=◌, each}
use tine.RemoteCache.Wire.Varint.{unpack_varints}
use tine.RemoteCache.Wire.Fields.{Value, int, blob, Field, fields}

-- `dict[int, list[int | bytes]]`
abbrev pub ByNumber : Type 0
ByNumber = List (ℕ × List Value)

-- by_number.setdefault(number, []).append(value)
unfoldable pub append_at : ℕ → Value → ByNumber → ByNumber
append_at number value [] = (number, value ∷ []) ∷ []
append_at number value ((n, values) ∷ others) =
    if n == number
    then (n, values ++ value ∷ []) ∷ others
    else (n, values) ∷ append_at number value others

-- by_number.get(number, [])
unfoldable pub values_at : ℕ → ByNumber → List Value
values_at number [] = []
values_at number ((n, values) ∷ others) = if n == number then values else values_at number others

pub record Message : Type 0 where
  pub bytes : Bytes
  pub by_number : ByNumber

unfoldable pub file_all : ByNumber → List Field → ByNumber
file_all table [] = table
file_all table ((number, value) ∷ others) = file_all (append_at number value table) others

-- `Message(data)`
unfoldable pub message : Bytes → Result Message
unfolding file_all append_at
message bytes = do
  found ← fields bytes
  ok (record { bytes = bytes; by_number = file_all [] found })

unfoldable pub ints_of : List Value → List ℕ
ints_of [] = []
ints_of (int n ∷ vs) = n ∷ ints_of vs
ints_of (blob b ∷ vs) = ints_of vs

unfoldable pub blobs_of : List Value → List Bytes
blobs_of [] = []
blobs_of (int n ∷ vs) = blobs_of vs
blobs_of (blob b ∷ vs) = b ∷ blobs_of vs

-- `_ints`
unfoldable pub ints : Message → ℕ → List ℕ
unfolding ints_of values_at
ints m number = ints_of (values_at number m.by_number)

unfoldable pub blobs : Message → ℕ → List Bytes
unfolding blobs_of values_at
blobs m number = blobs_of (values_at number m.by_number)

unfoldable pub integer_or : Message → ℕ → ℕ → ℕ
unfolding ints
integer_or m number default = last_or default (ints m number)

-- `integer` at its default of 0.
unfoldable pub integer : Message → ℕ → ℕ
unfolding integer_or
integer m number = integer_or m number 0

unfoldable pub flag : Message → ℕ → Bool
unfolding integer
flag m number = not (integer m number == 0)

unfoldable pub blob_or : Message → ℕ → Bytes → Bytes
unfolding blobs
blob_or m number default = last_or default (blobs m number)

-- `blob` at its default of b"".
unfoldable pub last_blob : Message → ℕ → Bytes
unfolding blob_or
last_blob m number = blob_or m number []

unfoldable pub text_or : Message → ℕ → Text → Text
unfolding last_blob
text_or m number default =
    let found = last_blob m number in if is_nil found then default else decode found

-- `text` at its default of "".
unfoldable pub text : Message → ℕ → Text
unfolding text_or
text m number = text_or m number []

abbrev last_child : List Bytes → Result (Option Message)
last_child [] = ok none
last_child (v ∷ vs) = do one ← message (last_or v vs); ok (some one)

unfoldable pub child : Message → ℕ → Result (Option Message)
unfolding blobs message
child m number = last_child (blobs m number)

unfoldable pub children : Message → ℕ → Result (List Message)
unfolding blobs message
children m number = each message (blobs m number)

unfoldable pub concat_ints : List (List ℕ) → List ℕ
concat_ints [] = []
concat_ints (xs ∷ xss) = xs ++ concat_ints xss

unfoldable pub numbers : Message → ℕ → Result (List ℕ)
unfolding ints blobs concat_ints
numbers m number = do
  unpacked ← each unpack_varints (blobs m number)
  ok (ints m number ++ concat_ints unpacked)
