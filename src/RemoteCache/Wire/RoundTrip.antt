-- ===== src/RemoteCache/Wire/RoundTrip.antt =====
-- What the writers write, as the fields that `fields` yields of it.
use tine.Base.{
  ℕ, ◌+◌, ◌*◌, ◌/◌, ◌%◌, ◌^◌, ◌<◌, ◌≡◌, refl, ◌∙◌, List, [], ◌∷◌, ◌++◌, append-nil, append_assoc,
  some, Bytes, length, take-append, drop-append, length-append, is_nil, ◌==◌, if◌then◌else◌, arith,
  inl, inr, Bool-cases,
}
use tine.Base.Bits.{bit_and_low3, bit_or-low3}
use tine.RemoteCache.Outcome.{ok}
use tine.RemoteCache.Wire.Varint.{write_varint}
use tine.RemoteCache.Wire.Varint.RoundTrip.{read_varint-write_varint}
use tine.RemoteCache.Wire.Fields.{
  int, blob, Field, kind_varint, kind_length, read_blob, read_value, read_field, fields,
}
use tine.RemoteCache.Wire.Fields.Consumes.{fields-step}
use tine.RemoteCache.Wire.Writer
use tine.RemoteCache.Wire.Writer.{tag}

-- The bytes read as these fields, whatever is read behind them.
pub record Writes (bs : Bytes) (fs : List Field) : Type 0 where
  pub before :
      (rest : Bytes) (others : List Field)
      → fields rest ≡ ok others
      → fields (bs ++ rest) ≡ ok (fs ++ others)

pub Writes-nil : Writes [] []
Writes-nil = record { before = λ rest others h. h }

pub Writes-append :
    {bs cs : Bytes} {fs gs : List Field}
    → Writes bs fs
    → Writes cs gs
    → Writes (bs ++ cs) (fs ++ gs)
Writes-append {bs} {cs} {fs} {gs} w v = record {
  before = λ rest others h.
      rw (append_assoc bs cs rest, append_assoc fs gs others)
        (w.before (cs ++ rest) (gs ++ others) (v.before rest others h));
}

-- A number that a tag can carry.
abbrev pub IsNumber : ℕ → Type 0
IsNumber n = (0 < n) × (n < 2 ^ 67)

read_field-tag :
    (n kind : ℕ) (rest : Bytes)
    → IsNumber n
    → kind < 8
    → read_field (tag n kind ++ rest) ≡ read_value n kind rest
unfolding read_field tag
read_field-tag n kind rest fits low =
    let e : (n * 8 + kind) / 8 ≡ n = omega arith in
    let k : (n * 8 + kind) % 8 ≡ kind = omega arith in
    rw (
      bit_or-low3 n kind low,
      read_varint-write_varint (n * 8 + kind) rest (omega arith),
      bit_and_low3 (n * 8 + kind),
      e,
      k,
    )

read_value_varint :
    (n v : ℕ) (rest : Bytes)
    → IsNumber n
    → v < 2 ^ 70
    → read_value n kind_varint (write_varint v ++ rest) ≡ ok (some (n, int v), rest)
unfolding read_value
read_value_varint n v rest fits small = rw (read_varint-write_varint v rest small) (ground arith)

read_value-blob :
    (n : ℕ) (value rest : Bytes)
    → IsNumber n
    → length value < 2 ^ 70
    → read_value n kind_length (write_varint (length value) ++ (value ++ rest))
      ≡ ok (some (n, blob value), rest)
unfolding read_value read_blob
read_value-blob n value rest fits small =
    rw (read_varint-write_varint (length value) (value ++ rest) small)
      (ground (arith, length-append value rest, take-append value rest, drop-append value rest))

Writes-varint_written :
    (n v : ℕ)
    → IsNumber n
    → v < 2 ^ 70
    → Writes (tag n kind_varint ++ write_varint v) ((n, int v) ∷ [])
Writes-varint_written n v fits small = record {
  before = λ rest others h. rw append_assoc (
      fields-step _ (some (n, int v), rest) others
        (read_field-tag n kind_varint _ fits (omega arith) ∙ read_value_varint n v rest fits small)
        h);
}

abbrev pub varint_fields : ℕ → ℕ → List Field
varint_fields n v = if v == 0 then [] else (n, int v) ∷ []

pub Writes-varint :
    (n v : ℕ) → IsNumber n → v < 2 ^ 70 → Writes (Writer.varint n v) (varint_fields n v)
unfolding Writer.varint
Writes-varint n v fits small = elim (Bool-cases (v == 0)) [
  | inl z ↦ rw (z, Writer.varint) Writes-nil
  | inr nz ↦ rw (nz, Writer.varint) (Writes-varint_written n v fits small)
]

blob_written : ℕ → Bytes → Bytes
blob_written n value = tag n kind_length ++ (write_varint (length value) ++ value)

-- One length-delimited field, whatever its bytes.
Writes-blob_written :
    (n : ℕ) (value : Bytes)
    → IsNumber n
    → length value < 2 ^ 70
    → Writes (blob_written n value) ((n, blob value) ∷ [])
unfolding blob_written
Writes-blob_written n value fits small = record {
  before = λ rest others h.
      rw (append_assoc, append_assoc)
        (fields-step _ (some (n, blob value), rest) others
          (read_field-tag n kind_length _ fits (omega arith)
            ∙ read_value-blob n value rest fits small)
          h);
}

abbrev pub blob_fields : ℕ → Bytes → List Field
blob_fields n value = if is_nil value then [] else (n, blob value) ∷ []

pub Writes-blob :
    (n : ℕ) (value : Bytes)
    → IsNumber n
    → length value < 2 ^ 70
    → Writes (Writer.blob n value) (blob_fields n value)
unfolding Writer.blob blob_written
Writes-blob n [] fits small = Writes-nil
Writes-blob n (b ∷ bs) fits small = Writes-blob_written n (b ∷ bs) fits small

pub Writes-submessage :
    (n : ℕ) (body : Bytes)
    → IsNumber n
    → length body < 2 ^ 70
    → Writes (Writer.submessage n body) ((n, blob body) ∷ [])
unfolding Writer.submessage blob_written
Writes-submessage n body fits small = Writes-blob_written n body fits small

-- What was written, read from its first byte to its last.
pub Writes-fields : {bs : Bytes} {fs : List Field} → Writes bs fs → fields bs ≡ ok fs
unfolding fields
Writes-fields {bs} {fs} w = rw (append-nil bs, append-nil fs) at (w.before [] [] refl)
