-- ===== src/Archive/Cpio/Reader/Shapes.antt =====
-- `read` of archive/cpio.py on a record of the shape that its `Writer` writes.
use tine.Base.{
  ℕ, zero, suc, ◌+◌, ◌-◌, ◌<◌, ◌≡◌, refl, sym, ap, ◌∙◌, some, List, [], ◌∷◌, ◌++◌, append_assoc,
  All, Bytes, length, replicate, length-append, length-replicate, take, drop, take-append_of,
  drop-append_of, same_bytes, same_bytes_refl, if◌then◌else◌, false, ◌==◌, arith,
}
use tine.Base.Text.{Text, encode, decode-encode, IsScalar}
use tine.Archive.Cpio.{magic, trailer, header_length, roundup, up_to, hex_fields}
use tine.Archive.Cpio.Alignment.{FitsField, length-hex_fields}
use tine.Archive.Cpio.Reader.{
  Entry, Reading, numbers, field, before_nul, strict, is_symlink, entry_at, behind, yield_entry,
  read_named, read_fields, read_in,
}
use tine.Archive.Cpio.Reader.Numbers.{numbers-hex_fields}

-- A name that can stand in front of a NUL.
pub record IsName (name : Text) : Type 0 where
  pub scalars : All IsScalar name
  pub no_nul : All (λ (b : ℕ). (b == 0) ≡ false) (encode name)

strict-encode : (name : Text) → All IsScalar name → strict (encode name) ≡ some name
strict-encode name h = rw (decode-encode name h, same_bytes_refl (encode name))

before_nul-padded :
    (raw : Bytes) (k : ℕ)
    → All (λ (b : ℕ). (b == 0) ≡ false) raw
    → 0 < k
    → before_nul (raw ++ replicate k 0) ≡ raw
unfolding before_nul
before_nul-padded [] zero h k = absurd (omega (arith, k))
before_nul-padded [] (suc n) h k = refl
before_nul-padded (b ∷ raw) n h k = rw (h.0, before_nul-padded raw n h.1 k)

-- The name's field: the name, filled up with NULs.
abbrev pub named : ℕ → Text → Bytes
named size name = encode name ++ replicate (size - length (encode name)) 0

pub length-named :
    (size : ℕ) (name : Text) → length (encode name) < size → length (named size name) ≡ size
length-named size name h = omega (
  arith,
  h,
  length-append (encode name) (replicate (size - length (encode name)) 0),
  length-replicate {A = ℕ} (size - length (encode name)) 0,
)

-- What a header that can be read says.
pub record IsHead (f : List ℕ) (name : Text) : Type 0 where
  pub count : length f ≡ 13
  pub fits : All FitsField f
  pub is_name : IsName name
  pub longer : length (encode name) < field 11 f

abbrev pub head : List ℕ → Text → Bytes
head f name = (magic ++ hex_fields f) ++ named (field 11 f) name

pub length-head :
    (f : List ℕ) (name : Text) → IsHead f name → length (head f name) ≡ header_length + field 11 f
length-head f name h = omega (
  arith,
  length-append (magic ++ hex_fields f) (named (field 11 f) name),
  length-append magic (hex_fields f),
  length-hex_fields f h.fits,
  length-named (field 11 f) name h.longer,
  h.count,
)

pub read_head :
    (start rounds pos : ℕ) (f : List ℕ) (name : Text) (more : Bytes)
    → IsHead f name
    → read_in start (suc rounds) pos (head f name ++ more)
      ≡ read_named start pos (head f name ++ more) f (some name) (read_in start rounds)
unfolding read_in
read_head start rounds pos f name more h =
    let source = head f name ++ more in
    let after : Bytes = named (field 11 f) name ++ more in
    let wide : length (hex_fields f) ≡ 104 = omega (arith, length-hex_fields f h.fits, h.count) in
    let fields_read : numbers 13 (drop 6 source) ≡ some f =
      ap (numbers 13) (append_assoc (hex_fields f) (named (field 11 f) name) more)
      ∙ ap (λ n. numbers n (hex_fields f ++ after)) (sym h.count)
      ∙ numbers-hex_fields f after h.fits in
    let field_read : take (field 11 f) (drop header_length source) ≡ named (field 11 f) name =
      ap (λ bs. take (field 11 f) (drop 104 bs))
        (append_assoc (hex_fields f) (named (field 11 f) name) more)
      ∙ ap (take (field 11 f)) (drop-append_of 104 (hex_fields f) after wide)
      ∙ take-append_of (field 11 f) (named (field 11 f) name) more
          (length-named (field 11 f) name h.longer) in
    let name_read : strict (before_nul (take (field 11 f) (drop header_length source)))
        ≡ some name =
      ap (λ bs. strict (before_nul bs)) field_read
      ∙ ap strict (
          before_nul-padded (encode name) (field 11 f - length (encode name)) h.is_name.no_nul
            (omega (arith, h.longer)))
      ∙ strict-encode name h.is_name.scalars in
    ap (λ o. read_fields start pos source o (read_in start rounds)) fields_read
    ∙ ap (λ o. read_named start pos source f o (read_in start rounds)) name_read

-- NULs up to the next multiple of four.
abbrev pub nuls : ℕ → Bytes
nuls pos = replicate (up_to pos 4) 0

-- A record at a position.
abbrev pub front : ℕ → List ℕ → Text → Bytes
front pos f name = head f name ++ nuls (pos + header_length + field 11 f)

abbrev pub tail : ℕ → List ℕ → Bytes → Bytes
tail pos f payload = payload ++ nuls (roundup (pos + header_length + field 11 f) 4 + length payload)

-- What is yielded for it.
abbrev pub entry_of : ℕ → ℕ → List ℕ → Text → Bytes → Entry
entry_of start pos f name payload = record {
  ino = field 0 f;
  mode = field 1 f;
  nlink = field 4 f;
  devmajor = field 7 f;
  devminor = field 8 f;
  name = name;
  size = field 6 f;
  data_off = start + roundup (pos + header_length + field 11 f) 4;
  target = if is_symlink (field 1 f) then payload else [];
}

pub length-front :
    (pos : ℕ) (f : List ℕ) (name : Text)
    → IsHead f name
    → pos + length (front pos f name) ≡ roundup (pos + header_length + field 11 f) 4
unfolding roundup
length-front pos f name h = omega (
  arith,
  length-head f name h,
  length-append (head f name) (nuls (pos + header_length + field 11 f)),
  length-replicate {A = ℕ} (up_to (pos + header_length + field 11 f) 4) 0,
)

pub length-tail :
    (pos : ℕ) (f : List ℕ) (payload : Bytes)
    → field 6 f ≡ length payload
    → roundup (pos + header_length + field 11 f) 4 + length (tail pos f payload) ≡ behind pos f
unfolding roundup
length-tail pos f payload h =
    let at = roundup (pos + header_length + field 11 f) 4 in
    let counted : length (tail pos f payload) ≡ length payload + up_to (at + length payload) 4 =
      length-append payload (nuls (at + length payload))
      ∙ ap (λ n. length payload + n) (length-replicate (up_to (at + length payload) 4) 0) in
    let whole : roundup (at + field 6 f) 4 ≡ at + length payload + up_to (at + length payload) 4 =
      ap (λ n. at + n + up_to (at + n) 4) h in
    ap (λ n. at + n) counted ∙ omega arith ∙ sym whole

read_named-on :
    (start pos : ℕ) (source : Bytes) (f : List ℕ) (name : Text) (rest : ℕ → Bytes → Reading)
    → same_bytes name trailer ≡ false
    → read_named start pos source f (some name) rest
      ≡ yield_entry
          (entry_at start pos source f name)
          (rest (behind pos f) (drop (behind pos f - pos) source))
read_named-on start pos source f name rest h = rw h

pub read_record :
    (start rounds pos : ℕ) (f : List ℕ) (name : Text) (payload more : Bytes)
    → IsHead f name
    → same_bytes name trailer ≡ false
    → field 6 f ≡ length payload
    → read_in start (suc rounds) pos (front pos f name ++ (tail pos f payload ++ more))
      ≡ yield_entry (entry_of start pos f name payload) (read_in start rounds (behind pos f) more)
read_record start rounds pos f name payload more h other size =
    let gap = nuls (pos + header_length + field 11 f) in
    let end = nuls (roundup (pos + header_length + field 11 f) 4 + length payload) in
    let data_at = roundup (pos + header_length + field 11 f) 4 in
    let source = front pos f name ++ (tail pos f payload ++ more) in
    let split : source ≡ head f name ++ (gap ++ (tail pos f payload ++ more)) =
      append_assoc (head f name) gap (tail pos f payload ++ more) in
    let in_front : length (front pos f name) ≡ data_at - pos =
      omega (arith, length-front pos f name h) in
    let whole : length (front pos f name ++ tail pos f payload) ≡ behind pos f - pos = omega (
      arith,
      length-front pos f name h,
      length-tail pos f payload size,
      length-append (front pos f name) (tail pos f payload),
    ) in
    let at_payload : drop (data_at - pos) source ≡ tail pos f payload ++ more =
      drop-append_of (data_at - pos) (front pos f name) (tail pos f payload ++ more) in_front in
    let payload_read : take (field 6 f) (drop (data_at - pos) source) ≡ payload =
      ap (take (field 6 f)) (at_payload ∙ append_assoc payload end more)
      ∙ take-append_of (field 6 f) payload (end ++ more) (sym size) in
    let on : drop (behind pos f - pos) source ≡ more =
      ap (drop (behind pos f - pos))
        (sym (append_assoc (front pos f name) (tail pos f payload) more))
      ∙ drop-append_of (behind pos f - pos) (front pos f name ++ tail pos f payload) more whole in
    let rest = read_in start rounds in
    ap (read_in start (suc rounds) pos) split
    ∙ read_head start rounds pos f name (gap ++ (tail pos f payload ++ more)) h
    ∙ ap (λ bs. read_named start pos bs f (some name) rest) (sym split)
    ∙ read_named-on start pos source f name rest other
    ∙ ap
        (λ bs.
          yield_entry (entry_of start pos f name bs)
            (rest (behind pos f) (drop (behind pos f - pos) source)))
        payload_read
    ∙ ap (λ bs. yield_entry (entry_of start pos f name payload) (rest (behind pos f) bs)) on
