-- ===== src/Archive/Cpio/Reader/Written.antt =====
-- What the `Writer` of archive/cpio.py appends to its file.
use tine.Base.{
  ℕ, zero, suc, ◌+◌, ◌≤◌, ◌<◌, min, ◌≡◌, refl, ap, ◌∙◌, List, [], ◌∷◌, ◌++◌, append-nil,
  append_assoc, Bytes, length, length-append, take, drop, Bool, arith,
}
use tine.Base.Text.{Text, encode}
use tine.Archive.Cpio.{
  Writer, magic, header_length, roundup, hex_fields, write, pad, name_size, header,
}
use tine.Archive.Cpio.Reader.{field}
use tine.Archive.Cpio.Reader.Shapes.{IsHead, named, head, length-head, nuls, front}

-- The writer is at the end of its file.
abbrev pub AtEnd : Writer → Type 0
AtEnd w = w.pos ≡ length w.out

take_beyond : (n : ℕ) (xs : Bytes) → length xs ≤ n → take n xs ≡ xs
take_beyond n [] h = take_nil n
  where
    take_nil : (n : ℕ) → take {A = ℕ} n [] ≡ []
    take_nil zero = refl
    take_nil (suc n) = refl
take_beyond zero (x ∷ xs) h = absurd (omega (arith, h))
take_beyond (suc n) (x ∷ xs) h = ap (◌∷◌ x) (take_beyond n xs (omega (arith, h)))

drop_beyond : (n : ℕ) (xs : Bytes) → length xs ≤ n → drop n xs ≡ []
drop_beyond zero [] h = refl
drop_beyond (suc n) [] h = refl
drop_beyond zero (x ∷ xs) h = absurd (omega (arith, h))
drop_beyond (suc n) (x ∷ xs) h = drop_beyond n xs (omega (arith, h))

-- A write at the end appends.
pub write-appends :
    (content : Bytes) (w : Writer) → AtEnd w → (write content w).out ≡ w.out ++ content
unfolding write
write-appends content w h =
    rw
      (
        take_beyond w.pos w.out (omega (arith, h)),
        drop_beyond (w.pos + length content) w.out (omega (arith, h)),
      )
      (ap (◌++◌ w.out) (append-nil content))

pub write-AtEnd : (content : Bytes) (w : Writer) → AtEnd w → AtEnd (write content w)
unfolding write
write-AtEnd content w h =
    omega (arith, h, ap length (write-appends content w h), length-append w.out content)

pub pad-appends : (w : Writer) → AtEnd w → (pad 4 w).out ≡ w.out ++ nuls w.pos
unfolding pad
pad-appends w h = write-appends (nuls w.pos) w h

pub pad-AtEnd : (w : Writer) → AtEnd w → AtEnd (pad 4 w)
unfolding pad
pad-AtEnd w h = write-AtEnd (nuls w.pos) w h

-- The fields of a header.
abbrev pub fields_for : Text → ℕ → ℕ → ℕ → Bool → Writer → List ℕ
fields_for name mode filesize mtime aligned w =
    suc w.ino
    ∷ mode
    ∷ 0
    ∷ 0
    ∷ 1
    ∷ min mtime w.epoch
    ∷ filesize
    ∷ 0
    ∷ 0
    ∷ 0
    ∷ 0
    ∷ name_size aligned w.pos (length (encode name))
    ∷ 0
    ∷ []

pub name_size-longer : (aligned : Bool) (pos raw : ℕ) → raw < name_size aligned pos raw
unfolding name_size roundup
name_size-longer aligned pos raw = ground arith

abbrev pub front_for : Text → ℕ → ℕ → ℕ → Bool → Writer → Bytes
front_for name mode filesize mtime aligned w =
    front w.pos (fields_for name mode filesize mtime aligned w) name

pub header-appends :
    (name : Text) (mode filesize mtime : ℕ) (aligned : Bool) (w : Writer)
    → AtEnd w
    → IsHead (fields_for name mode filesize mtime aligned w) name
    → (header name mode filesize mtime aligned w).out
      ≡ w.out ++ front_for name mode filesize mtime aligned w
unfolding header
header-appends name mode filesize mtime aligned w h k =
    let f = fields_for name mode filesize mtime aligned w in
    let w1 : Writer = record w { ino = suc w.ino } in
    let w2 = write (magic ++ hex_fields f) w1 in
    let w3 = write (named (field 11 f) name) w2 in
    let end2 = write-AtEnd (magic ++ hex_fields f) w1 h in
    let end3 = write-AtEnd (named (field 11 f) name) w2 end2 in
    let out2 = write-appends (magic ++ hex_fields f) w1 h in
    let out3 = write-appends (named (field 11 f) name) w2 end2 in
    let heads : w3.out ≡ w.out ++ head f name =
      out3
      ∙ ap (λ bs. bs ++ named (field 11 f) name) out2
      ∙ append_assoc w.out (magic ++ hex_fields f) (named (field 11 f) name) in
    let at : w3.pos ≡ w.pos + header_length + field 11 f =
      omega (
        arith,
        end3,
        h,
        ap length heads,
        length-append w.out (head f name),
        length-head f name k,
      ) in
    pad-appends w3 end3
    ∙ ap (λ bs. bs ++ nuls w3.pos) heads
    ∙ append_assoc w.out (head f name) (nuls w3.pos)
    ∙ ap (λ n. w.out ++ (head f name ++ nuls n)) at

pub header-AtEnd :
    (name : Text) (mode filesize mtime : ℕ) (aligned : Bool) (w : Writer)
    → AtEnd w
    → AtEnd (header name mode filesize mtime aligned w)
unfolding header
header-AtEnd name mode filesize mtime aligned w h =
    let f = fields_for name mode filesize mtime aligned w in
    let w1 : Writer = record w { ino = suc w.ino } in
    let w2 = write (magic ++ hex_fields f) w1 in
    pad-AtEnd (write (named (field 11 f) name) w2)
      (write-AtEnd (named (field 11 f) name) w2 (write-AtEnd (magic ++ hex_fields f) w1 h))
