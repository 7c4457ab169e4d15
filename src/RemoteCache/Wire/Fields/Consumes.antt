-- ===== src/RemoteCache/Wire/Fields/Consumes.antt =====
-- Every round of `fields` takes bytes, so the input's length is fuel enough.
use tine.Base.{
  ℕ, ◌+◌, ◌*◌, ◌^◌, bit_and, bit_or, ◌≤◌, ◌<◌, ◌≡◌, ◌≢◌, none, some, List, Option, [], ◌∷◌, Bytes,
  length, length-drop, inl, inr, arith,
}
use tine.RemoteCache.Outcome.{ok, err, no_fuel, Result-cases, >>=-eq-ok}
use tine.RemoteCache.ReadAll.{read_all, read_all-cons, read_all-ne-no_fuel}
use tine.RemoteCache.Wire.Varint.{read_varint, read_varint_from}
use tine.RemoteCache.Wire.Varint.Bounds.{read_varint-shrinks}
use tine.RemoteCache.Wire.Fields.{Field, skip, read_blob, read_value, read_field, yielded, fields}

skip-le :
    (n : ℕ) (bs : Bytes) (one : Option Field × Bytes)
    → skip n bs ≡ ok one
    → length one.1 ≤ length bs
unfolding skip
skip-le n bs one h = ground (arith, length-drop n bs)

read_blob-le :
    (number n : ℕ) (bs : Bytes) (one : Option Field × Bytes)
    → read_blob number n bs ≡ ok one
    → length one.1 ≤ length bs
unfolding read_blob
read_blob-le number n bs one h = ground (arith, length-drop n bs)

read_value-le :
    (number kind : ℕ) (bs : Bytes) (one : Option Field × Bytes)
    → read_value number kind bs ≡ ok one
    → length one.1 ≤ length bs
unfolding read_value
read_value-le number kind bs one h = elim (Result-cases (read_varint bs)) [
  | inl (v, e) ↦ ground (
    arith,
    read_varint-shrinks bs v.0 v.1 e,
    skip-le 8 bs one,
    skip-le 4 bs one,
    read_blob-le number v.0 v.1 one,
  )
  | inr (why, e) ↦ ground (arith, e, skip-le 8 bs one, skip-le 4 bs one)
]

pub read_field-shrinks :
    (bs : Bytes) (one : Option Field × Bytes) → read_field bs ≡ ok one → length one.1 < length bs
unfolding read_field
read_field-shrinks bs one h =
    let (tag, t, k) = >>=-eq-ok (read_varint bs) _ h in
    omega (arith, read_varint-shrinks bs tag.0 tag.1 t, read_value-le _ _ tag.1 one k)

abbrev pub kept : Option Field → List Field → List Field
kept none others = others
kept (some field) others = field ∷ others

yielded_cons :
    (first : Option Field) (rest : List (Option Field)) {others : List Field}
    → ok (yielded rest) ≡ ok others
    → ok (yielded (first ∷ rest)) ≡ ok (kept first others)
yielded_cons none rest h = h
yielded_cons (some field) rest h = ground arith

-- A message that starts with a field is that field and the message behind it.
pub fields-step :
    (bs : Bytes) (one : Option Field × Bytes) (others : List Field)
    → read_field bs ≡ ok one
    → fields one.1 ≡ ok others
    → fields bs ≡ ok (kept one.0 others)
unfolding fields
fields-step [] one others h k = let less = read_field-shrinks [] one h in absurd (omega arith)
fields-step (b ∷ bs) one others h k =
    let (rest, e, y) = >>=-eq-ok (read_all read_field one.1) _ k in
    rw (read_all-cons read_field read_field-shrinks b bs, h, e) (yielded_cons one.0 rest y)

read_varint_from-ne-no_fuel : (acc s : ℕ) (bs : Bytes) → read_varint_from acc s bs ≢ err no_fuel
unfolding read_varint_from
read_varint_from-ne-no_fuel acc s [] h = cc
read_varint_from-ne-no_fuel acc s (b ∷ bs) h =
    let acc' = bit_or acc (bit_and b 0x7f * 2 ^ s) in
    ground (arith, read_varint_from-ne-no_fuel acc' (s + 7) bs)

pub read_varint-ne-no_fuel : (bs : Bytes) → read_varint bs ≢ err no_fuel
unfolding read_varint
read_varint-ne-no_fuel = read_varint_from-ne-no_fuel 0 0

read_value-ne-no_fuel : (number kind : ℕ) (bs : Bytes) → read_value number kind bs ≢ err no_fuel
unfolding read_value skip read_blob
read_value-ne-no_fuel number kind bs h = ground (arith, read_varint-ne-no_fuel bs)

read_field-ne-no_fuel : (bs : Bytes) → read_field bs ≢ err no_fuel
unfolding read_field
read_field-ne-no_fuel bs h = elim (Result-cases (read_varint bs)) [
  | inl (tag, e) ↦ read_value-ne-no_fuel _ _ tag.1 (rw e at h)
  | inr (why, e) ↦ read_varint-ne-no_fuel bs (cc)
]

-- The loop of `fields` ends on every input: it never runs out of rounds.
pub fields-ne-no_fuel : (bs : Bytes) → fields bs ≢ err no_fuel
unfolding fields
fields-ne-no_fuel bs h =
    let fine = read_all-ne-no_fuel read_field read_field-shrinks read_field-ne-no_fuel bs in
    elim (Result-cases (read_all read_field bs)) [
      | inl (rounds, e) ↦ ground (arith, e)
      | inr (why, e) ↦ ground (arith, e, fine)
    ]
