-- ===== src/RemoteCache/Bundle/RoundTrip.antt =====
-- Bundles unpack to what was packed, and whatever unpacks was packed so.
use tine.Base.{
  ℕ, ◌^◌, ◌≤◌, ◌<◌, ◌≡◌, refl, sym, ap, subst, ◌∙◌, false, List, [], ◌∷◌, ◌++◌, append_assoc, Bytes,
  All, length, take, drop, length-append, length-drop, All-take, All-drop, All-append_right,
  take-append, drop-append, take-append-drop, length-take_le, drop-drop, take-append_of,
  drop-append_of, same_bytes, same_bytes→eq, same_bytes_refl, le→ltb_false, ltb_false→le, ltb,
  arith, inl, inr, Bool-cases,
}
use tine.Base.Struct.{
  big_endian, from_big_endian, fixed_width, fixed_width-length, length-big_endian,
  from_big_endian-big_endian, big_endian-from_big_endian, AreBytes,
}
use tine.Base.Text.{Text, encode}
use tine.RemoteCache.Outcome.{ok, then_raise-eq-ok, else_raise-eq-ok}
use tine.RemoteCache.ReadAll.{read_all, Takes, read_all-step, read_all_induction}
use tine.RemoteCache.Bundle.{
  text_le, pack_member, insert_sorted, sorted_items, pack_in_order, pack, check_member,
  unpack_member, unpack, header_size,
}

module _ (sha256 : Bytes → Text) where
  -- A blob under its own hash, whose hash takes the header's field up and whose size fits.
  pub record IsMember (one : Text × Bytes) : Type 0 where
    pub hashes : one.0 ≡ sha256 one.1
    pub width : length (encode one.0) ≡ 64
    pub fits : length one.1 < 2 ^ 64

  check_member_written :
      (blob rest : Bytes)
      → check_member sha256 (encode (sha256 blob)) (length blob) (blob ++ rest)
        ≡ ok ((sha256 blob, blob), rest)
  unfolding check_member
  check_member_written blob rest =
      rw (take-append blob rest, drop-append blob rest, same_bytes_refl (encode (sha256 blob)))
        (ground (arith, length-append blob rest))

  -- A header's two fields and the blob, each of its length.
  unpack_member_parts :
      (name size blob rest : Bytes)
      → length name ≡ 64
      → length size ≡ 8
      → from_big_endian 0 size ≡ length blob
      → name ≡ encode (sha256 blob)
      → unpack_member sha256 (name ++ (size ++ (blob ++ rest))) ≡ ok ((sha256 blob, blob), rest)
  unfolding unpack_member
  unpack_member_parts name size blob rest n z f e =
      let tail = size ++ (blob ++ rest) in
      let whole = name ++ tail in
      let field : take 64 whole ≡ name = take-append_of 64 name _ n in
      let sizes : take 8 (drop 64 whole) ≡ size =
        rw (drop-append_of 64 name tail n) (take-append_of 8 size _ z) in
      let behind : drop header_size whole ≡ blob ++ rest =
        sym (drop-drop 8 64 whole)
        ∙ rw (drop-append_of 64 name tail n) (drop-append_of 8 size _ z) in
      let long : ltb (length whole) header_size ≡ false =
        le→ltb_false (length whole) header_size
          (omega (arith, length-append name tail, length-append size (blob ++ rest))) in
      rw (long, field, sizes, behind, f, e) (check_member_written blob rest)

  unpack_member-pack_member :
      (one : Text × Bytes) (rest : Bytes)
      → IsMember one
      → unpack_member sha256 (pack_member one ++ rest) ≡ ok (one, rest)
  unfolding pack_member
  unpack_member-pack_member (name, blob) rest m =
      let n = encode name in
      let z = big_endian 8 (length blob) in
      let packed : fixed_width 64 n ≡ n = rw (← m.width) (fixed_width-length n) in
      rw (packed, append_assoc n (z ++ blob) rest, append_assoc z blob rest)
        (unpack_member_parts n z blob rest m.width (length-big_endian 8 (length blob))
            (from_big_endian-big_endian 8 (length blob) m.fits) (ap encode m.hashes)
          ∙ ap (λ (h : Text). ok ((h, blob), rest)) (sym m.hashes))

  -- What a blob behind a header was checked against.
  check_member-eq-ok :
      (name : Bytes) (size : ℕ) (behind : Bytes) (one : (Text × Bytes) × Bytes)
      → check_member sha256 name size behind ≡ ok one
      → (name ≡ encode one.0.0)
        × (one.0.0 ≡ sha256 one.0.1)
        × (behind ≡ one.0.1 ++ one.1)
        × (length one.0.1 ≡ size)
  unfolding check_member
  check_member-eq-ok name size behind one h =
      let blob = take size behind in
      let (long, h') = then_raise-eq-ok _ (ltb (length behind) size) _ h in
      let (same, h'') = else_raise-eq-ok _ (same_bytes (encode (sha256 blob)) name) _ h' in
      let e : one ≡ ((sha256 blob, blob), drop size behind) = cc in
      rw e (
        sym (same_bytes→eq _ _ same),
        refl,
        sym (take-append-drop size behind),
        length-take_le size behind (ltb_false→le _ _ long),
      )

  unpack_member-eq-ok :
      (bs : Bytes) (one : (Text × Bytes) × Bytes)
      → unpack_member sha256 bs ≡ ok one
      → (header_size ≤ length bs)
        × (check_member sha256
              (take 64 bs)
              (from_big_endian 0 (take 8 (drop 64 bs)))
              (drop header_size bs)
            ≡ ok one)
  unfolding unpack_member
  unpack_member-eq-ok bs one h =
      let (long, h') = then_raise-eq-ok _ (ltb (length bs) header_size) _ h in
      (ltb_false→le (length bs) header_size long, h')

  -- A round of reading takes a header at least.
  unpack_member-Takes : Takes (unpack_member sha256)
  unpack_member-Takes bs one h =
      let (long, h') = unpack_member-eq-ok bs one h in
      let (name, hash, split, size) = check_member-eq-ok _ _ _ one h' in
      omega
        (arith, ap (length {A = ℕ}) split, length-append one.0.1 one.1, length-drop header_size bs)

  unpack-pack_in_order :
      (ms : List (Text × Bytes)) → All IsMember ms → unpack sha256 (pack_in_order ms) ≡ ok ms
  unfolding unpack pack_in_order
  unpack-pack_in_order [] h = unfold read_all in refl
  unpack-pack_in_order (one ∷ ms) h =
      read_all-step (unpack_member sha256) unpack_member-Takes (pack_in_order (one ∷ ms))
        (one, pack_in_order ms) (unpack_member-pack_member one (pack_in_order ms) h.0)
        (unpack-pack_in_order ms h.1)

  All-insert_sorted :
      (one : Text × Bytes) (ms : List (Text × Bytes))
      → IsMember one
      → All IsMember ms
      → All IsMember (insert_sorted one ms)
  unfolding insert_sorted
  All-insert_sorted one [] m h = (m, tt)
  All-insert_sorted one (other ∷ ms) m h = elim (Bool-cases (text_le one.0 other.0)) [
    | inl e ↦ rw e (m, h)
    | inr e ↦ rw e (h.0, All-insert_sorted one ms m h.1)
  ]

  All-sorted_items : (ms : List (Text × Bytes)) → All IsMember ms → All IsMember (sorted_items ms)
  unfolding sorted_items
  All-sorted_items [] h = tt
  All-sorted_items (one ∷ ms) h =
      All-insert_sorted one (sorted_items ms) h.0 (All-sorted_items ms h.1)

  -- A bundle of blobs, each under its own hash, unpacks to all of them, in the order of their names.
  pub unpack-pack :
      (blobs : List (Text × Bytes))
      → All IsMember blobs
      → unpack sha256 (pack blobs) ≡ ok (sorted_items blobs)
  unfolding pack
  unpack-pack blobs h = unpack-pack_in_order (sorted_items blobs) (All-sorted_items blobs h)

  abbrev pub IsHashed : Text × Bytes → Type 0
  IsHashed one = one.0 ≡ sha256 one.1

  abbrev IsPacked : Bytes → List (Text × Bytes) → Type 0
  IsPacked bs ms = AreBytes bs → (bs ≡ pack_in_order ms) × All IsHashed ms

  -- The header of a member, from its two fields.
  header_of :
      (n s behind : Bytes) (one : Text × Bytes) (rest : Bytes)
      → length n ≡ 64
      → length s ≡ 8
      → AreBytes s
      → n ≡ encode one.0
      → length one.1 ≡ from_big_endian 0 s
      → behind ≡ one.1 ++ rest
      → n ++ (s ++ behind) ≡ pack_member one ++ rest
  unfolding pack_member
  header_of n s behind (name, blob) rest ln ls a e size split =
      let field : fixed_width 64 (encode name) ≡ n = rw (← e, ← ln) (fixed_width-length n) in
      let sizes : big_endian 8 (length blob) ≡ s = rw size (
        subst (λ (k : ℕ). big_endian k (from_big_endian 0 s) ≡ s) ls
          (big_endian-from_big_endian s a)) in
      cc (field, sizes, split, append_assoc n (s ++ blob) rest, append_assoc s blob rest)

  -- The bytes of a round are the member's, packed, and those behind.
  unpack_member-packed :
      (bs : Bytes) (one : (Text × Bytes) × Bytes)
      → AreBytes bs
      → unpack_member sha256 bs ≡ ok one
      → (bs ≡ pack_member one.0 ++ one.1) × IsHashed one.0 × AreBytes one.1
  unpack_member-packed bs one a h =
      let (long, h') = unpack_member-eq-ok bs one h in
      let (name, hash, split, size) = check_member-eq-ok _ _ _ one h' in
      let after = drop 64 bs in
      let sizes = take 8 after in
      let behind : drop 8 after ≡ one.0.1 ++ one.1 = drop-drop 8 64 bs ∙ split in
      let width : length (take 64 bs) ≡ 64 = length-take_le 64 bs (omega arith) in
      let long' : 8 ≤ length after = omega (arith, length-drop 64 bs) in
      let are : AreBytes after = All-drop (λ (b : ℕ). b < 256) 64 bs a in
      let left : AreBytes (one.0.1 ++ one.1) =
        subst AreBytes split (All-drop (λ (b : ℕ). b < 256) header_size bs a) in
      (
        sym (take-append-drop 64 bs)
            ∙ ap (◌++◌ (take 64 bs)) (sym (take-append-drop 8 after))
            ∙ header_of (take 64 bs) sizes (drop 8 after) one.0 one.1 width
                (length-take_le 8 after long') (All-take (λ (b : ℕ). b < 256) 8 after are) name size
                behind,
        hash,
        All-append_right (λ (b : ℕ). b < 256) one.0.1 one.1 left,
      )

  -- Bytes that unpack are their members packed one after another, each under its own hash: framing
  -- reads a bundle in one way, and nothing in it goes unread.
  pub unpack-eq-ok :
      (bs : Bytes) (ms : List (Text × Bytes))
      → AreBytes bs
      → unpack sha256 bs ≡ ok ms
      → (bs ≡ pack_in_order ms) × All IsHashed ms
  unfolding unpack pack_in_order
  unpack-eq-ok bs ms a h =
      read_all_induction (unpack_member sha256) IsPacked (λ _. (refl, tt))
        (λ bs one others e ih a'.
          let (p, q, r) = unpack_member-packed bs one a' e in
          let (p', q') = ih r in (p ∙ ap (◌++◌ (pack_member one.0)) p', (q, q')))
        bs ms h a
