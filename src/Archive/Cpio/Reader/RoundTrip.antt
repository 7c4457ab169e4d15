-- ===== src/Archive/Cpio/Reader/RoundTrip.antt =====
-- archive/cpio.py: `read` yields what the `Writer` was given.
use tine.Base.{
  ℕ, zero, suc, ◌+◌, ◌≤◌, ◌<◌, ◌≡◌, refl, sym, ap, ◌∙◌, List, [], ◌∷◌, ◌++◌, append_assoc, Bytes,
  length, length-append, take, drop, take-append_of, drop-append_of, true, arith,
}
use tine.Archive.Cpio.{Writer, trailer, header_length, roundup, close}
use tine.Archive.Cpio.Reader.{Ending, field, behind, yield_entry, read_in, read}
use tine.Archive.Cpio.Reader.Shapes.{
  head, nuls, front, length-front, tail, length-tail, entry_of, read_head, read_record,
}
use tine.Archive.Cpio.Reader.Written.{AtEnd}
use tine.Archive.Cpio.Reader.Members.{
  Member, add, add_all, name_of, payload_of, fields_of, IsStorable, AreStorable, entries_of,
  storable-IsHead, record_of, add-appends, add-AtEnd,
}
use tine.Archive.Cpio.Reader.Close.{trailer_fields, trailer-IsHead, archive, close-archive}

field-payload : (m : Member) (w : Writer) → field 6 (fields_of m w) ≡ length (payload_of m)
field-payload (Member.directory name mode mtime) w = refl
field-payload (Member.symlink name target mtime) w = refl
field-payload (Member.file name content mode mtime) w = refl

add-pos :
    (m : Member) (w : Writer)
    → AtEnd w
    → IsStorable m w
    → (add m w).pos ≡ behind w.pos (fields_of m w)
add-pos m w h k =
    let f = fields_of m w in
    let first = front w.pos f (name_of m) in
    let last = tail w.pos f (payload_of m) in
    omega (
      arith,
      h,
      add-AtEnd m w h,
      ap length (add-appends m w h k),
      length-append w.out (record_of m w),
      length-append first last,
      length-front w.pos f (name_of m) (storable-IsHead m w k),
      length-tail w.pos f (payload_of m) (field-payload m w),
    )

read-archive :
    (start rounds : ℕ) (members : List Member) (w : Writer)
    → AtEnd w
    → AreStorable members w
    → length members < rounds
    → read_in start rounds w.pos (archive members w)
      ≡ record { entries = entries_of start members w; ending = Ending.complete }
read-archive start zero members w h s n = absurd (omega (arith, n))
read-archive start (suc rounds) [] w h s n =
    read_head start rounds w.pos trailer_fields trailer (nuls (w.pos + header_length + 11))
      trailer-IsHead
read-archive start (suc rounds) (m ∷ members) w h s n =
    let f = fields_of m w in
    let later =
      read-archive start rounds members (add m w) (add-AtEnd m w h) s.1 (omega (arith, n)) in
    read_record start rounds w.pos f (name_of m) (payload_of m) (archive members (add m w))
      (storable-IsHead m w s.0) s.0.other (field-payload m w)
    ∙ ap
        (λ p.
          yield_entry (entry_of start w.pos f (name_of m) (payload_of m))
            (read_in start rounds p (archive members (add m w))))
        (sym (add-pos m w h s.0))
    ∙ ap (yield_entry (entry_of start w.pos f (name_of m) (payload_of m))) later

archive-longer : (members : List Member) (w : Writer) → length members ≤ length (archive members w)
archive-longer [] w = omega arith
archive-longer (m ∷ members) w =
    let f = fields_of m w in
    let rest = archive members (add m w) in
    omega (
      arith,
      archive-longer members (add m w),
      length-append (front w.pos f (name_of m)) (tail w.pos f (payload_of m) ++ rest),
      length-append (tail w.pos f (payload_of m)) rest,
      length-append (head f (name_of m)) (nuls (w.pos + header_length + field 11 f)),
    )

-- The payload of each member stands in these bytes where its entry says.
abbrev pub AreCarried : Bytes → List Member → Writer → Type 0
AreCarried bytes [] w = Unit
AreCarried bytes (m ∷ members) w =
    (take (length (payload_of m))
        (drop (roundup (w.pos + header_length + field 11 (fields_of m w)) 4) bytes)
      ≡ payload_of m)
    × AreCarried bytes members (add m w)

payload-carried :
    (m : Member) (w : Writer) (more : Bytes)
    → AtEnd w
    → IsStorable m w
    → take (length (payload_of m)) (
        drop (roundup (w.pos + header_length + field 11 (fields_of m w)) 4) (
          w.out
          ++ (front w.pos (fields_of m w) (name_of m)
              ++ (tail w.pos (fields_of m w) (payload_of m) ++ more))))
      ≡ payload_of m
payload-carried m w more h k =
    let f = fields_of m w in
    let first = front w.pos f (name_of m) in
    let at = roundup (w.pos + header_length + field 11 f) 4 in
    let end = nuls (at + length (payload_of m)) in
    let rest = tail w.pos f (payload_of m) ++ more in
    let reached : length (w.out ++ first) ≡ at = omega (
      arith,
      h,
      length-append w.out first,
      length-front w.pos f (name_of m) (storable-IsHead m w k),
    ) in
    ap (λ bs. take (length (payload_of m)) (drop at bs)) (sym (append_assoc w.out first rest))
    ∙ ap (take (length (payload_of m))) (drop-append_of at (w.out ++ first) rest reached)
    ∙ ap (take (length (payload_of m))) (append_assoc (payload_of m) end more)
    ∙ take-append_of (length (payload_of m)) (payload_of m) (end ++ more) refl

archive-AreCarried :
    (bytes : Bytes) (members : List Member) (w : Writer)
    → AtEnd w
    → AreStorable members w
    → bytes ≡ w.out ++ archive members w
    → AreCarried bytes members w
archive-AreCarried bytes [] w h s same = tt
archive-AreCarried bytes (m ∷ members) w h s same =
    let f = fields_of m w in
    let others = archive members (add m w) in
    let first = front w.pos f (name_of m) in
    let last = tail w.pos f (payload_of m) in
    let grown : bytes ≡ (add m w).out ++ others =
      same
      ∙ ap (◌++◌ w.out) (sym (append_assoc first last others))
      ∙ sym (append_assoc w.out (record_of m w) others)
      ∙ ap (λ bs. bs ++ others) (sym (add-appends m w h s.0)) in
    (
      ap
            (λ bs.
              take (length (payload_of m))
                (drop (roundup (w.pos + header_length + field 11 f) 4) bs))
            same
          ∙ payload-carried m w others h s.0,
      archive-AreCarried bytes members (add m w) (add-AtEnd m w h) s.1 grown,
    )

-- From the bytes of a closed archive, `read` yields an entry for each member, in their order, with the inode, the
-- mode, the name and the size that were written and a symlink's target, and ends at the trailer; and the payload
-- of each member stands where its entry says. The names have no NUL and are not the trailer's, and the fields fit
-- their eight digits.
pub read-close :
    (start : ℕ) (members : List Member) (w : Writer)
    → w.out ≡ []
    → w.pos ≡ 0
    → w.is_open ≡ true
    → AreStorable members w
    → (read start (close (add_all members w)).out
        ≡ record { entries = entries_of start members w; ending = Ending.complete })
      × AreCarried (close (add_all members w)).out members w
unfolding read
read-close start members w empty at_start open_ s =
    let end : AtEnd w = at_start ∙ ap length (sym empty) in
    let whole = close-archive members w end open_ s in
    let bytes : (close (add_all members w)).out ≡ archive members w =
      whole ∙ ap (λ bs. bs ++ archive members w) empty in
    let rounds = suc (length (archive members w)) in
    (
      ap (read start) bytes
          ∙ ap (λ p. read_in start rounds p (archive members w)) (sym at_start)
          ∙ read-archive start rounds members w end s (omega (arith, archive-longer members w)),
      archive-AreCarried (close (add_all members w)).out members w end s whole,
    )
