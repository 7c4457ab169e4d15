-- ===== src/Archive/Cpio/Reader/Members.antt =====
-- The members that the `Writer` of archive/cpio.py is given, and what each appends.
use tine.Base.{
  ℕ, ◌+◌, bit_or, ◌≡◌, refl, sym, ap, ◌∙◌, List, [], ◌∷◌, ◌++◌, append-nil, append_assoc, All,
  Bytes, length, replicate, length-append, Bool, false, ◌&&◌, leb, same_bytes, arith,
}
use tine.Base.Text.{Text, encode}
use tine.Archive.Cpio.{
  Writer, trailer, header_length, block, roundup, up_to, write, pad, permissions, header, add_dir,
  add_symlink, add_file,
}
use tine.Archive.Cpio.Alignment.{FitsField}
use tine.Archive.Cpio.Reader.{Entry, field}
use tine.Archive.Cpio.Reader.Shapes.{IsName, IsHead, nuls, front, length-front, tail, entry_of}
use tine.Archive.Cpio.Reader.Written.{
  AtEnd, write-appends, write-AtEnd, pad-appends, pad-AtEnd, fields_for, name_size-longer,
  front_for, header-appends, header-AtEnd,
}

-- What is added to an archive.
pub data Member : Type 0 where
  directory : Text → ℕ → ℕ → Member
  symlink : Text → Text → ℕ → Member
  file : Text → Bytes → ℕ → ℕ → Member

abbrev pub add : Member → Writer → Writer
add (Member.directory name mode mtime) w = add_dir name mode mtime w
add (Member.symlink name target mtime) w = add_symlink name target mtime w
add (Member.file name content mode mtime) w = add_file name content mode mtime w

abbrev pub add_all : List Member → Writer → Writer
add_all [] w = w
add_all (m ∷ members) w = add_all members (add m w)

abbrev pub name_of : Member → Text
name_of (Member.directory name mode mtime) = name
name_of (Member.symlink name target mtime) = name
name_of (Member.file name content mode mtime) = name

abbrev pub payload_of : Member → Bytes
payload_of (Member.directory name mode mtime) = []
payload_of (Member.symlink name target mtime) = encode target
payload_of (Member.file name content mode mtime) = content

-- The fields of its header.
abbrev pub fields_of : Member → Writer → List ℕ
fields_of (Member.directory name mode mtime) w =
    fields_for name (bit_or 0o040000 (permissions mode)) 0 mtime false w
fields_of (Member.symlink name target mtime) w =
    fields_for name (bit_or 0o120000 0o777) (length (encode target)) mtime false w
fields_of (Member.file name content mode mtime) w =
    fields_for name (bit_or 0o100000 (permissions mode)) (length content) mtime
      (w.block_align && leb block (length content)) w

-- Its fields have eight digits, its name has no NUL and is not that of the trailer.
pub record IsStorable (m : Member) (w : Writer) : Type 0 where
  pub fits : All FitsField (fields_of m w)
  pub is_name : IsName (name_of m)
  pub other : same_bytes (name_of m) trailer ≡ false

abbrev pub AreStorable : List Member → Writer → Type 0
AreStorable [] w = Unit
AreStorable (m ∷ members) w = IsStorable m w × AreStorable members (add m w)

-- What is to be read.
abbrev pub entries_of : ℕ → List Member → Writer → List Entry
entries_of start [] w = []
entries_of start (m ∷ members) w =
    entry_of start w.pos (fields_of m w) (name_of m) (payload_of m)
    ∷ entries_of start members (add m w)

pub storable-IsHead :
    (m : Member) (w : Writer) → IsStorable m w → IsHead (fields_of m w) (name_of m)
storable-IsHead (Member.directory name mode mtime) w h = record {
  count = refl;
  fits = h.fits;
  is_name = h.is_name;
  longer = name_size-longer _ _ _;
}
storable-IsHead (Member.symlink name target mtime) w h = record {
  count = refl;
  fits = h.fits;
  is_name = h.is_name;
  longer = name_size-longer _ _ _;
}
storable-IsHead (Member.file name content mode mtime) w h = record {
  count = refl;
  fits = h.fits;
  is_name = h.is_name;
  longer = name_size-longer _ _ _;
}

-- The record of a member.
abbrev pub record_of : Member → Writer → Bytes
record_of m w = front w.pos (fields_of m w) (name_of m) ++ tail w.pos (fields_of m w) (payload_of m)

-- A header, its payload and the NULs behind it.
payload-appends :
    (name : Text) (payload : Bytes) (mode mtime : ℕ) (aligned : Bool) (w : Writer)
    → AtEnd w
    → IsHead (fields_for name mode (length payload) mtime aligned w) name
    → (pad 4 (write payload (header name mode (length payload) mtime aligned w))).out
      ≡ w.out
        ++ (front_for name mode (length payload) mtime aligned w
            ++ tail w.pos (fields_for name mode (length payload) mtime aligned w) payload)
payload-appends name payload mode mtime aligned w h k =
    let f = fields_for name mode (length payload) mtime aligned w in
    let w1 = header name mode (length payload) mtime aligned w in
    let w2 = write payload w1 in
    let end1 = header-AtEnd name mode (length payload) mtime aligned w h in
    let end2 = write-AtEnd payload w1 end1 in
    let out1 = header-appends name mode (length payload) mtime aligned w h k in
    let out2 = write-appends payload w1 end1 in
    let at : w2.pos ≡ roundup (w.pos + header_length + field 11 f) 4 + length payload = omega (
      arith,
      end1,
      end2,
      h,
      ap length out1,
      ap length out2,
      length-append w.out (front w.pos f name),
      length-append w1.out payload,
      length-front w.pos f name k,
    ) in
    pad-appends w2 end2
    ∙ ap (λ bs. bs ++ nuls w2.pos) (out2 ∙ ap (λ bs. bs ++ payload) out1)
    ∙ ap (λ n. ((w.out ++ front w.pos f name) ++ payload) ++ nuls n) at
    ∙ append_assoc (w.out ++ front w.pos f name) payload _
    ∙ append_assoc w.out (front w.pos f name) (tail w.pos f payload)

roundup_twice : (n : ℕ) → up_to (roundup n 4 + 0) 4 ≡ 0
unfolding roundup
roundup_twice n = ground arith

pub add-appends :
    (m : Member) (w : Writer) → AtEnd w → IsStorable m w → (add m w).out ≡ w.out ++ record_of m w
unfolding add_dir add_symlink add_file
add-appends (Member.directory name mode mtime) w h k =
    let f = fields_of (Member.directory name mode mtime) w in
    let whole = storable-IsHead (Member.directory name mode mtime) w k in
    header-appends name (bit_or 0o040000 (permissions mode)) 0 mtime false w h whole
    ∙ ap (◌++◌ w.out) (sym (append-nil (front w.pos f name)))
    ∙ ap (λ n. w.out ++ (front w.pos f name ++ replicate n 0))
        (sym (roundup_twice (w.pos + header_length + field 11 f)))
add-appends (Member.symlink name target mtime) w h k =
    payload-appends name (encode target) (bit_or 0o120000 0o777) mtime false w h
      (storable-IsHead (Member.symlink name target mtime) w k)
add-appends (Member.file name content mode mtime) w h k =
    payload-appends name content (bit_or 0o100000 (permissions mode)) mtime
      (w.block_align && leb block (length content)) w h
      (storable-IsHead (Member.file name content mode mtime) w k)

pub add-AtEnd : (m : Member) (w : Writer) → AtEnd w → AtEnd (add m w)
unfolding add_dir add_symlink add_file
add-AtEnd (Member.directory name mode mtime) w h = header-AtEnd name _ _ mtime false w h
add-AtEnd (Member.symlink name target mtime) w h =
    pad-AtEnd _ (write-AtEnd (encode target) _ (header-AtEnd name _ _ mtime false w h))
add-AtEnd (Member.file name content mode mtime) w h =
    pad-AtEnd _ (write-AtEnd content _ (header-AtEnd name _ _ mtime _ w h))

pub add-is_open : (m : Member) (w : Writer) → (add m w).is_open ≡ w.is_open
unfolding add_dir add_symlink add_file header pad write
add-is_open (Member.directory name mode mtime) w = refl
add-is_open (Member.symlink name target mtime) w = refl
add-is_open (Member.file name content mode mtime) w = refl
