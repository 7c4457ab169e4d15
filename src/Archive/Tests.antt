-- ===== src/Archive/Tests.antt =====
-- archive/cpio.py on a small archive.
use tine.Base.{
  ℕ, ◌%◌, ◌^◌, ◌≡◌, refl, ◌⊎◌, inl, Bool, true, ◌&&◌, List, [], ◌∷◌, All, length, ltb, arith,
}
use tine.Base.Text.{text_of, encode}
use tine.Archive.Cpio.{
  Writer, block, header, hex8, hex_fields, write, pad, hex_width, hex_digits, name_size, add_dir,
  add_symlink, add_file, close, roundup,
}
use tine.Archive.Cpio.Alignment.{FitsField, IsEncodable, header-aligned}
use tine.Archive.Cpio.Extract.{components, kept, relpath, IsInside, relpath-IsInside}
use tine.Archive.Cpio.Reader.{Ending, read}
use tine.Archive.Cpio.Reader.Members.{Member, add, add_all, fields_of, IsStorable, entries_of}
use tine.Archive.Cpio.Reader.RoundTrip.{AreCarried, read-close}

abbrev new : Writer
new = record { out = []; pos = 0; ino = 0; epoch = 9; block_align = true; is_open = true }

name_length : length (encode (text_of "etc")) ≡ 3
unfolding encode
name_length = refl

new-IsEncodable : IsEncodable new (length (encode (text_of "etc"))) 33188 5000 20
unfolding encode roundup
new-IsEncodable = record {
  number_fits = omega arith;
  mode_fits = omega arith;
  time_fits = omega arith;
  size_fits = omega arith;
  room = omega arith;
}

header-aligned_example : (header (text_of "etc") 33188 5000 20 true new).pos % block ≡ 0
header-aligned_example = header-aligned (text_of "etc") 33188 5000 20 new new-IsEncodable

hex_of_mode : hex8 33188 ≡ text_of "000081a4"
unfolding hex8 hex_digits hex_width
hex_of_mode = refl

closed_size : (close (add_symlink (text_of "a") (text_of "etc") 3 new)).pos ≡ 240
unfolding close add_symlink pad write header hex_fields hex8 hex_digits hex_width encode name_size
closed_size = refl

all_fit : List ℕ → Bool
all_fit [] = true
all_fit (n ∷ f) = ltb n (2 ^ 32) && all_fit f

all_fit-FitsField : (f : List ℕ) → all_fit f ≡ true → All FitsField f
unfolding all_fit
all_fit-FitsField [] h = tt
all_fit-FitsField (n ∷ f) h = (ground (arith, h), all_fit-FitsField f (ground (arith, h)))

abbrev some_directory : Member
some_directory = Member.directory (text_of "d") 0o755 5

abbrev some_link : Member
some_link = Member.symlink (text_of "d/l") (text_of "f") 20

abbrev some_file : Member
some_file = Member.file (text_of "d/f") (1 ∷ 0 ∷ []) 0o644 7

directory-IsStorable : IsStorable some_directory new
unfolding encode all_fit name_size roundup add_dir add_symlink add_file header pad write hex_fields
    hex8 hex_digits hex_width
directory-IsStorable = record {
  fits = all_fit-FitsField (fields_of some_directory new) refl;
  is_name = record { scalars = (inl (omega arith), tt); no_nul = (refl, tt) };
  other = refl;
}

link-IsStorable : IsStorable some_link (add some_directory new)
unfolding encode all_fit name_size roundup add_dir add_symlink add_file header pad write hex_fields
    hex8 hex_digits hex_width
link-IsStorable = record {
  fits = all_fit-FitsField (fields_of some_link (add some_directory new)) refl;
  is_name = record {
    scalars = (inl (omega arith), (inl (omega arith), (inl (omega arith), tt)));
    no_nul = (refl, (refl, (refl, tt)));
  };
  other = refl;
}

file-IsStorable : IsStorable some_file (add some_link (add some_directory new))
unfolding encode all_fit name_size roundup add_dir add_symlink add_file header pad write hex_fields
    hex8 hex_digits hex_width
file-IsStorable = record {
  fits = all_fit-FitsField (fields_of some_file (add some_link (add some_directory new))) refl;
  is_name = record {
    scalars = (inl (omega arith), (inl (omega arith), (inl (omega arith), tt)));
    no_nul = (refl, (refl, (refl, tt)));
  };
  other = refl;
}

abbrev members : List Member
members = some_directory ∷ some_link ∷ some_file ∷ []

read-close_example :
    (read 512 (close (add_all members new)).out
      ≡ record { entries = entries_of 512 members new; ending = Ending.complete })
    × AreCarried (close (add_all members new)).out members new
read-close_example =
    read-close 512 members new refl refl refl
      (directory-IsStorable, (link-IsStorable, (file-IsStorable, tt)))

escaping : relpath (text_of "/a/../../b//./c") ≡ text_of "a/b/c"
unfolding relpath components kept
escaping = refl

relpath-IsInside_example :
    ((kept (components (text_of "/../a")) ≡ []) × (relpath (text_of "/../a") ≡ []))
    ⊎ ((components (relpath (text_of "/../a")) ≡ kept (components (text_of "/../a")))
        × All IsInside (components (relpath (text_of "/../a"))))
relpath-IsInside_example = relpath-IsInside (text_of "/../a")
