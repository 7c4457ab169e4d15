-- ===== src/Archive/Cpio/Reader/Close.antt =====
-- archive/cpio.py: the bytes of an archive that the `Writer` closed.
use tine.Base.{
  ℕ, ◌+◌, ◌≡◌, refl, ap, ◌∙◌, List, [], ◌∷◌, ◌++◌, append_assoc, Bytes, length, length-append, true,
  false, not, if◌then◌else◌, inl, arith,
}
use tine.Base.Text.{encode}
use tine.Archive.Cpio.{Writer, magic, trailer, header_length, hex_fields, write, pad, close}
use tine.Archive.Cpio.Alignment.{FitsField}
use tine.Archive.Cpio.Reader.Shapes.{IsHead, named, head, length-head, nuls, front, tail}
use tine.Archive.Cpio.Reader.Written.{AtEnd, write-appends, write-AtEnd, pad-appends}
use tine.Archive.Cpio.Reader.Members.{
  Member, add, add_all, name_of, payload_of, fields_of, AreStorable, record_of, add-appends,
  add-AtEnd, add-is_open,
}

abbrev pub trailer_fields : List ℕ
trailer_fields = 0 ∷ 0 ∷ 0 ∷ 0 ∷ 1 ∷ 0 ∷ 0 ∷ 0 ∷ 0 ∷ 0 ∷ 0 ∷ 11 ∷ 0 ∷ []

zero_fits : FitsField 0
zero_fits = omega arith

pub trailer-IsHead : IsHead trailer_fields trailer
unfolding encode
trailer-IsHead = record {
  count = refl;
  fits = (
    zero_fits,
    (
      zero_fits,
      (
        zero_fits,
        (
          zero_fits,
          (
            omega arith,
            (
              zero_fits,
              (
                zero_fits,
                (zero_fits, (zero_fits, (zero_fits, (zero_fits, (omega arith, (zero_fits, tt)))))),
              ),
            ),
          ),
        ),
      ),
    ),
  );
  is_name = record {
    scalars = (
      inl (omega arith),
      (
        inl (omega arith),
        (
          inl (omega arith),
          (
            inl (omega arith),
            (
              inl (omega arith),
              (
                inl (omega arith),
                (
                  inl (omega arith),
                  (inl (omega arith), (inl (omega arith), (inl (omega arith), tt))),
                ),
              ),
            ),
          ),
        ),
      ),
    );
    no_nul = (refl, (refl, (refl, (refl, (refl, (refl, (refl, (refl, (refl, (refl, tt))))))))));
  };
  longer = omega arith;
}

-- What `close` appends.
abbrev pub trailer_record : ℕ → Bytes
trailer_record pos = front pos trailer_fields trailer

close-appends :
    (w : Writer) → AtEnd w → w.is_open ≡ true → (close w).out ≡ w.out ++ trailer_record w.pos
unfolding close encode
close-appends w h k =
    let w1 = write (magic ++ hex_fields trailer_fields) w in
    let w2 = write (named 11 trailer) w1 in
    let end1 = write-AtEnd (magic ++ hex_fields trailer_fields) w h in
    let end2 = write-AtEnd (named 11 trailer) w1 end1 in
    let out2 : w2.out ≡ w.out ++ head trailer_fields trailer =
      write-appends (named 11 trailer) w1 end1
      ∙ ap (λ bs. bs ++ named 11 trailer) (write-appends (magic ++ hex_fields trailer_fields) w h)
      ∙ append_assoc w.out (magic ++ hex_fields trailer_fields) (named 11 trailer) in
    let at : w2.pos ≡ w.pos + header_length + 11 = omega (
      arith,
      end2,
      h,
      ap length out2,
      length-append w.out (head trailer_fields trailer),
      length-head trailer_fields trailer trailer-IsHead,
    ) in
    ap (λ b. (if not b then w else record (pad 4 w2) { is_open = false }).out) k
    ∙ pad-appends w2 end2
    ∙ ap (λ bs. bs ++ nuls w2.pos) out2
    ∙ append_assoc w.out (head trailer_fields trailer) (nuls w2.pos)
    ∙ ap (λ n. w.out ++ (head trailer_fields trailer ++ nuls n)) at

-- The bytes of an archive from a writer's position on.
abbrev pub archive : List Member → Writer → Bytes
archive [] w = trailer_record w.pos
archive (m ∷ members) w =
    front w.pos (fields_of m w) (name_of m)
    ++ (tail w.pos (fields_of m w) (payload_of m) ++ archive members (add m w))

pub close-archive :
    (members : List Member) (w : Writer)
    → AtEnd w
    → w.is_open ≡ true
    → AreStorable members w
    → (close (add_all members w)).out ≡ w.out ++ archive members w
close-archive [] w h k s = close-appends w h k
close-archive (m ∷ members) w h k s =
    close-archive members (add m w) (add-AtEnd m w h) (add-is_open m w ∙ k) s.1
    ∙ ap (λ bs. bs ++ archive members (add m w)) (add-appends m w h s.0)
    ∙ append_assoc w.out (record_of m w) (archive members (add m w))
    ∙ ap (◌++◌ w.out) (
        append_assoc (front w.pos (fields_of m w) (name_of m))
          (tail w.pos (fields_of m w) (payload_of m)) (archive members (add m w)))
