-- ===== src/Kmod/Patterns/Directory.antt =====
-- What the patterns of kmod/kmod.py match that end with a slash.
use tine.Base.{
  zero, true, false, ◌≡◌, ◌↔◌, sym, ap, ◌∙◌, inl, inr, List, [], ◌∷◌, ◌++◌, map, Bool-cases, arith,
}
use tine.Base.Text.{Text}
use tine.Kmod.Fnmatch.{Piece, translate, somewhere, matches_all, fnmatchcase}
use tine.Kmod.Libkmod.{normalize}
use tine.Kmod.Patterns.{dashed, compile, starts_slash, has_slash, base_name, matches}
use tine.Kmod.Patterns.Plain.{
  IsPlain, starts_dash, translate-plain, dashed-IsPlain, matches_all-exactly, exactly-matches_all,
  somewhere-splits, splits-somewhere, star_lem, has_slash-append, base_name_flat, glob-directory,
}

-- A path, taken from the root of the module directory, is below a directory with these components.
pub record IsBelow (directory name : Text) : Type 0 where
  pub before : Text
  pub after : Text
  pub split : b'/' ∷ name ≡ before ++ b'/' ∷ (directory ++ b'/' ∷ after)

-- The glob of a directory.
abbrev below : Text → Text
below d = d ++ b'/' ∷ b'*' ∷ []

-- The pieces behind the directory: a slash, and anything.
abbrev anything : List Piece
anything = Piece.exactly b'/' ∷ Piece.star ∷ []

translate-below :
    (d : Text) → IsPlain d → translate zero (below d) ≡ map Piece.exactly d ++ anything
unfolding translate
translate-below d h = translate-plain d (b'/' ∷ b'*' ∷ []) h

-- What the glob matches behind any number of components.
fnmatchcase-anywhere :
    (d text : Text)
    → IsPlain d
    → fnmatchcase text (b'*' ∷ b'/' ∷ below d)
      ≡ somewhere (matches_all (map Piece.exactly (b'/' ∷ d) ++ anything)) text
unfolding fnmatchcase translate matches_all
fnmatchcase-anywhere d text h =
    ap (λ (pieces : List Piece). somewhere (matches_all (Piece.exactly b'/' ∷ pieces)) text)
      (translate-below d h)

below-matches :
    (d name : Text)
    → IsPlain d
    → fnmatchcase (b'/' ∷ name) (b'*' ∷ b'/' ∷ below d) ≡ true
    → IsBelow d name
unfolding matches_all
below-matches d name h k =
    let (before, after, same, found) =
      somewhere-splits _ (b'/' ∷ name) (sym (fnmatchcase-anywhere d (b'/' ∷ name) h) ∙ k) in
    let (rest, same', found') = matches_all-exactly (b'/' ∷ d) anything after found in
    let (rest', same'', found'') = matches_all-exactly (b'/' ∷ []) (Piece.star ∷ []) rest found' in
    record {
      before = before;
      after = rest';
      split = same ∙ ap (◌++◌ before) (same' ∙ ap (λ r. b'/' ∷ (d ++ r)) same'');
    }

matches-below :
    (d name : Text)
    → IsPlain d
    → IsBelow d name
    → fnmatchcase (b'/' ∷ name) (b'*' ∷ b'/' ∷ below d) ≡ true
matches-below d name h k =
    let slash : matches_all anything (b'/' ∷ k.after) ≡ true =
      exactly-matches_all (b'/' ∷ []) (Piece.star ∷ []) k.after (star_lem k.after) in
    let behind = exactly-matches_all (b'/' ∷ d) anything (b'/' ∷ k.after) slash in
    fnmatchcase-anywhere d (b'/' ∷ name) h
    ∙ ap (somewhere (matches_all (map Piece.exactly (b'/' ∷ d) ++ anything))) k.split
    ∙ splits-somewhere _ k.before (b'/' ∷ (d ++ b'/' ∷ k.after)) behind

flat-below :
    (d name : Text) → IsPlain d → has_slash name ≡ false → fnmatchcase name (below d) ≡ false
unfolding fnmatchcase
flat-below d name h flat = elim (Bool-cases (fnmatchcase name (below d))) [
  | inl k ↦
      let k' = sym (ap (λ pieces. matches_all pieces name) (translate-below d h)) ∙ k in
      let (rest, same, found) = matches_all-exactly d anything name k' in
      let (rest', same', found') = matches_all-exactly (b'/' ∷ []) (Piece.star ∷ []) rest found in
      let slashed : has_slash name ≡ true =
        ap has_slash (same ∙ ap (◌++◌ d) same')
        ∙ has_slash-append d (b'/' ∷ rest')
        ∙ ground arith in
      absurd (cc)
  | inr k ↦ k
]

starts_slash-dashed :
    (p q : Text)
    → starts_slash (p ++ b'/' ∷ []) ≡ false
    → starts_slash (map dashed p ++ b'/' ∷ q) ≡ false
starts_slash-dashed [] q h = absurd (cc)
starts_slash-dashed (c ∷ p) q h = ground (arith, h)

-- A pattern that spells a directory out and ends with a slash matches all that is below a directory of that
-- name, at any depth, an underscore being a dash.
pub matches-directory :
    (name d : Text)
    → IsPlain d
    → starts_dash (d ++ b'/' ∷ []) ≡ false
    → starts_slash (d ++ b'/' ∷ []) ≡ false
    → (matches name (compile (d ++ b'/' ∷ [])) ≡ true) ↔ IsBelow (normalize d) name
unfolding matches
matches-directory name d h dash slash =
    let glob = glob-directory d h dash in
    let plain = dashed-IsPlain d h in
    let first = starts_slash-dashed d (b'*' ∷ []) slash in
    let slashed : has_slash (below (normalize d)) ≡ true =
      has_slash-append (normalize d) (b'/' ∷ b'*' ∷ []) ∙ ground arith in
    let last = flat-below (normalize d) (base_name name) plain (base_name_flat name) in
    rw (glob, first, slashed, last)
      (
        (λ k. below-matches (normalize d) name plain (ground (arith, k))),
        (λ k. ground (arith, matches-below (normalize d) name plain k)),
      )
