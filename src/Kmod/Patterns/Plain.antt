-- ===== src/Kmod/Patterns/Plain.antt =====
-- What the patterns of kmod/kmod.py match that spell their characters out.
use tine.Base.{
  ℕ, zero, Bool, true, false, not, ◌&&◌, ◌||◌, ◌≡◌, ◌↔◌, refl, sym, ap, subst, ◌∙◌, inl, inr, List,
  [], ◌∷◌, ◌++◌, append-nil, append_assoc, map, All, ◌==◌, Bool-cases, arith,
}
use tine.Base.Text.{Text}
use tine.Kmod.Fnmatch.{Piece, translate, somewhere, matches_all, fnmatchcase}
use tine.Kmod.Libkmod.{normalize}
use tine.Kmod.Patterns.{
  Pattern, dashed, normalize_from, normalize_glob, ends_slash, closed, compile_behind, compile,
  starts_slash, has_slash, base_name, matches,
}

-- A character that means itself in a glob.
abbrev pub is_plain : ℕ → Bool
is_plain c = not (c == b'*') && not (c == b'?') && not (c == b'[')

abbrev pub IsPlain : Text → Type 0
IsPlain = All (λ (c : ℕ). is_plain c ≡ true)

pub translate-plain :
    (p rest : Text)
    → IsPlain p
    → translate zero (p ++ rest) ≡ map Piece.exactly p ++ translate zero rest
unfolding translate
translate-plain [] rest h = refl
translate-plain (c ∷ p) rest h = ground (arith, h.0, translate-plain p rest h.1)

normalize_from-plain :
    (p rest : Text)
    → IsPlain p
    → normalize_from false (p ++ rest) ≡ map dashed p ++ normalize_from false rest
unfolding normalize_from
normalize_from-plain [] rest h = refl
normalize_from-plain (c ∷ p) rest h =
    let other : (c == b'[') ≡ false = ground (arith, h.0) in
    rw (other, normalize_from-plain p rest h.1)

pub dashed-IsPlain : (p : Text) → IsPlain p → IsPlain (map dashed p)
dashed-IsPlain [] h = tt
dashed-IsPlain (c ∷ p) h = (ground (arith, h.0), dashed-IsPlain p h.1)

-- Pieces that spell a text take it from the front.
pub matches_all-exactly :
    (p : Text) (pieces : List Piece) (text : Text)
    → matches_all (map Piece.exactly p ++ pieces) text ≡ true
    → (rest : Text) × (text ≡ p ++ rest) × (matches_all pieces rest ≡ true)
unfolding matches_all
matches_all-exactly [] pieces text h = (text, refl, h)
matches_all-exactly (c ∷ p) pieces [] h = absurd (cc)
matches_all-exactly (c ∷ p) pieces (d ∷ text) h =
    let (rest, same, matched) = matches_all-exactly p pieces text (ground (arith, h)) in
    (rest, ground (arith, h, same), matched)

pub exactly-matches_all :
    (p : Text) (pieces : List Piece) (rest : Text)
    → matches_all pieces rest ≡ true
    → matches_all (map Piece.exactly p ++ pieces) (p ++ rest) ≡ true
unfolding matches_all
exactly-matches_all [] pieces rest h = h
exactly-matches_all (c ∷ p) pieces rest h = ground (arith, exactly-matches_all p pieces rest h)

pub somewhere-splits :
    (f : Text → Bool) (text : Text)
    → somewhere f text ≡ true
    → (before after : Text) × (text ≡ before ++ after) × (f after ≡ true)
unfolding somewhere
somewhere-splits f [] h = ([], [], refl, h)
somewhere-splits f (c ∷ text) h = elim (Bool-cases (f (c ∷ text))) [
  | inl here ↦ ([], c ∷ text, refl, here)
  | inr later ↦
      let (before, after, same, found) = somewhere-splits f text (ground (arith, h, later)) in
      (c ∷ before, after, ap (◌∷◌ c) same, found)
]

pub splits-somewhere :
    (f : Text → Bool) (before after : Text) → f after ≡ true → somewhere f (before ++ after) ≡ true
unfolding somewhere
splits-somewhere f [] [] h = h
splits-somewhere f [] (c ∷ after) h = rw h
splits-somewhere f (c ∷ before) after h = ground (arith, splits-somewhere f before after h)

pub star_lem : (text : Text) → matches_all (Piece.star ∷ []) text ≡ true
unfolding matches_all somewhere
star_lem [] = refl
star_lem (c ∷ text) = star_lem text

pub has_slash-append : (p q : Text) → has_slash (p ++ q) ≡ (has_slash p || has_slash q)
has_slash-append [] q = refl
has_slash-append (c ∷ p) q = ground (arith, has_slash-append p q)

pub base_name_flat : (name : Text) → has_slash (base_name name) ≡ false
unfolding base_name
base_name_flat [] = refl
base_name_flat (c ∷ name) = ground (arith, base_name_flat name)

abbrev pub starts_dash : Text → Bool
starts_dash [] = false
starts_dash (c ∷ pattern) = c == b'-'

compile_lem :
    (pattern : Text) → starts_dash pattern ≡ false → compile pattern ≡ compile_behind false pattern
unfolding compile
compile_lem [] h = refl
compile_lem (c ∷ pattern) h = rw h

has_slash-dashed : (p : Text) → has_slash (map dashed p) ≡ has_slash p
has_slash-dashed [] = refl
has_slash-dashed (c ∷ p) = ground (arith, has_slash-dashed p)

ends_slash-flat : (p : Text) → has_slash p ≡ false → ends_slash p ≡ false
ends_slash-flat [] h = refl
ends_slash-flat (c ∷ []) h = ground (arith, h)
ends_slash-flat (c ∷ d ∷ p) h = ends_slash-flat (d ∷ p) (ground (arith, h))

starts_slash-flat : (p : Text) → has_slash p ≡ false → starts_slash p ≡ false
starts_slash-flat [] h = refl
starts_slash-flat (c ∷ p) h = ground (arith, h)

-- The glob of a plain pattern without slash.
glob-plain :
    (p : Text)
    → IsPlain p
    → has_slash p ≡ false
    → starts_dash p ≡ false
    → (compile p).glob ≡ normalize p
unfolding normalize_from
glob-plain p h flat dash =
    let same : normalize_glob p ≡ map dashed p =
      ap (normalize_from false) (sym (append-nil p))
      ∙ normalize_from-plain p [] h
      ∙ append-nil (map dashed p) in
    ap (λ (q : Pattern). q.glob) (compile_lem p dash)
    ∙ ap closed same
    ∙ rw (ends_slash-flat (map dashed p) (has_slash-dashed p ∙ flat))

fnmatchcase-plain : (text p : Text) → IsPlain p → (fnmatchcase text p ≡ true) ↔ (text ≡ p)
unfolding fnmatchcase matches_all translate
fnmatchcase-plain text p h =
    let pieces : translate zero p ≡ map Piece.exactly p ++ [] =
      ap (translate zero) (sym (append-nil p)) ∙ translate-plain p [] h in
    (
      (λ k.
          let (rest, same, none_left) = matches_all-exactly p [] text (rw pieces at k) in
          same ∙ ap (◌++◌ p) (only_nil rest none_left) ∙ append-nil p),
      (λ k. rw pieces (
          subst (λ t. matches_all (map Piece.exactly p ++ []) t ≡ true) (append-nil p ∙ sym k)
            (exactly-matches_all p [] [] refl))),
    )
  where
    only_nil : (rest : Text) → matches_all [] rest ≡ true → rest ≡ []
    only_nil [] h = refl
    only_nil (c ∷ rest) h = absurd (cc)

-- A pattern that spells its characters out and has no slash and no dash in front matches the modules of that
-- name, an underscore being a dash.
pub matches-plain :
    (name p : Text)
    → IsPlain p
    → has_slash p ≡ false
    → starts_dash p ≡ false
    → (matches name (compile p) ≡ true) ↔ (base_name name ≡ normalize p)
unfolding matches
matches-plain name p h flat dash =
    let glob = glob-plain p h flat dash in
    let apart = has_slash-dashed p ∙ flat in
    rw (glob, apart, starts_slash-flat (normalize p) apart)
      (fnmatchcase-plain (base_name name) (normalize p) (dashed-IsPlain p h))

-- The glob of a plain pattern that ends with a slash.
pub glob-directory :
    (d : Text)
    → IsPlain d
    → starts_dash (d ++ b'/' ∷ []) ≡ false
    → (compile (d ++ b'/' ∷ [])).glob ≡ map dashed d ++ b'/' ∷ b'*' ∷ []
unfolding normalize_from
glob-directory d h dash =
    let same : normalize_glob (d ++ b'/' ∷ []) ≡ map dashed d ++ b'/' ∷ [] =
      normalize_from-plain d (b'/' ∷ []) h in
    ap (λ (q : Pattern). q.glob) (compile_lem (d ++ b'/' ∷ []) dash)
    ∙ ap closed same
    ∙ rw (ends_slash-slash (map dashed d)) (append_assoc (map dashed d) (b'/' ∷ []) (b'*' ∷ []))
  where
    ends_slash-slash : (p : Text) → ends_slash (p ++ b'/' ∷ []) ≡ true
    ends_slash-slash [] = refl
    ends_slash-slash (c ∷ []) = refl
    ends_slash-slash (c ∷ e ∷ p) = ends_slash-slash (e ∷ p)
