-- ===== src/Kmod/Fnmatch.antt =====
-- Python's `fnmatch.fnmatchcase`, with which kmod/kmod.py matches a pattern.
use tine.Base.{
  ℕ, zero, suc, Bool, true, false, not, ◌&&◌, ◌||◌, Option, none, some, List, [], ◌∷◌, length, ltb,
  leb, ◌==◌, if◌then◌else◌,
}
use mathlib.Core.Option
use tine.Base.Text.{Text}

-- What stands between the brackets of the expression that a class is translated to.
pub data Token : Type 0 where
  literal : ℕ → Token
  dash : Token

-- The translation of a pattern.
pub data Piece : Type 0 where
  star : Piece
  any : Piece
  exactly : ℕ → Piece
  class : Bool → List Token → Piece

-- A character, a dash and another make a range, which is left out where it is empty.
unfoldable pub tokens : Text → List Token
tokens [] = []
tokens (low ∷ []) = Token.literal low ∷ []
tokens (low ∷ d ∷ []) = Token.literal low ∷ Token.literal d ∷ []
tokens (low ∷ d ∷ high ∷ members) = elim (d == b'-') [
  | true ↦
      let rest = tokens members in
      if ltb high low then rest else Token.literal low ∷ Token.dash ∷ Token.literal high ∷ rest
  | false ↦ Token.literal low ∷ tokens (d ∷ high ∷ members)
]

-- An exclamation mark that is left in front negates the class.
abbrev pub negated : List Token → Piece
negated [] = Piece.class false []
negated (Token.dash ∷ members) = Piece.class false (Token.dash ∷ members)
negated (Token.literal c ∷ members) =
    if c == b'!' then Piece.class true members else Piece.class false (Token.literal c ∷ members)

abbrev pub class_of : Text → Piece
class_of [] = negated []
class_of (c ∷ members) =
    if c == b'!' then Piece.class true (tokens members) else negated (tokens (c ∷ members))

-- Up to the next closing bracket.
unfoldable pub until_close : Text → Option Text
until_close [] = none
until_close (c ∷ pattern) =
    let rest = until_close pattern in if c == b']' then some [] else Option.map (◌∷◌ c) rest

-- A closing bracket in front is a member.
abbrev pub after_bracket : Text → Option Text
after_bracket [] = none
after_bracket (c ∷ pattern) =
    if c == b']' then Option.map (◌∷◌ c) (until_close pattern) else until_close (c ∷ pattern)

-- What stands in the brackets, behind the opening one.
abbrev pub class_text : Text → Option Text
class_text [] = none
class_text (c ∷ pattern) =
    if c == b'!' then Option.map (◌∷◌ c) (after_bracket pattern) else after_bracket (c ∷ pattern)

abbrev pub piece_of : ℕ → Piece
piece_of c = if c == b'*' then Piece.star else if c == b'?' then Piece.any else Piece.exactly c

abbrev pub bracket : Option Text → (ℕ → List Piece) → List Piece
bracket none rest = Piece.exactly b'[' ∷ rest 0
bracket (some members) rest = class_of members ∷ rest (suc (length members))

-- The pieces of a pattern, of which some characters are read already.
unfoldable pub translate : ℕ → Text → List Piece
translate skip [] = []
translate (suc skip) (c ∷ pattern) = translate skip pattern
translate zero (c ∷ pattern) = elim (c == b'[') [
  | true ↦ bracket (class_text pattern) (λ skip. translate skip pattern)
  | false ↦ piece_of c ∷ translate zero pattern
]

-- A dash that no range takes stands for itself.
unfoldable pub is_member : ℕ → List Token → Bool
is_member c [] = false
is_member c (Token.dash ∷ members) = c == b'-' || is_member c members
is_member c (Token.literal low ∷ []) = c == low
is_member c (Token.literal low ∷ Token.literal d ∷ members) =
    c == low || is_member c (Token.literal d ∷ members)
is_member c (Token.literal low ∷ Token.dash ∷ []) = c == low || c == b'-'
is_member c (Token.literal low ∷ Token.dash ∷ Token.dash ∷ members) =
    c == low || c == b'-' || is_member c (Token.dash ∷ members)
is_member c (Token.literal low ∷ Token.dash ∷ Token.literal high ∷ members) =
    leb low c && leb c high || is_member c members

-- Whether the rest of the pattern matches behind any number of characters.
unfoldable pub somewhere : (Text → Bool) → Text → Bool
somewhere rest [] = rest []
somewhere rest (c ∷ text) = rest (c ∷ text) || somewhere rest text

unfoldable pub matches_all : List Piece → Text → Bool
matches_all [] [] = true
matches_all [] (c ∷ text) = false
matches_all (Piece.star ∷ pieces) text = somewhere (matches_all pieces) text
matches_all (Piece.any ∷ pieces) [] = false
matches_all (Piece.any ∷ pieces) (c ∷ text) = matches_all pieces text
matches_all (Piece.exactly d ∷ pieces) [] = false
matches_all (Piece.exactly d ∷ pieces) (c ∷ text) = c == d && matches_all pieces text
matches_all (Piece.class negate members ∷ pieces) [] = false
matches_all (Piece.class true members ∷ pieces) (c ∷ text) =
    not (is_member c members) && matches_all pieces text
matches_all (Piece.class false members ∷ pieces) (c ∷ text) =
    is_member c members && matches_all pieces text

unfoldable pub fnmatchcase : Text → Text → Bool
fnmatchcase name pattern = matches_all (translate zero pattern) name
