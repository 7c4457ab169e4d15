-- ===== src/Image/Version.antt =====
-- image/version.py: the order of UAPI versions. An index into a text is the rest of the text behind it.
pub mod Progress
pub mod Chains
pub mod Keys
pub mod Order
use tine.Base.{
  ℕ, zero, suc, ◌+◌, Bool, true, false, not, ◌&&◌, ◌||◌, Option, none, some, List, [], ◌∷◌, length,
  is_nil, ltb, leb, ◌==◌, same_bytes, if◌then◌else◌,
}
use tine.Base.Order.{text_lt}
use tine.Base.Text.{Text}

-- -1, 0 and 1
pub data Sign : Type 0 where
  less same greater : Sign

-- A step decides, or goes on with what is behind it.
pub data Step : Type 0 where
  decided : Sign → Step
  onward : Text → Text → Step

abbrev pub is_digit : ℕ → Bool
is_digit c = leb b'0' c && leb c b'9'

abbrev pub is_letter : ℕ → Bool
is_letter c = leb b'A' c && leb c b'Z' || leb b'a' c && leb c b'z'

-- _VALID
abbrev pub is_valid : ℕ → Bool
is_valid c = is_digit c || is_letter c || c == b'~' || c == b'-' || c == b'.' || c == b'^'

unfoldable pub skip_separators : Text → Text
skip_separators [] = []
skip_separators (c ∷ value) =
    let rest = skip_separators value in if is_valid c then c ∷ value else rest

-- value[offset:_prefix_end(value, offset, alphabet)], and what is behind that.
unfoldable pub prefix_of : (ℕ → Bool) → Text → Text
prefix_of alphabet [] = []
prefix_of alphabet (c ∷ value) =
    let rest = prefix_of alphabet value in if alphabet c then c ∷ rest else []

unfoldable pub behind_prefix : (ℕ → Bool) → Text → Text
behind_prefix alphabet [] = []
behind_prefix alphabet (c ∷ value) =
    let rest = behind_prefix alphabet value in if alphabet c then rest else c ∷ value

-- The digits behind the zeros.
unfoldable pub significant : Text → Text
significant [] = []
significant (c ∷ digits) = let rest = significant digits in if c == b'0' then rest else c ∷ digits

abbrev pub has : ℕ → Text → Bool
has marker [] = false
has marker (c ∷ value) = c == marker

abbrev pub behind : Bool → Text → Text
behind true (c ∷ value) = value
behind true [] = []
behind false value = value

-- A marker, or a tilde, sorts below anything considered after it.
abbrev pub marker : ℕ → Text → Text → Step
marker m left right =
    if has m left && not (has m right)
    then decided less
    else if has m right && not (has m left)
    then decided greater
    else onward (behind (has m left) left) (behind (has m right) right)

abbrev pub ends : Text → Text → Step
ends left right =
    if is_nil left && is_nil right
    then decided same
    else if is_nil left
    then decided less
    else if is_nil right
    then decided greater
    else onward left right

abbrev pub numbers : Text → Text → Step
numbers left right =
    let left_number = significant (prefix_of is_digit left) in
    let right_number = significant (prefix_of is_digit right) in
    if not (length left_number == length right_number)
    then decided (if ltb (length left_number) (length right_number) then less else greater)
    else if not (same_bytes left_number right_number)
    then decided (if text_lt left_number right_number then less else greater)
    else onward (behind_prefix is_digit left) (behind_prefix is_digit right)

abbrev pub letters : Text → Text → Step
letters left right =
    let left_letters = prefix_of is_letter left in
    let right_letters = prefix_of is_letter right in
    if not (same_bytes left_letters right_letters)
    then decided (if text_lt left_letters right_letters then less else greater)
    else onward (behind_prefix is_letter left) (behind_prefix is_letter right)

abbrev pub has_digits : Text → Bool
has_digits value = not (is_nil (prefix_of is_digit value))

abbrev pub runs : Text → Text → Step
runs left right =
    if has_digits left && has_digits right
    then numbers left right
    else if has_digits left
    then decided greater
    else if has_digits right
    then decided less
    else letters left right

abbrev pub and_then : Step → (Text → Text → Step) → Step
and_then (decided sign) next = decided sign
and_then (onward left right) next = next left right

-- One round of the loop of `compare`.
unfoldable pub round : Text → Text → Step
round left right =
    let step1 = marker b'~' (skip_separators left) (skip_separators right) in
    let step2 = and_then step1 ends in
    let step3 = and_then step2 (marker b'-') in
    let step4 = and_then step3 (marker b'^') in
    let step5 = and_then step4 (marker b'.') in and_then step5 runs

abbrev pub follow : Step → (Text → Text → Option Sign) → Option Sign
follow (decided sign) next = some sign
follow (onward left right) next = next left right

-- The loop, with so many rounds.
unfoldable pub compare_in : ℕ → Text → Text → Option Sign
compare_in zero left right = none
compare_in (suc rounds) left right = follow (round left right) (compare_in rounds)

-- A round takes a character of each, so these rounds are enough.
unfoldable pub compare : Text → Text → Option Sign
compare left right = compare_in (suc (length left + length right)) left right
