-- ===== src/Kmod/Patterns.antt =====
-- The patterns of kmod/kmod.py, and what a list of them selects. A path is a text with slashes.
pub mod Decides
pub mod Unmatched
pub mod Plain
pub mod Directory
use tine.Base.{
  ℕ, zero, suc, ◌+◌, Bool, true, false, not, ◌&&◌, ◌||◌, Option, none, some, List, [], ◌∷◌, ◌++◌,
  map, length, is_nil, ◌==◌, same_bytes, if◌then◌else◌, ◌>>=◌,
}
use mathlib.Core.Option
use tine.Base.Text.{Text, text_of}
use tine.Kmod.Fnmatch.{fnmatchcase}
use tine.Kmod.Libkmod.{normalize}

pub record Pattern : Type 0 where
  pub glob : Text
  pub exclude : Bool

abbrev pub dashed : ℕ → ℕ
dashed c = if c == b'_' then b'-' else c

-- What is between brackets stays as it is.
unfoldable pub normalize_from : Bool → Text → Text
normalize_from inside [] = []
normalize_from true (c ∷ glob) = c ∷ normalize_from (not (c == b']')) glob
normalize_from false (c ∷ glob) = dashed c ∷ normalize_from (c == b'[') glob

abbrev pub normalize_glob : Text → Text
normalize_glob glob = normalize_from false glob

-- glob.endswith("/")
abbrev pub ends_slash : Text → Bool
ends_slash [] = false
ends_slash (c ∷ []) = c == b'/'
ends_slash (c ∷ d ∷ glob) = ends_slash (d ∷ glob)

abbrev pub closed : Text → Text
closed glob = if ends_slash glob then glob ++ b'*' ∷ [] else glob

abbrev pub compile_behind : Bool → Text → Pattern
compile_behind exclude glob = record { glob = closed (normalize_glob glob); exclude = exclude }

unfoldable pub compile : Text → Pattern
compile [] = compile_behind false []
compile (c ∷ pattern) =
    if c == b'-' then compile_behind true pattern else compile_behind false (c ∷ pattern)

abbrev pub starts_slash : Text → Bool
starts_slash [] = false
starts_slash (c ∷ glob) = c == b'/'

abbrev pub has_slash : Text → Bool
has_slash [] = false
has_slash (c ∷ glob) = c == b'/' || has_slash glob

-- name.rpartition("/")[2]
unfoldable pub base_name : Text → Text
base_name [] = []
base_name (c ∷ name) =
    let rest = base_name name in
    if has_slash name then rest else if c == b'/' then name else c ∷ name

unfoldable pub matches : Text → Pattern → Bool
matches name pattern =
    starts_slash pattern.glob && fnmatchcase (b'/' ∷ name) pattern.glob
    || has_slash pattern.glob && fnmatchcase (b'/' ∷ name) (b'*' ∷ b'/' ∷ pattern.glob)
    || fnmatchcase (base_name name) pattern.glob

-- name.partition(".")[0]
unfoldable pub up_to_dot : Text → Text
up_to_dot [] = []
up_to_dot (c ∷ name) = let rest = up_to_dot name in if c == b'.' then [] else c ∷ rest

unfoldable pub module_name : Text → Text
module_name rel = normalize (up_to_dot (base_name rel))

-- What is left of a text that ends with the suffix.
unfoldable pub remove_suffix : Text → Text → Option Text
remove_suffix suffix [] = if same_bytes [] suffix then some [] else none
remove_suffix suffix (c ∷ name) =
    let rest = remove_suffix suffix name in
    if same_bytes (c ∷ name) suffix then some [] else Option.map (◌∷◌ c) rest

-- SUFFIXES
abbrev pub suffixes : List Text
suffixes = text_of ".ko" ∷ text_of ".ko.gz" ∷ text_of ".ko.xz" ∷ text_of ".ko.zst" ∷ []

abbrev pub or_else : Option Text → Text → Text
or_else none other = other
or_else (some name) other = name

-- The first of the suffixes that the name ends with is removed.
unfoldable pub stem : List Text → Text → Text
stem [] name = name
stem (suffix ∷ others) name = or_else (remove_suffix suffix name) (stem others name)

-- What is in front of the name, with its slash.
unfoldable pub parent_of : Text → Text
parent_of [] = []
parent_of (c ∷ rel) = let rest = parent_of rel in if has_slash (c ∷ rel) then c ∷ rest else []

-- rel.with_name refuses an empty name, and a dot.
unfoldable pub matchable : Text → Option Text
matchable rel =
    let name = stem suffixes (base_name rel) in
    if is_nil name || same_bytes name (b'.' ∷ [])
    then none
    else some (normalize (parent_of rel ++ name))

-- `keep` behind the patterns, the last to match decides.
unfoldable pub decide : Text → List Pattern → Bool → Bool
decide name [] keep = keep
decide name (pattern ∷ patterns) keep =
    decide name patterns (if matches name pattern then not pattern.exclude else keep)

-- The indices, from this one on, of the patterns that match, with those that did before.
unfoldable pub note_matched : Text → ℕ → List Pattern → List ℕ → List ℕ
note_matched name index [] matched = matched
note_matched name index (pattern ∷ patterns) matched =
    note_matched name (suc index) patterns
      (if matches name pattern then index ∷ matched else matched)

-- The loop over the module files.
unfoldable pub pick : List Pattern → List Text → List ℕ → Option (List Text × List ℕ)
pick compiled [] matched = some ([], matched)
pick compiled (rel ∷ files) matched = do
  name ← matchable rel
  rest ← pick compiled files (note_matched name 0 compiled matched)
  some (if decide name compiled false then (rel ∷ rest.0, rest.1) else rest)

-- The loop over what is built in.
unfoldable pub note_builtin : List Pattern → List Text → List ℕ → Option (List ℕ)
note_builtin compiled [] matched = some matched
note_builtin compiled (rel ∷ builtin) matched = do
  name ← matchable rel
  note_builtin compiled builtin (note_matched name 0 compiled matched)

abbrev pub has_index : ℕ → List ℕ → Bool
has_index index [] = false
has_index index (other ∷ others) = index == other || has_index index others

-- [pattern for index, pattern in enumerate(patterns) if index not in matched]
unfoldable pub unmatched : ℕ → List Text → List ℕ → List Text
unmatched index [] matched = []
unmatched index (pattern ∷ patterns) matched =
    let rest = unmatched (suc index) patterns matched in
    if has_index index matched then rest else pattern ∷ rest

-- Over the module files of the directory, sorted, and the paths of what is built in.
unfoldable pub select : List Text → List Text → List Text → Option (List Text × List Text)
select files builtin patterns = do
  let compiled = map compile patterns
  picked ← pick compiled files []
  matched ← note_builtin compiled builtin picked.1
  some (picked.0, unmatched 0 patterns matched)
