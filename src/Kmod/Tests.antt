-- ===== src/Kmod/Tests.antt =====
-- kmod/kmod.py: runs and instances.
use tine.Base.{
  ◌≡◌, ◌↔◌, refl, Bool, true, false, ◌&&◌, Option, none, some, List, [], ◌∷◌, ◌++◌, map, same_bytes,
  if◌then◌else◌, ◌+◌, ◌≤◌, length, arith,
}
use tine.Base.Text.{Text, text_of}
use tine.Kmod.Closure.{
  file_firmware, file_requests, push_unseen, visit, close, Closure, closure, is_none,
}
use tine.Kmod.Closure.Agrees.{resolved, requests_of, firmware_of, path_of}
use tine.Kmod.Closure.Correct.{closure-answers}
use tine.Kmod.Closure.Pulled.{Pulled}
use tine.Kmod.Closure.Rounds.{IsIndex, IsWithin, pending, closure-ends}
use tine.Kmod.Fnmatch.{
  somewhere, is_member, tokens, until_close, translate, matches_all, fnmatchcase, Piece,
}
use tine.Kmod.Libkmod.{pairs, Module}
use tine.Kmod.Links.{walk, chase_in, chase}
use tine.Kmod.Links.Chase.{IsTrail, chase-IsTrail}
use tine.Kmod.Links.Enough.{chase-same}
use tine.Kmod.Names.{file, sorted_values, set_of, sorted, find, mem, filed}
use tine.Kmod.Patterns.{
  note_matched, parent_of, normalize_from, unmatched, decide, note_builtin, remove_suffix, stem,
  pick, compile, matches, base_name, matchable, select, normalize_glob,
}
use tine.Kmod.Patterns.Decides.{Chosen, select-Chosen}
use tine.Kmod.Patterns.Directory.{IsBelow, matches-directory}
use tine.Kmod.Patterns.Unmatched.{idle, select-idle}

abbrev nvme : Text
nvme = text_of "n"

abbrev core : Text
core = text_of "c-d"

abbrev crypto : Text
crypto = text_of "x"

-- One module that depends on a second, which is built in and declares firmware, and asks for a third that nobody
-- installed.
abbrev lookup : Text → Option Module
lookup name =
    if same_bytes name nvme
    then some (record {
      path = some (text_of "/n.ko");
      fields = some [];
      depends = text_of "c_d" ∷ [];
      soft = some (crypto ∷ [], []);
    })
    else if same_bytes name core
    then some (record {
      path = none;
      fields = some ((some (text_of "firmware"), some (text_of "f")) ∷ (none, none) ∷ []);
      depends = nvme ∷ [];
      soft = none;
    })
    else none

abbrev asked : List Text
asked = nvme ∷ nvme ∷ []

abbrev found : Closure
found = record {
  modules = (nvme, some (text_of "/n.ko")) ∷ (core, none) ∷ [];
  needed_by = (core, nvme ∷ []) ∷ (crypto, nvme ∷ []) ∷ (nvme, core ∷ []) ∷ [];
  firmware = (text_of "f", core ∷ []) ∷ [];
  missing = crypto ∷ [];
}

closure_run : closure lookup 8 asked ≡ some found
unfolding closure close sorted set_of visit push_unseen pairs sorted_values file_requests
    file_firmware file
closure_run = refl

abbrev index : List Text
index = nvme ∷ core ∷ crypto ∷ []

index-IsIndex : IsIndex lookup index
index-IsIndex n d = ground arith

asked-IsWithin : IsWithin index asked
asked-IsWithin n = ground arith

rounds_enough : length asked + pending lookup [] index ≤ 8
unfolding pairs
rounds_enough = omega arith

closure-ends_example : (c : Closure) × (closure lookup 8 asked ≡ some c)
closure-ends_example = closure-ends lookup index 8 asked index-IsIndex asked-IsWithin rounds_enough

closure-answers_example :
    ((find core found.modules ≡ some none)
      ↔ (Pulled lookup asked core × (path_of (resolved lookup core) ≡ some none)))
    × ((mem core found.missing ≡ true)
        ↔ (Pulled lookup asked core × (is_none (resolved lookup core) ≡ true)))
    × ((filed nvme core found.needed_by ≡ true)
        ↔ (Pulled lookup asked core × (mem nvme (requests_of (resolved lookup core)) ≡ true)))
    × ((filed nvme core found.firmware ≡ true)
        ↔ (Pulled lookup asked core × (mem nvme (firmware_of (resolved lookup core)) ≡ true)))
closure-answers_example = closure-answers lookup 8 asked found core none nvme closure_run

-- Two module files and one that is built in.
abbrev files : List Text
files = text_of "d/n/a_b.ko.xz" ∷ text_of "d/n/ax.ko" ∷ []

abbrev builtin : List Text
builtin = text_of "k/v.ko" ∷ []

abbrev patterns : List Text
patterns = text_of "n/" ∷ text_of "-a[w-y]" ∷ text_of "v" ∷ text_of "z?" ∷ []

abbrev picked : List Text
picked = text_of "d/n/a_b.ko.xz" ∷ []

abbrev left : List Text
left = text_of "z?" ∷ []

select_run : select files builtin patterns ≡ some (picked, left)
unfolding select pick matchable stem remove_suffix base_name note_builtin decide unmatched matches
    compile normalize_from fnmatchcase matches_all translate parent_of until_close tokens is_member
    somewhere note_matched
select_run = refl

matchable_run : matchable (text_of "d/n/a_b.ko.xz") ≡ some (text_of "d/n/a-b")
unfolding matchable stem remove_suffix base_name parent_of
matchable_run = refl

select-Chosen_example : (mem (text_of "d/n/a_b.ko.xz") picked ≡ true) ↔ (
    (mem (text_of "d/n/a_b.ko.xz") files ≡ true)
    × Chosen (text_of "d/n/a-b") (map compile patterns))
select-Chosen_example =
    select-Chosen files builtin patterns picked left (text_of "d/n/a_b.ko.xz") (text_of "d/n/a-b")
      select_run matchable_run

select-idle_example : left ≡ idle (files ++ builtin) patterns
select-idle_example = select-idle files builtin patterns picked left select_run

matches-directory_example :
    (matches (text_of "d/n-m/a-b") (compile (text_of "n_m/")) ≡ true)
    ↔ IsBelow (text_of "n-m") (text_of "d/n-m/a-b")
matches-directory_example =
    matches-directory (text_of "d/n-m/a-b") (text_of "n_m") (refl, (refl, (refl, tt))) refl refl

-- A tree in which a directory and a file behind it are symlinks.
abbrev lib_link : List Text
lib_link = text_of "/" ∷ text_of "u" ∷ text_of "l" ∷ []

abbrev file_link : List Text
file_link = text_of ".." ∷ text_of "f" ∷ []

abbrev same_parts : List Text → List Text → Bool
same_parts [] [] = true
same_parts [] (b ∷ bs) = false
same_parts (a ∷ as_) [] = false
same_parts (a ∷ as_) (b ∷ bs) = same_bytes a b && same_parts as_ bs

abbrev tree : List Text → Option (List Text)
tree place =
    if same_parts place (text_of "l" ∷ [])
    then some lib_link
    else if same_parts place (text_of "g" ∷ text_of "l" ∷ text_of "u" ∷ [])
    then some file_link
    else none

-- Another, in which nothing else is one.
abbrev packed : List Text → Option (List Text)
packed place = if same_parts place (text_of "z" ∷ []) then none else tree place

abbrev trail : List (List Text)
trail =
    (text_of "l" ∷ [])
    ∷ (text_of "g" ∷ text_of "l" ∷ text_of "u" ∷ [])
    ∷ (text_of "f" ∷ text_of "u" ∷ [])
    ∷ []

chase_run : chase tree (text_of "l" ∷ text_of "g" ∷ []) ≡ some trail
unfolding chase chase_in walk
chase_run = refl

chase-IsTrail_example : IsTrail tree trail
chase-IsTrail_example = chase-IsTrail tree (text_of "l" ∷ text_of "g" ∷ []) trail chase_run

packed-fewer : (place : List Text) → tree place ≡ none → packed place ≡ none
packed-fewer place h = ground (arith, h)

chase-same_example : chase packed (text_of "l" ∷ text_of "g" ∷ []) ≡ some trail
chase-same_example =
    chase-same tree packed (text_of "l" ∷ text_of "g" ∷ []) trail chase_run packed-fewer
      (refl, (refl, (refl, tt)))

-- The class that fnmatchcase reads here has an underscore, which the pattern does not keep.
class_cut : normalize_glob (text_of "[]_]") ≡ text_of "[]-]"
unfolding normalize_from translate until_close tokens
class_cut = refl

class_whole : translate 0 (text_of "[]_]") ≡ Piece.class false (tokens (text_of "]_")) ∷ []
unfolding translate until_close tokens
class_whole = refl
