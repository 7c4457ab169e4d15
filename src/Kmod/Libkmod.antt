-- ===== src/Kmod/Libkmod.antt =====
-- `Kmod` of kmod/kmod.py: what libkmod answers, as its methods read it.
use tine.Base.{Option, none, some, List, [], ◌∷◌, ◌++◌, ◌==◌, map, if◌then◌else◌}
use tine.Base.Text.{Text}

-- What libkmod's calls return for a module: its path, its fields or an error, and the names in its lists.
pub record Module : Type 0 where
  pub path : Option Text
  pub fields : Option (List (Option Text × Option Text))
  pub depends : List Text
  pub soft : Option (List Text × List Text)

-- name.replace("_", "-")
abbrev pub normalize : Text → Text
normalize name = map (λ c. if c == b'_' then b'-' else c) name

-- The entries that have a key and a value.
unfoldable pub pairs : List (Option Text × Option Text) → List (Text × Text)
pairs [] = []
pairs ((some key, some value) ∷ entries) = (key, value) ∷ pairs entries
pairs ((some key, none) ∷ entries) = pairs entries
pairs ((none, value) ∷ entries) = pairs entries

abbrev pub info_of : Option (List (Option Text × Option Text)) → List (Text × Text)
info_of none = []
info_of (some entries) = pairs entries

abbrev pub info : Module → List (Text × Text)
info kmod = info_of kmod.fields

abbrev pub dependencies : Module → List Text
dependencies kmod = map normalize kmod.depends

abbrev pub softdeps_of : Option (List Text × List Text) → List Text
softdeps_of none = []
softdeps_of (some (pre, post)) = map normalize pre ++ map normalize post

abbrev pub softdeps : Module → List Text
softdeps kmod = softdeps_of kmod.soft
