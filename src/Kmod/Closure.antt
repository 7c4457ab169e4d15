-- ===== src/Kmod/Closure.antt =====
-- `Kmod.closure` of kmod/kmod.py. `todo` is a stack: its head is the end of Python's list.
pub mod Agrees
pub mod Pulled
pub mod Correct
pub mod Rounds
use tine.Base.{
  ℕ, zero, suc, Bool, true, false, ◌&&◌, Option, none, some, List, [], ◌∷◌, ◌++◌, same_bytes,
  is_nil, if◌then◌else◌,
}
use mathlib.Core.Option
use tine.Base.Text.{Text, text_of}
use tine.Kmod.Libkmod.{Module, info, dependencies, softdeps}
use tine.Kmod.Names.{mem, set_of, sorted, put, file, sorted_values}

-- The locals of the loop; `seen` is latest first.
pub record Tables : Type 0 where
  pub modules : List (Text × Option Text)
  pub needed_by : List (Text × List Text)
  pub firmware : List (Text × List Text)
  pub missing : List Text
  pub seen : List Text

pub record Closure : Type 0 where
  pub modules : List (Text × Option Text)
  pub needed_by : List (Text × List Text)
  pub firmware : List (Text × List Text)
  pub missing : List Text

abbrev pub no_tables : Tables
no_tables = record { modules = []; needed_by = []; firmware = []; missing = []; seen = [] }

abbrev pub firmware_key : Text
firmware_key = text_of "firmware"

-- for key, value in fields: if key == "firmware": ...
unfoldable pub file_firmware :
    Text → List (Text × Text) → List (Text × List Text) → List (Text × List Text)
file_firmware name [] table = table
file_firmware name ((key, value) ∷ fields) table =
    file_firmware name fields (if same_bytes key firmware_key then file value name table else table)

-- for dep in ...: needed_by.setdefault(dep, set()).add(name)
unfoldable pub file_requests : Text → List Text → List (Text × List Text) → List (Text × List Text)
file_requests name [] table = table
file_requests name (dep ∷ deps) table = file_requests name deps (file dep name table)

-- ... if dep not in seen: todo.append(dep)
unfoldable pub push_unseen : List Text → List Text → List Text → List Text
push_unseen seen [] todo = todo
push_unseen seen (dep ∷ deps) todo =
    push_unseen seen deps (if mem dep seen then todo else dep ∷ todo)

abbrev pub is_none {ℓ} : {A : Type ℓ} → Option A → Bool
is_none none = true
is_none (some a) = false

-- Neither a file nor a builtin.
abbrev pub is_absent : Module → Bool
is_absent kmod = is_none kmod.path && is_nil (info kmod)

abbrev pub requests : Module → List Text
requests kmod = dependencies kmod ++ softdeps kmod

abbrev pub miss : Text → Tables → Tables
miss name t = record t { missing = t.missing ++ name ∷ [] }

abbrev pub take_in : Text → Module → Tables → Tables
take_in name kmod t = record t {
  modules = put name kmod.path t.modules;
  firmware = file_firmware name (info kmod) t.firmware;
  needed_by = file_requests name (requests kmod) t.needed_by;
}

-- What libkmod has for a name that is met first.
abbrev pub enter : Option Module → Text → List Text → Tables → List Text × Tables
enter none name todo t = (todo, miss name t)
enter (some kmod) name todo t =
    if is_absent kmod
    then (todo, miss name t)
    else (push_unseen t.seen (requests kmod) todo, take_in name kmod t)

-- One round of the loop.
unfoldable pub visit : (Text → Option Module) → Text → List Text → Tables → List Text × Tables
visit lookup name todo t =
    if mem name t.seen
    then (todo, t)
    else enter (lookup name) name todo (record t { seen = name ∷ t.seen })

-- The loop, with so many rounds.
unfoldable pub close : (Text → Option Module) → ℕ → List Text → Tables → Option Tables
close lookup rounds [] t = some t
close lookup zero (name ∷ todo) t = none
close lookup (suc rounds) (name ∷ todo) t =
    let (todo', t') = visit lookup name todo t in close lookup rounds todo' t'

abbrev pub reverse : List Text → List Text
reverse [] = []
reverse (name ∷ names) = reverse names ++ name ∷ []

abbrev pub answer : Tables → Closure
answer t = record {
  modules = t.modules;
  needed_by = sorted_values t.needed_by;
  firmware = sorted_values t.firmware;
  missing = sorted t.missing;
}

unfoldable pub closure : (Text → Option Module) → ℕ → List Text → Option Closure
closure lookup rounds names =
    Option.map answer (close lookup rounds (reverse (sorted (set_of names))) no_tables)
