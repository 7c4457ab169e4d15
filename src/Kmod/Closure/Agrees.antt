-- ===== src/Kmod/Closure/Agrees.antt =====
-- `Kmod.closure` of kmod/kmod.py: what the tables hold, by the names seen.
use tine.Base.{
  ◌≡◌, ap, ◌∙◌, true, false, ◌&&◌, ◌||◌, Option, none, some, List, [], ◌∷◌, inl, inr, same_bytes,
  same_bytes→eq, Bool-cases, if◌then◌else◌, arith,
}
use tine.Base.Text.{Text}
use tine.Kmod.Libkmod.{Module, info}
use tine.Kmod.Names.{mem, file, find, filed, mem_same, mem-append, filed-file, find-put}
use tine.Kmod.Closure.{
  Tables, firmware_key, file_firmware, file_requests, is_none, is_absent, requests, miss, take_in,
}

abbrev keep : Option Module → Option Module
keep none = none
keep (some kmod) = if is_absent kmod then none else some kmod

-- The module that a name resolves to.
abbrev pub resolved : (Text → Option Module) → Text → Option Module
resolved lookup name = keep (lookup name)

abbrev pub requests_of : Option Module → List Text
requests_of none = []
requests_of (some kmod) = requests kmod

-- The values of the fields that name firmware.
abbrev pub declared : List (Text × Text) → List Text
declared [] = []
declared ((key, value) ∷ fields) =
    if same_bytes key firmware_key then value ∷ declared fields else declared fields

abbrev pub firmware_of : Option Module → List Text
firmware_of none = []
firmware_of (some kmod) = declared (info kmod)

abbrev pub path_of : Option Module → Option (Option Text)
path_of none = none
path_of (some kmod) = some kmod.path

pub record Agrees (lookup : Text → Option Module) (t : Tables) : Type 0 where
  pub modules_agree :
      (n : Text) → find n t.modules ≡ (if mem n t.seen then path_of (resolved lookup n) else none)
  pub missing_agree : (n : Text) → mem n t.missing ≡ (mem n t.seen && is_none (resolved lookup n))
  pub needed_by_agree :
      (dep n : Text)
      → filed dep n t.needed_by ≡ (mem n t.seen && mem dep (requests_of (resolved lookup n)))
  pub firmware_agree :
      (value n : Text)
      → filed value n t.firmware ≡ (mem n t.seen && mem value (firmware_of (resolved lookup n)))

filed-file_requests :
    (dep n name : Text) (deps : List Text) (table : List (Text × List Text))
    → filed dep n (file_requests name deps table)
      ≡ ((same_bytes n name && mem dep deps) || filed dep n table)
unfolding file_requests
filed-file_requests dep n name [] table = ground arith
filed-file_requests dep n name (d ∷ deps) table =
    ground (
      arith,
      filed-file_requests dep n name deps (file d name table),
      filed-file dep n d name table,
    )

filed-file_firmware :
    (value n name : Text) (fields : List (Text × Text)) (table : List (Text × List Text))
    → filed value n (file_firmware name fields table)
      ≡ ((same_bytes n name && mem value (declared fields)) || filed value n table)
unfolding file_firmware
filed-file_firmware value n name [] table = ground arith
filed-file_firmware value n name ((key, v) ∷ fields) table =
    elim (Bool-cases (same_bytes key firmware_key)) [
      | inl e ↦ rw e (
          ground (
            arith,
            filed-file_firmware value n name fields (file v name table),
            filed-file value n v name table,
          ))
      | inr e ↦ rw e (filed-file_firmware value n name fields table)
    ]

pub same_resolved :
    (lookup : Text → Option Module) (n name : Text) (found : Option Module)
    → resolved lookup name ≡ found
    → same_bytes n name ≡ true
    → resolved lookup n ≡ found
same_resolved lookup n name found h k = ap (resolved lookup) (same_bytes→eq n name k) ∙ h

-- A name without a module is filed as missing.
pub miss-Agrees :
    (lookup : Text → Option Module) (name : Text) (t : Tables)
    → mem name t.seen ≡ false
    → resolved lookup name ≡ none
    → Agrees lookup t
    → Agrees lookup (miss name (record t { seen = name ∷ t.seen }))
miss-Agrees lookup name t unseen gone h = record {
  modules_agree = λ n.
      ground (arith, h.modules_agree n, same_resolved lookup n name _ gone, mem_same n name t.seen);
  missing_agree = λ n. ground (
    arith,
    h.missing_agree n,
    mem-append n t.missing (name ∷ []),
    same_resolved lookup n name _ gone,
    mem_same n name t.seen,
  );
  needed_by_agree = λ dep n.
      ground (
        arith,
        h.needed_by_agree dep n,
        same_resolved lookup n name _ gone,
        mem_same n name t.seen,
      );
  firmware_agree = λ value n.
      ground (
        arith,
        h.firmware_agree value n,
        same_resolved lookup n name _ gone,
        mem_same n name t.seen,
      );
}

pub take_in-Agrees :
    (lookup : Text → Option Module) (name : Text) (kmod : Module) (t : Tables)
    → mem name t.seen ≡ false
    → resolved lookup name ≡ some kmod
    → Agrees lookup t
    → Agrees lookup (take_in name kmod (record t { seen = name ∷ t.seen }))
take_in-Agrees lookup name kmod t unseen here h = record {
  modules_agree = λ n. ground (
    arith,
    h.modules_agree n,
    find-put n name kmod.path t.modules,
    same_resolved lookup n name _ here,
    mem_same n name t.seen,
  );
  missing_agree = λ n.
      ground (arith, h.missing_agree n, same_resolved lookup n name _ here, mem_same n name t.seen);
  needed_by_agree = λ dep n. ground (
    arith,
    h.needed_by_agree dep n,
    filed-file_requests dep n name (requests kmod) t.needed_by,
    same_resolved lookup n name _ here,
    mem_same n name t.seen,
  );
  firmware_agree = λ value n. ground (
    arith,
    h.firmware_agree value n,
    filed-file_firmware value n name (info kmod) t.firmware,
    same_resolved lookup n name _ here,
    mem_same n name t.seen,
  );
}
