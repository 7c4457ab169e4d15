-- ===== src/Kmod/Closure/Correct.antt =====
-- `Kmod.closure` of kmod/kmod.py: what it answers of each name.
use tine.Base.{
  ◌≡◌, ◌↔◌, ap, ◌∙◌, Bool, true, ◌&&◌, Option, none, some, List, [], inl, inr, Option-cases,
  if◌then◌else◌, ℕ, arith,
}
use tine.Base.Text.{Text}
use tine.Kmod.Libkmod.{Module}
use tine.Kmod.Names.{mem, find, filed, mem-sorted, filed-sorted_values, sorted, set_of}
use tine.Kmod.Closure.{Tables, Closure, no_tables, is_none, close, reverse, answer, closure}
use tine.Kmod.Closure.Agrees.{resolved, requests_of, firmware_of, path_of}
use tine.Kmod.Closure.Pulled.{Pulled, Invariant, close-Invariant, start-Invariant, Pulled-seen}

-- The tables that an answer is made of.
record Ends (lookup : Text → Option Module) (names : List Text) (c : Closure) : Type 0 where
  tables : Tables
  invariant : Invariant lookup names [] tables
  answered : c ≡ answer tables

closure-Ends :
    (lookup : Text → Option Module) (rounds : ℕ) (names : List Text) (c : Closure)
    → closure lookup rounds names ≡ some c
    → Ends lookup names c
unfolding closure
closure-Ends lookup rounds names c h =
    elim (Option-cases (close lookup rounds (reverse (sorted (set_of names))) no_tables)) [
      | inl gone ↦ absurd (let h' = rw gone at h in cc)
      | inr (t, here) ↦ record {
        tables = t;
        invariant =
            close-Invariant lookup names rounds _ no_tables t (start-Invariant lookup names) here;
        answered = let h' = rw here at h in cc;
      }
    ]

-- What is true of the names seen and something else, is true of the names pulled in.
seen_iff :
    (lookup : Text → Option Module) (names : List Text) (t : Tables) (n : Text) (held other : Bool)
    → Invariant lookup names [] t
    → held ≡ (mem n t.seen && other)
    → (held ≡ true) ↔ (Pulled lookup names n × (other ≡ true))
seen_iff lookup names t n held other h same = (
  (λ k. (h.seen_pulled n (ground (arith, same, k)), ground (arith, same, k))),
  (λ k. rw (same, Pulled-seen lookup names t h n k.0, k.1)),
)

seen_found :
    (lookup : Text → Option Module) (names : List Text) (t : Tables) (n : Text)
    (found held : Option (Option Text)) (path : Option Text)
    → Invariant lookup names [] t
    → held ≡ (if mem n t.seen then found else none)
    → (held ≡ some path) ↔ (Pulled lookup names n × (found ≡ some path))
seen_found lookup names t n found held path h same = (
  (λ k. (h.seen_pulled n (ground (arith, same, k)), ground (arith, same, k))),
  (λ k. rw (same, Pulled-seen lookup names t h n k.0, k.1)),
)

-- Of an answer: a name has a path exactly where it is pulled in and resolves to a module with that path; it is
-- missing exactly where it is pulled in and resolves to none; and it needs another, or declares a firmware
-- file, exactly where it is pulled in and the module that it resolves to requests the one or has the other in
-- a field.
pub closure-answers :
    (lookup : Text → Option Module) (rounds : ℕ) (names : List Text) (c : Closure) (n : Text)
    (path : Option Text) (other : Text)
    → closure lookup rounds names ≡ some c
    → ((find n c.modules ≡ some path)
        ↔ (Pulled lookup names n × (path_of (resolved lookup n) ≡ some path)))
      × ((mem n c.missing ≡ true) ↔ (Pulled lookup names n × (is_none (resolved lookup n) ≡ true)))
      × ((filed other n c.needed_by ≡ true)
          ↔ (Pulled lookup names n × (mem other (requests_of (resolved lookup n)) ≡ true)))
      × ((filed other n c.firmware ≡ true)
          ↔ (Pulled lookup names n × (mem other (firmware_of (resolved lookup n)) ≡ true)))
closure-answers lookup rounds names c n path other h =
    let ends = closure-Ends lookup rounds names c h in
    let t = ends.tables in
    let agrees = ends.invariant.agrees in
    (
      seen_found lookup names t n _ _ path ends.invariant
          (ap (λ (a : Closure). find n a.modules) ends.answered ∙ agrees.modules_agree n),
      seen_iff lookup names t n _ _ ends.invariant (
          ap (λ (a : Closure). mem n a.missing) ends.answered
          ∙ mem-sorted n t.missing
          ∙ agrees.missing_agree n),
      seen_iff lookup names t n _ _ ends.invariant (
          ap (λ (a : Closure). filed other n a.needed_by) ends.answered
          ∙ filed-sorted_values other n t.needed_by
          ∙ agrees.needed_by_agree other n),
      seen_iff lookup names t n _ _ ends.invariant (
          ap (λ (a : Closure). filed other n a.firmware) ends.answered
          ∙ filed-sorted_values other n t.firmware
          ∙ agrees.firmware_agree other n),
    )
