-- ===== src/Kmod/Closure/Rounds.antt =====
-- `Kmod.closure` of kmod/kmod.py: its loop ends, whatever requests what, in a finite index.
use tine.Base.{
  ◌≡◌, refl, ap, ◌∙◌, true, false, ◌&&◌, not, Option, some, List, [], ◌∷◌, inl, inr, same_bytes,
  same_bytes→eq, same_bytes_refl, Bool-cases, if◌then◌else◌, ℕ, zero, suc, subst, ◌+◌, ◌≤◌, ◌<◌,
  length, length-append, arith,
}
use mathlib.Core.Option
use tine.Base.Text.{Text}
use tine.Kmod.Libkmod.{Module}
use tine.Kmod.Names.{mem, set_of, sorted, insert_sorted}
use tine.Kmod.Closure.{
  Tables, Closure, no_tables, push_unseen, requests, close, reverse, answer, closure,
}
use tine.Kmod.Closure.Agrees.{resolved, requests_of}
use tine.Kmod.Closure.Pulled.{Visited, visit-Visited, mem-push_unseen, mem-todo}

-- The requests of the names that are not seen yet.
abbrev pub pending : (Text → Option Module) → List Text → List Text → ℕ
pending lookup seen [] = 0
pending lookup seen (u ∷ us) =
    (if mem u seen then 0 else length (requests_of (resolved lookup u))) + pending lookup seen us

pending_le :
    (lookup : Text → Option Module) (name : Text) (seen us : List Text)
    → pending lookup (name ∷ seen) us ≤ pending lookup seen us
pending_le lookup name seen [] = omega arith
pending_le lookup name seen (u ∷ us) = ground (arith, pending_le lookup name seen us)

-- Its requests are no longer pending behind the name that is seen.
abbrev Drops : (Text → Option Module) → Text → List Text → List Text → Type 0
Drops lookup name seen us =
    length (requests_of (resolved lookup name)) + pending lookup (name ∷ seen) us
    ≤ pending lookup seen us

pending_drop_head :
    (lookup : Text → Option Module) (name : Text) (seen us : List Text)
    → mem name seen ≡ false
    → Drops lookup name seen (name ∷ us)
pending_drop_head lookup name seen us k =
    rw (same_bytes_refl name, k) (omega (arith, pending_le lookup name seen us))

-- Seeing a name of the index takes its requests from what is pending.
pending_drop :
    (lookup : Text → Option Module) (name : Text) (seen us : List Text)
    → mem name us ≡ true
    → mem name seen ≡ false
    → Drops lookup name seen us
pending_drop lookup name seen [] h k = absurd (cc)
pending_drop lookup name seen (u ∷ us) h k = elim (Bool-cases (same_bytes name u)) [
  | inl same ↦
      subst (λ u. Drops lookup name seen (u ∷ us)) (same_bytes→eq name u same)
        (pending_drop_head lookup name seen us k)
  | inr other ↦ ground (arith, pending_drop lookup name seen us (ground (arith, h, other)) k)
]

length-push_unseen :
    (seen deps todo : List Text) → length (push_unseen seen deps todo) ≤ length deps + length todo
unfolding push_unseen
length-push_unseen seen [] todo = omega arith
length-push_unseen seen (dep ∷ deps) todo =
    ground (arith, length-push_unseen seen deps todo, length-push_unseen seen deps (dep ∷ todo))

length-set_of : (names : List Text) → length (set_of names) ≤ length names
unfolding set_of
length-set_of [] = omega arith
length-set_of (name ∷ names) = ground (arith, length-set_of names)

length-insert_sorted :
    (name : Text) (names : List Text) → length (insert_sorted name names) ≡ suc (length names)
unfolding insert_sorted
length-insert_sorted name [] = refl
length-insert_sorted name (other ∷ others) = ground (arith, length-insert_sorted name others)

length-sorted : (names : List Text) → length (sorted names) ≡ length names
unfolding sorted
length-sorted [] = refl
length-sorted (name ∷ names) =
    ground (arith, length-insert_sorted name (sorted names), length-sorted names)

length-reverse : (names : List Text) → length (reverse names) ≡ length names
length-reverse [] = refl
length-reverse (name ∷ names) =
    ground (arith, length-append (reverse names) (name ∷ []), length-reverse names)

-- All that a name of the index requests is in it.
abbrev pub IsIndex : (Text → Option Module) → List Text → Type 0
IsIndex lookup index =
    (n d : Text)
    → (mem n index && mem d (requests_of (resolved lookup n)) && not (mem d index)) ≡ false

abbrev pub IsWithin : List Text → List Text → Type 0
IsWithin index todo = (n : Text) → (mem n todo && not (mem n index)) ≡ false

Visited-IsWithin :
    (lookup : Text → Option Module) (index : List Text) (name : Text) (todo : List Text)
    (t : Tables) (next : List Text × Tables)
    → IsIndex lookup index
    → Visited lookup name todo t next
    → IsWithin index (name ∷ todo)
    → IsWithin index next.0
Visited-IsWithin lookup index name todo t _ closed (Visited.again old) h n = ground (arith, h n)
Visited-IsWithin lookup index name todo t _ closed (Visited.missed new gone) h n =
    ground (arith, h n)
Visited-IsWithin lookup index name todo t _ closed (Visited.taken kmod new here) h n =
    let asked = ap (λ r. mem n (requests_of r)) here in
    ground (
      arith,
      h n,
      h name,
      same_bytes_refl name,
      closed name n,
      asked,
      mem-push_unseen n (name ∷ t.seen) (requests kmod) todo,
    )

-- A round takes one name from what is left to do.
Visited-left :
    (lookup : Text → Option Module) (index : List Text) (name : Text) (todo : List Text)
    (t : Tables) (next : List Text × Tables)
    → Visited lookup name todo t next
    → IsWithin index (name ∷ todo)
    → length next.0 + pending lookup next.1.seen index
      < length (name ∷ todo) + pending lookup t.seen index
Visited-left lookup index name todo t _ (Visited.again old) h = omega arith
Visited-left lookup index name todo t _ (Visited.missed new gone) h =
    omega (arith, pending_le lookup name t.seen index)
Visited-left lookup index name todo t _ (Visited.taken kmod new here) h =
    let known : mem name index ≡ true = ground (arith, h name, same_bytes_refl name) in
    let dropped = pending_drop lookup name t.seen index known new in
    let counted : length (requests_of (resolved lookup name)) ≡ length (requests kmod) =
      ap (λ r. length (requests_of r)) here in
    omega (arith, dropped, counted, length-push_unseen (name ∷ t.seen) (requests kmod) todo)

close-ends :
    (lookup : Text → Option Module) (index : List Text) (rounds : ℕ) (todo : List Text) (t : Tables)
    → IsIndex lookup index
    → IsWithin index todo
    → length todo + pending lookup t.seen index ≤ rounds
    → (end : Tables) × (close lookup rounds todo t ≡ some end)
unfolding close
close-ends lookup index rounds [] t closed h k = (t, refl)
close-ends lookup index zero (name ∷ todo) t closed h k = absurd (omega (arith, k))
close-ends lookup index (suc rounds) (name ∷ todo) t closed h k =
    let visited = visit-Visited lookup name todo t in
    let left = Visited-left lookup index name todo t _ visited h in
    close-ends lookup index rounds _ _ closed
      (Visited-IsWithin lookup index name todo t _ closed visited h) (omega (arith, left, k))

-- In an index that holds all that its names request, the loop ends within so many rounds as names are asked
-- for and requested.
pub closure-ends :
    (lookup : Text → Option Module) (index : List Text) (rounds : ℕ) (names : List Text)
    → IsIndex lookup index
    → IsWithin index names
    → length names + pending lookup [] index ≤ rounds
    → (c : Closure) × (closure lookup rounds names ≡ some c)
unfolding closure
closure-ends lookup index rounds names closed h k =
    let counted = length-reverse (sorted (set_of names)) ∙ length-sorted (set_of names) in
    let few = length-set_of names in
    let (end, same) =
      close-ends lookup index rounds (reverse (sorted (set_of names))) no_tables closed
        (λ n. rw (mem-todo n names) (h n)) (omega (arith, counted, few, k)) in
    (answer end, ap (Option.map answer) same)
