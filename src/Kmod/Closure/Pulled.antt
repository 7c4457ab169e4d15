-- ===== src/Kmod/Closure/Pulled.antt =====
-- `Kmod.closure` of kmod/kmod.py: it visits the names asked for and all that they pull in, and no other.
use tine.Base.{
  ◌≡◌, ◌⊎◌, refl, sym, ap, ◌∙◌, Bool, true, false, ◌&&◌, ◌||◌, not, Option, none, some, List, [],
  ◌∷◌, inl, inr, same_bytes, same_bytes_refl, Bool-cases, Option-cases, ℕ, zero, suc, subst, arith,
}
use tine.Base.Text.{Text}
use tine.Kmod.Libkmod.{Module}
use tine.Kmod.Names.{mem, mem_same, mem-append, mem-sorted, mem-set_of, sorted, set_of}
use tine.Kmod.Closure.{
  Tables, no_tables, push_unseen, is_absent, requests, miss, take_in, visit, close, reverse,
}
use tine.Kmod.Closure.Agrees.{
  resolved, requests_of, Agrees, same_resolved, miss-Agrees, take_in-Agrees,
}

-- The names asked for, and those that a module that is there requests.
pub data Pulled (lookup : Text → Option Module) (names : List Text) : Text → Type 0 where
  named : {n : Text} → mem n names ≡ true → Pulled lookup names n
  needed :
      {n d : Text}
      → Pulled lookup names n
      → mem d (requests_of (resolved lookup n)) ≡ true
      → Pulled lookup names d

abbrev pub entered : Text → Tables → Tables
entered name t = record t { seen = name ∷ t.seen }

-- What a round makes of the stack and the tables.
pub data Visited (lookup : Text → Option Module) (name : Text) (todo : List Text) (t : Tables)
    : List Text × Tables → Type 0 where
  again : mem name t.seen ≡ true → Visited lookup name todo t (todo, t)
  missed :
      mem name t.seen ≡ false
      → resolved lookup name ≡ none
      → Visited lookup name todo t (todo, miss name (entered name t))
  taken :
      (kmod : Module)
      → mem name t.seen ≡ false
      → resolved lookup name ≡ some kmod
      → Visited lookup name todo t
          (push_unseen (name ∷ t.seen) (requests kmod) todo, take_in name kmod (entered name t))

pub visit-Visited :
    (lookup : Text → Option Module) (name : Text) (todo : List Text) (t : Tables)
    → Visited lookup name todo t (visit lookup name todo t)
unfolding visit
visit-Visited lookup name todo t = elim (Bool-cases (mem name t.seen)) [
  | inl old ↦ rw old (Visited.again old)
  | inr new ↦ elim (Option-cases (lookup name)) [
    | inl gone ↦ rw (new, gone) (Visited.missed new (rw gone))
    | inr (kmod, here) ↦ elim (Bool-cases (is_absent kmod)) [
      | inl absent ↦ rw (new, here, absent) (Visited.missed new (rw (here, absent)))
      | inr present ↦ rw (new, here, present) (Visited.taken kmod new (rw (here, present)))
    ]
  ]
]

pub mem-push_unseen :
    (d : Text) (seen deps todo : List Text)
    → mem d (push_unseen seen deps todo) ≡ (mem d todo || (mem d deps && not (mem d seen)))
unfolding push_unseen
mem-push_unseen d seen [] todo = ground arith
mem-push_unseen d seen (dep ∷ deps) todo = elim (Bool-cases (mem dep seen)) [
  | inl old ↦ rw old (ground (arith, mem-push_unseen d seen deps todo, mem_same d dep seen))
  | inr new ↦ rw new (ground (arith, mem-push_unseen d seen deps (dep ∷ todo), mem_same d dep seen))
]

pub record Invariant (lookup : Text → Option Module) (names todo : List Text) (t : Tables)
    : Type 0 where
  pub agrees : Agrees lookup t
  pub seen_pulled : (n : Text) → mem n t.seen ≡ true → Pulled lookup names n
  pub todo_pulled : (n : Text) → mem n todo ≡ true → Pulled lookup names n
  pub names_met : (n : Text) → mem n names ≡ true → (mem n t.seen || mem n todo) ≡ true
  pub requests_met :
      (n d : Text)
      → mem n t.seen ≡ true
      → mem d (requests_of (resolved lookup n)) ≡ true
      → (mem d t.seen || mem d todo) ≡ true

or_cases : (b c : Bool) → (b || c) ≡ true → (b ≡ true) ⊎ (c ≡ true)
or_cases true c h = inl refl
or_cases false c h = inr h

-- The names seen are pulled in where the one on top of the stack is seen too.
entered_pulled :
    (lookup : Text → Option Module) (names : List Text) (name : Text) (todo : List Text)
    (t : Tables)
    → Invariant lookup names (name ∷ todo) t
    → (n : Text) → mem n (name ∷ t.seen) ≡ true
    → Pulled lookup names n
entered_pulled lookup names name todo t h n k =
    elim (or_cases (same_bytes n name) (mem n t.seen) k) [
      | inl same ↦ h.todo_pulled n (rw same)
      | inr old ↦ h.seen_pulled n old
    ]

asked_of :
    (lookup : Text → Option Module) (d n name : Text) (found : Option Module)
    → resolved lookup name ≡ found
    → same_bytes n name ≡ true
    → mem d (requests_of (resolved lookup n)) ≡ mem d (requests_of found)
asked_of lookup d n name found h same =
    ap (λ r. mem d (requests_of r)) (same_resolved lookup n name found h same)

visit-Invariant :
    (lookup : Text → Option Module) (names : List Text) (name : Text) (todo : List Text)
    (t : Tables) (next : List Text × Tables)
    → Visited lookup name todo t next
    → Invariant lookup names (name ∷ todo) t
    → Invariant lookup names next.0 next.1
visit-Invariant lookup names name todo t _ (Visited.again old) h = record {
  agrees = h.agrees;
  seen_pulled = h.seen_pulled;
  todo_pulled = λ n k. h.todo_pulled n (ground (arith, k));
  names_met = λ n k. ground (arith, old, h.names_met n k, mem_same n name t.seen);
  requests_met = λ n d k l. ground (arith, old, h.requests_met n d k l, mem_same d name t.seen);
}
visit-Invariant lookup names name todo t _ (Visited.missed new gone) h = record {
  agrees = miss-Agrees lookup name t new gone h.agrees;
  seen_pulled = entered_pulled lookup names name todo t h;
  todo_pulled = λ n k. h.todo_pulled n (ground (arith, k));
  names_met = λ n k. ground (arith, h.names_met n k);
  requests_met = λ n d k l. elim (or_cases (same_bytes n name) (mem n t.seen) k) [
    | inl same ↦ absurd (let none_asked = asked_of lookup d n name none gone same in cc)
    | inr old ↦ ground (arith, h.requests_met n d old l)
  ];
}
visit-Invariant lookup names name todo t _ (Visited.taken kmod new here) h = record {
  agrees = take_in-Agrees lookup name kmod t new here h.agrees;
  seen_pulled = entered_pulled lookup names name todo t h;
  todo_pulled = λ n k.
      elim (or_cases (mem n todo) (mem n (requests kmod) && not (mem n (name ∷ t.seen)))
        (sym (mem-push_unseen n (name ∷ t.seen) (requests kmod) todo) ∙ k)) [
          | inl old ↦ h.todo_pulled n (ground (arith, old))
          | inr asked ↦
              Pulled.needed (h.todo_pulled name (rw (same_bytes_refl name)))
                (rw here (ground (arith, asked)))
        ];
  names_met = λ n k.
      ground (arith, h.names_met n k, mem-push_unseen n (name ∷ t.seen) (requests kmod) todo);
  requests_met = λ n d k l. elim (or_cases (same_bytes n name) (mem n t.seen) k) [
    | inl same ↦ ground (
      arith,
      l,
      asked_of lookup d n name (some kmod) here same,
      mem-push_unseen d (name ∷ t.seen) (requests kmod) todo,
    )
    | inr old ↦
        ground
          (arith, h.requests_met n d old l, mem-push_unseen d (name ∷ t.seen) (requests kmod) todo)
  ];
}

pub close-Invariant :
    (lookup : Text → Option Module) (names : List Text) (rounds : ℕ) (todo : List Text)
    (t end : Tables)
    → Invariant lookup names todo t
    → close lookup rounds todo t ≡ some end
    → Invariant lookup names [] end
unfolding close
close-Invariant lookup names rounds [] t end h k =
    let same : t ≡ end = cc in subst (Invariant lookup names []) same h
close-Invariant lookup names zero (name ∷ todo) t end h k = absurd (cc)
close-Invariant lookup names (suc rounds) (name ∷ todo) t end h k =
    close-Invariant lookup names rounds (visit lookup name todo t).0 (visit lookup name todo t).1
      end (visit-Invariant lookup names name todo t _ (visit-Visited lookup name todo t) h) k

mem-reverse : (n : Text) (names : List Text) → mem n (reverse names) ≡ mem n names
mem-reverse n [] = refl
mem-reverse n (name ∷ names) =
    ground (arith, mem-append n (reverse names) (name ∷ []), mem-reverse n names)

pub mem-todo :
    (n : Text) (names : List Text) → mem n (reverse (sorted (set_of names))) ≡ mem n names
mem-todo n names =
    mem-reverse n (sorted (set_of names)) ∙ mem-sorted n (set_of names) ∙ mem-set_of n names

pub start-Invariant :
    (lookup : Text → Option Module) (names : List Text)
    → Invariant lookup names (reverse (sorted (set_of names))) no_tables
start-Invariant lookup names = record {
  agrees = record {
    modules_agree = λ n. refl;
    missing_agree = λ n. refl;
    needed_by_agree = λ dep n. refl;
    firmware_agree = λ value n. refl;
  };
  seen_pulled = λ n k. absurd (cc);
  todo_pulled = λ n k. Pulled.named (sym (mem-todo n names) ∙ k);
  names_met = λ n k. mem-todo n names ∙ k;
  requests_met = λ n d k l. absurd (cc);
}

-- At the end, the names seen are those pulled in.
pub Pulled-seen :
    (lookup : Text → Option Module) (names : List Text) (t : Tables)
    → Invariant lookup names [] t
    → (n : Text) → Pulled lookup names n
    → mem n t.seen ≡ true
Pulled-seen lookup names t h n (Pulled.named k) = ground (arith, h.names_met n k)
Pulled-seen lookup names t h d (Pulled.needed {n} pulled k) =
    let seen = Pulled-seen lookup names t h n pulled in ground (arith, h.requests_met n d seen k)
