-- ===== src/Kmod/Patterns/Unmatched.antt =====
-- `select` of kmod/kmod.py: which patterns selected nothing.
use tine.Base.{
  ℕ, suc, ◌+◌, ◌<◌, Bool, true, false, ◌&&◌, ◌||◌, ◌≡◌, refl, sym, ap, ◌∙◌, inl, inr, Option, none,
  some, List, [], ◌∷◌, ◌++◌, append_assoc, map, length, length-append, ◌==◌, Bool-cases,
  Option-cases, if◌then◌else◌, arith,
}
use tine.Base.Text.{Text}
use tine.Kmod.Patterns.{
  Pattern, compile, matches, matchable, note_matched, pick, note_builtin, has_index, unmatched,
  select,
}
use tine.Kmod.Patterns.Decides.{pick-Picks, select-Selects}

abbrev pub matches_name : Option Text → Pattern → Bool
matches_name none pattern = false
matches_name (some name) pattern = matches name pattern

-- Whether a pattern matches one of the paths.
abbrev pub hits : Pattern → List Text → Bool
hits pattern [] = false
hits pattern (rel ∷ rels) = matches_name (matchable rel) pattern || hits pattern rels

-- The patterns that match none of the paths, in their order.
abbrev pub idle : List Text → List Text → List Text
idle rels [] = []
idle rels (pattern ∷ patterns) =
    let rest = idle rels patterns in if hits (compile pattern) rels then rest else pattern ∷ rest

-- Whether the pattern at the index matches, counting from another.
abbrev hit_at : ℕ → Option Text → ℕ → List Pattern → Bool
hit_at index name from [] = false
hit_at index name from (p ∷ patterns) =
    (index == from && matches_name name p) || hit_at index name (suc from) patterns

has_index-note_matched :
    (index : ℕ) (name : Text) (from : ℕ) (patterns : List Pattern) (matched : List ℕ)
    → has_index index (note_matched name from patterns matched)
      ≡ (hit_at index (some name) from patterns || has_index index matched)
unfolding note_matched
has_index-note_matched index name from [] matched = refl
has_index-note_matched index name from (p ∷ patterns) matched = elim (Bool-cases (matches name p)) [
  | inl hit ↦
      rw hit
        (ground (arith, has_index-note_matched index name (suc from) patterns (from ∷ matched)))
  | inr quiet ↦
      rw quiet (ground (arith, has_index-note_matched index name (suc from) patterns matched))
]

or_turn : (p q r : Bool) → (p || (q || r)) ≡ ((q || p) || r)
or_turn true true r = refl
or_turn true false r = refl
or_turn false true r = refl
or_turn false false r = refl

abbrev hits_at : ℕ → List Pattern → List Text → Bool
hits_at index patterns [] = false
hits_at index patterns (rel ∷ rels) =
    hit_at index (matchable rel) 0 patterns || hits_at index patterns rels

has_index-pick :
    (index : ℕ) (compiled : List Pattern) (files : List Text) (matched : List ℕ)
    (result : List Text × List ℕ)
    → pick compiled files matched ≡ some result
    → has_index index result.1 ≡ (hits_at index compiled files || has_index index matched)
unfolding pick
has_index-pick index compiled [] matched result h =
    let same : result ≡ ([], matched) = cc in rw same
has_index-pick index compiled (file ∷ files) matched result h =
    let p = pick-Picks compiled file files matched result h in
    let others = has_index-pick index compiled files _ p.rest p.others in
    let first = has_index-note_matched index p.name 0 compiled matched in
    ap (has_index index) p.noted
    ∙ others
    ∙ rw (first, p.named) (or_turn (hits_at index compiled files) _ _)

has_index-note_builtin :
    (index : ℕ) (compiled : List Pattern) (builtin : List Text) (matched result : List ℕ)
    → note_builtin compiled builtin matched ≡ some result
    → has_index index result ≡ (hits_at index compiled builtin || has_index index matched)
unfolding note_builtin
has_index-note_builtin index compiled [] matched result h =
    let same : result ≡ matched = cc in rw same
has_index-note_builtin index compiled (rel ∷ builtin) matched result h =
    elim (Option-cases (matchable rel)) [
      | inl gone ↦ absurd (let h' = rw gone at h in cc)
      | inr (name, here) ↦
          let others = has_index-note_builtin index compiled builtin _ result (rw here at h) in
          let first = has_index-note_matched index name 0 compiled matched in
          others ∙ rw (first, here) (or_turn (hits_at index compiled builtin) _ _)
    ]

hits_at-append :
    (index : ℕ) (compiled : List Pattern) (files builtin : List Text)
    → hits_at index compiled (files ++ builtin)
      ≡ (hits_at index compiled files || hits_at index compiled builtin)
hits_at-append index compiled [] builtin = refl
hits_at-append index compiled (rel ∷ files) builtin =
    ground (arith, hits_at-append index compiled files builtin)

hit_at_past :
    (index : ℕ) (name : Option Text) (from : ℕ) (patterns : List Pattern)
    → index < from
    → hit_at index name from patterns ≡ false
hit_at_past index name from [] h = refl
hit_at_past index name from (p ∷ patterns) h =
    ground (arith, h, hit_at_past index name (suc from) patterns (omega (arith, h)))

hit_at_here :
    (index : ℕ) (name : Option Text) (from : ℕ) (before : List Text) (p : Text) (after : List Text)
    → index ≡ from + length before
    → hit_at index name from (map compile (before ++ p ∷ after)) ≡ matches_name name (compile p)
hit_at_here index name from [] p after h =
    ground (arith, h, hit_at_past index name (suc from) (map compile after))
hit_at_here index name from (b ∷ before) p after h =
    ground (arith, h, hit_at_here index name (suc from) before p after (omega (arith, h)))

hits_at_here :
    (rels before : List Text) (p : Text) (after : List Text)
    → hits_at (length before) (map compile (before ++ p ∷ after)) rels ≡ hits (compile p) rels
hits_at_here [] before p after = refl
hits_at_here (rel ∷ rels) before p after = rw (
  hit_at_here (length before) (matchable rel) 0 before p after (omega arith),
  hits_at_here rels before p after,
)

unmatched-idle :
    (rels before patterns : List Text) (matched : List ℕ)
    → ((index : ℕ)
        → has_index index matched ≡ hits_at index (map compile (before ++ patterns)) rels)
    → unmatched (length before) patterns matched ≡ idle rels patterns
unfolding unmatched
unmatched-idle rels before [] matched h = refl
unmatched-idle rels before (p ∷ patterns) matched h =
    let here = h (length before) ∙ hits_at_here rels before p patterns in
    let grown : before ++ p ∷ patterns ≡ (before ++ p ∷ []) ++ patterns =
      sym (append_assoc before (p ∷ []) patterns) in
    let counted : length (before ++ p ∷ []) ≡ suc (length before) =
      ground (arith, length-append before (p ∷ [])) in
    let others =
      unmatched-idle rels (before ++ p ∷ []) patterns matched
        (λ index. h index ∙ ap (λ ps. hits_at index (map compile ps) rels) grown) in
    rw (here, ap (λ n. unmatched n patterns matched) (sym counted) ∙ others)

-- What is left are the patterns that match no module file and nothing that is built in, in their order.
pub select-idle :
    (files builtin patterns picked left : List Text)
    → select files builtin patterns ≡ some (picked, left)
    → left ≡ idle (files ++ builtin) patterns
select-idle files builtin patterns picked left h =
    let s = select-Selects files builtin patterns picked left h in
    let compiled = map compile patterns in
    s.leaves
    ∙ unmatched-idle (files ++ builtin) [] patterns s.matched (λ index.
      has_index-note_builtin index compiled builtin s.found.1 s.matched s.noting
      ∙ rw
          (
            has_index-pick index compiled files [] s.found s.picking,
            hits_at-append index compiled files builtin,
          )
          (ground arith))
