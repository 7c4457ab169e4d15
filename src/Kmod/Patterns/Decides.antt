-- ===== src/Kmod/Patterns/Decides.antt =====
-- `select` of kmod/kmod.py: which files it picks.
use tine.Base.{
  ℕ, Bool, true, false, not, ◌&&◌, ◌≡◌, ◌↔◌, ◌⊎◌, refl, ap, ◌∙◌, inl, inr, Option, none, some, List,
  [], ◌∷◌, ◌++◌, map, All, same_bytes, same_bytes→eq, Bool-cases, Option-cases, if◌then◌else◌,
  arith,
}
use tine.Base.Text.{Text}
use tine.Kmod.Names.{mem}
use tine.Kmod.Patterns.{
  Pattern, compile, matches, matchable, decide, note_matched, pick, note_builtin, unmatched, select,
}

abbrev pub IsSilent : Text → List Pattern → Type 0
IsSilent name = All (λ (p : Pattern). matches name p ≡ false)

-- The last of the patterns that matches the name is none that excludes.
pub record Chosen (name : Text) (patterns : List Pattern) : Type 0 where
  pub before : List Pattern
  pub pattern : Pattern
  pub after : List Pattern
  pub split : patterns ≡ before ++ pattern ∷ after
  pub hit : matches name pattern ≡ true
  pub silent : IsSilent name after
  pub kept : pattern.exclude ≡ false

decide_silent :
    (name : Text) (patterns : List Pattern) (keep : Bool)
    → IsSilent name patterns
    → decide name patterns keep ≡ keep
unfolding decide
decide_silent name [] keep h = refl
decide_silent name (p ∷ patterns) keep h = rw h.0 (decide_silent name patterns keep h.1)

decide-append :
    (name : Text) (before after : List Pattern) (keep : Bool)
    → decide name (before ++ after) keep ≡ decide name after (decide name before keep)
unfolding decide
decide-append name [] after keep = refl
decide-append name (p ∷ before) after keep = decide-append name before after _

Chosen-decide :
    (name : Text) (patterns : List Pattern)
    → Chosen name patterns
    → decide name patterns false ≡ true
unfolding decide
Chosen-decide name patterns c =
    ap (λ ps. decide name ps false) c.split
    ∙ decide-append name c.before (c.pattern ∷ c.after) false
    ∙ rw (c.hit, c.kept) (decide_silent name c.after true c.silent)

later :
    (name : Text) (p : Pattern) (patterns : List Pattern)
    → Chosen name patterns
    → Chosen name (p ∷ patterns)
later name p patterns c = record {
  before = p ∷ c.before;
  pattern = c.pattern;
  after = c.after;
  split = ap (◌∷◌ p) c.split;
  hit = c.hit;
  silent = c.silent;
  kept = c.kept;
}

decide-Chosen :
    (name : Text) (patterns : List Pattern) (keep : Bool)
    → decide name patterns keep ≡ true
    → Chosen name patterns ⊎ ((keep ≡ true) × IsSilent name patterns)
unfolding decide
decide-Chosen name [] keep h = inr (h, tt)
decide-Chosen name (p ∷ patterns) keep h = elim (Bool-cases (matches name p)) [
  | inl hit ↦ elim (decide-Chosen name patterns (not p.exclude) (rw hit at h)) [
    | inl c ↦ inl (later name p patterns c)
    | inr (kept, silent) ↦ inl (record {
      before = [];
      pattern = p;
      after = patterns;
      split = refl;
      hit = hit;
      silent = silent;
      kept = ground (arith, kept);
    })
  ]
  | inr quiet ↦ elim (decide-Chosen name patterns keep (rw quiet at h)) [
    | inl c ↦ inl (later name p patterns c)
    | inr (kept, silent) ↦ inr (kept, (quiet, silent))
  ]
]

abbrev decides : Option Text → List Pattern → Bool
decides none compiled = false
decides (some name) compiled = decide name compiled false

-- What the loop did with the first file, and with the others.
pub record Picks (compiled : List Pattern) (file : Text) (files : List Text) (matched : List ℕ)
    (result : List Text × List ℕ) : Type 0 where
  pub name : Text
  pub rest : List Text × List ℕ
  pub named : matchable file ≡ some name
  pub others : pick compiled files (note_matched name 0 compiled matched) ≡ some rest
  pub picked : result.0 ≡ (if decide name compiled false then file ∷ rest.0 else rest.0)
  pub noted : result.1 ≡ rest.1

pub pick-Picks :
    (compiled : List Pattern) (file : Text) (files : List Text) (matched : List ℕ)
    (result : List Text × List ℕ)
    → pick compiled (file ∷ files) matched ≡ some result
    → Picks compiled file files matched result
unfolding pick
pick-Picks compiled file files matched result h = elim (Option-cases (matchable file)) [
  | inl gone ↦ absurd (let h' = rw gone at h in cc)
  | inr (name, here) ↦
      elim (Option-cases (pick compiled files (note_matched name 0 compiled matched))) [
        | inl gone ↦ absurd (let h' = rw (here, gone) at h in cc)
        | inr (rest, others) ↦
            let h' = rw (here, others) at h in
            record {
              name = name;
              rest = rest;
              named = here;
              others = others;
              picked = ground (arith, h');
              noted = ground (arith, h');
            }
      ]
]

same_decides :
    (rel file name : Text) (compiled : List Pattern)
    → matchable file ≡ some name
    → same_bytes rel file ≡ true
    → decides (matchable rel) compiled ≡ decide name compiled false
same_decides rel file name compiled h same =
    ap (λ r. decides (matchable r) compiled) (same_bytes→eq rel file same)
    ∙ ap (λ found. decides found compiled) h

mem-pick :
    (rel : Text) (compiled : List Pattern) (files : List Text) (matched : List ℕ)
    (result : List Text × List ℕ)
    → pick compiled files matched ≡ some result
    → mem rel result.0 ≡ (mem rel files && decides (matchable rel) compiled)
unfolding pick
mem-pick rel compiled [] matched result h = let same : result ≡ ([], matched) = cc in rw same
mem-pick rel compiled (file ∷ files) matched result h =
    let p = pick-Picks compiled file files matched result h in
    let others =
      mem-pick rel compiled files (note_matched p.name 0 compiled matched) p.rest p.others in
    ap (mem rel) p.picked ∙ ground (arith, others, same_decides rel file p.name compiled p.named)

-- The loops that `select` runs.
pub record Selects (files builtin patterns picked left : List Text) : Type 0 where
  pub found : List Text × List ℕ
  pub matched : List ℕ
  pub picking : pick (map compile patterns) files [] ≡ some found
  pub noting : note_builtin (map compile patterns) builtin found.1 ≡ some matched
  pub picks : picked ≡ found.0
  pub leaves : left ≡ unmatched 0 patterns matched

pub select-Selects :
    (files builtin patterns picked left : List Text)
    → select files builtin patterns ≡ some (picked, left)
    → Selects files builtin patterns picked left
unfolding select
select-Selects files builtin patterns picked left h =
    elim (Option-cases (pick (map compile patterns) files [])) [
      | inl gone ↦ absurd (let h' = rw gone at h in cc)
      | inr (found, picking) ↦
          elim (Option-cases (note_builtin (map compile patterns) builtin found.1)) [
            | inl gone ↦ absurd (let h' = rw (picking, gone) at h in cc)
            | inr (matched, noting) ↦
                let h' = rw (picking, noting) at h in
                record {
                  found = found;
                  matched = matched;
                  picking = picking;
                  noting = noting;
                  picks = ground (arith, h');
                  leaves = ground (arith, h');
                }
          ]
    ]

-- A file is picked exactly where it is one of the module files and the last of the patterns that matches it
-- does not exclude.
pub select-Chosen :
    (files builtin patterns picked left : List Text) (rel name : Text)
    → select files builtin patterns ≡ some (picked, left)
    → matchable rel ≡ some name
    → (mem rel picked ≡ true) ↔ ((mem rel files ≡ true) × Chosen name (map compile patterns))
select-Chosen files builtin patterns picked left rel name h named =
    let s = select-Selects files builtin patterns picked left h in
    let compiled = map compile patterns in
    let kept =
      ap (mem rel) s.picks
      ∙ mem-pick rel compiled files [] s.found s.picking
      ∙ ap (λ found. mem rel files && decides found compiled) named in
    (
      (λ k. (
        ground (arith, k, kept),
        elim (decide-Chosen name compiled false (ground (arith, k, kept))) [
          | inl chosen ↦ chosen
          | inr none_kept ↦ absurd (cc)
        ],
      )),
      (λ k. kept ∙ rw (k.0, Chosen-decide name compiled k.1)),
    )
