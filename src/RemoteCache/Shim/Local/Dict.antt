-- ===== src/RemoteCache/Shim/Local/Dict.antt =====
-- What `dict` makes of a bundle's members: whatever their order in the bundle, each under its name.
use tine.Base.{
  if◌then◌else◌, ◌≡◌, refl, sym, ap, ◌∙◌, true, false, Option, none, some, List, [], ◌∷◌, Bytes,
  arith, inl, inr, Bool-cases, same_bytes, same_bytes→eq, same_bytes_refl, Option-cases,
}
use tine.Base.Text.{Text}
use tine.RemoteCache.Bundle.{text_le, insert_sorted, sorted_items}
use tine.RemoteCache.Store.Table.{Table, IsKeyed, find, upsert, find-upsert_here}
use tine.RemoteCache.Shim.Local.{dict_from}
use tine.RemoteCache.Shim.Proven.{keys_of, all_among}
use tine.RemoteCache.Shim.Publish.Order.{find-upsert_other}
use tine.RemoteCache.Shim.Publish.Agreement.{all_among-upsert}

pub same_bytes_apart : (xs ys : Bytes) → same_bytes xs ys ≡ false → same_bytes ys xs ≡ false
same_bytes_apart xs ys h = elim (Bool-cases (same_bytes ys xs)) [
  | inr e ↦ e
  | inl e ↦
      let same = same_bytes→eq ys xs e in
      let again : same_bytes xs ys ≡ true = rw same (same_bytes_refl xs) in
      absurd (let both : false ≡ true = sym h ∙ again in cc)
]

find-dict_from-none :
    (key : Text) (l t : Table Bytes) → find key l ≡ none → find key (dict_from l t) ≡ find key t
unfolding find dict_from
find-dict_from-none key [] t h = refl
find-dict_from-none key ((one, blob) ∷ l) t h = elim (Bool-cases (same_bytes one key)) [
  | inl e ↦ absurd (let h' = rw e at h in cc)
  | inr e ↦
      find-dict_from-none key l (upsert one blob (λ _. blob) t) (rw e at h)
      ∙ find-upsert_other one key blob t e
]

find-dict_from-some :
    (key : Text) (l t : Table Bytes) {content : Bytes}
    → IsKeyed l
    → find key l ≡ some content
    → find key (dict_from l t) ≡ some content
unfolding find dict_from
find-dict_from-some key [] t keyed h = absurd (cc)
find-dict_from-some key ((one, blob) ∷ l) t keyed h = elim (Bool-cases (same_bytes one key)) [
  | inl e ↦
      let same = same_bytes→eq one key e in
      let absent : find key l ≡ none = rw same at keyed.0 in
      let here : some blob ≡ some _ = rw e at h in
      find-dict_from-none key l (upsert one blob (λ _. blob) t) absent
      ∙ (ap (λ (k : Text). find k (upsert one blob (λ _. blob) t)) (sym same)
          ∙ find-upsert_here one blob t
          ∙ here)
  | inr e ↦ find-dict_from-some key l (upsert one blob (λ _. blob) t) keyed.1 (rw e at h)
]

find-insert_sorted :
    (key one : Text) (blob : Bytes) (l : Table Bytes)
    → find one l ≡ none
    → find key (insert_sorted (one, blob) l) ≡ find key ((one, blob) ∷ l)
unfolding find insert_sorted
find-insert_sorted key one blob [] absent = refl
find-insert_sorted key one blob ((other, row) ∷ l) absent = elim (Bool-cases (text_le one other)) [
  | inl e ↦ rw e refl
  | inr e ↦ elim (Bool-cases (same_bytes other one)) [
    | inl clash ↦ absurd (let h' = rw clash at absent in cc)
    | inr apart ↦
        let rest = find-insert_sorted key one blob l (rw apart at absent) in
        elim (Bool-cases (same_bytes other key)) [
          | inl f ↦
              let same = same_bytes→eq other key f in
              elim (Bool-cases (same_bytes one key)) [
                | inl g ↦ absurd (
                    let same' = same_bytes→eq one key g in
                    let clash : same_bytes other one ≡ true =
                      rw (same, same') (same_bytes_refl key) in
                    let both : false ≡ true = sym apart ∙ clash in cc)
                | inr g ↦ rw (e, f, g) refl
              ]
          | inr f ↦ elim (Bool-cases (same_bytes one key)) [
            | inl g ↦ rw (e, f, g) (rw g at rest)
            | inr g ↦ rw (e, f, g) (rw g at rest)
          ]
        ]
  ]
]

IsKeyed-insert_sorted :
    (one : Text) (blob : Bytes) (l : Table Bytes)
    → find one l ≡ none
    → IsKeyed l
    → IsKeyed (insert_sorted (one, blob) l)
unfolding find insert_sorted
IsKeyed-insert_sorted one blob [] absent keyed = (refl, tt)
IsKeyed-insert_sorted one blob ((other, row) ∷ l) absent keyed =
    elim (Bool-cases (same_bytes other one)) [
      | inl clash ↦ absurd (let h' = rw clash at absent in cc)
      | inr apart ↦
          let absent' : find one l ≡ none = rw apart at absent in
          elim (Bool-cases (text_le one other)) [
            | inl e ↦ rw e (absent, keyed)
            | inr e ↦
                let flipped : same_bytes one other ≡ false = same_bytes_apart other one apart in
                rw e (
                  find-insert_sorted other one blob l absent' ∙ (rw flipped keyed.0),
                  IsKeyed-insert_sorted one blob l absent' keyed.1,
                )
          ]
    ]

-- Sorted, the members are the same under every name.
find-sorted_items :
    (key : Text) (l : Table Bytes) → IsKeyed l → find key (sorted_items l) ≡ find key l
unfolding find sorted_items
find-sorted_items key [] keyed = refl
find-sorted_items key ((one, blob) ∷ l) keyed =
    find-insert_sorted key one blob (sorted_items l) (find-sorted_items one l keyed.1 ∙ keyed.0)
    ∙ ap (λ (o : Option Bytes). if same_bytes one key then some blob else o)
        (find-sorted_items key l keyed.1)

IsKeyed-sorted_items : (l : Table Bytes) → IsKeyed l → IsKeyed (sorted_items l)
unfolding sorted_items
IsKeyed-sorted_items [] keyed = tt
IsKeyed-sorted_items ((one, blob) ∷ l) keyed =
    IsKeyed-insert_sorted one blob (sorted_items l) (find-sorted_items one l keyed.1 ∙ keyed.0)
      (IsKeyed-sorted_items l keyed.1)

-- The `dict` of the sorted members finds what the members had.
pub find-dict_sorted :
    (key : Text) (l : Table Bytes)
    → IsKeyed l
    → find key (dict_from (sorted_items l) []) ≡ find key l
unfolding find
find-dict_sorted key l keyed = elim (Option-cases (find key (sorted_items l))) [
  | inl e ↦ find-dict_from-none key (sorted_items l) [] e ∙ (sym e ∙ find-sorted_items key l keyed)
  | inr (content, e) ↦
      find-dict_from-some key (sorted_items l) [] (IsKeyed-sorted_items l keyed) e
      ∙ (sym e ∙ find-sorted_items key l keyed)
]

module _ (names : List Text) where
  all_among-insert_sorted :
      (one : Text) (blob : Bytes) (l : Table Bytes)
      → all_among (keys_of ((one, blob) ∷ l)) names ≡ true
      → all_among (keys_of (insert_sorted (one, blob) l)) names ≡ true
  unfolding all_among keys_of insert_sorted
  all_among-insert_sorted one blob [] h = h
  all_among-insert_sorted one blob ((other, row) ∷ l) h = elim (Bool-cases (text_le one other)) [
    | inl e ↦ rw e h
    | inr e ↦ rw e (rw (all_among-insert_sorted one blob l (ground (arith, h))) (ground (arith, h)))
  ]

  all_among-sorted_items :
      (l : Table Bytes)
      → all_among (keys_of l) names ≡ true
      → all_among (keys_of (sorted_items l)) names ≡ true
  unfolding all_among keys_of sorted_items
  all_among-sorted_items [] h = refl
  all_among-sorted_items ((one, blob) ∷ l) h =
      all_among-insert_sorted one blob (sorted_items l)
        (rw (all_among-sorted_items l (ground (arith, h))) (ground (arith, h)))

  all_among-dict_from :
      (l t : Table Bytes)
      → all_among (keys_of l) names ≡ true
      → all_among (keys_of t) names ≡ true
      → all_among (keys_of (dict_from l t)) names ≡ true
  unfolding all_among keys_of dict_from
  all_among-dict_from [] t h k = k
  all_among-dict_from ((one, blob) ∷ l) t h k =
      all_among-dict_from l (upsert one blob (λ _. blob) t) (ground (arith, h))
        (all_among-upsert names one blob t (ground (arith, h)) k)

  pub all_among-dict_sorted :
      (l : Table Bytes)
      → all_among (keys_of l) names ≡ true
      → all_among (keys_of (dict_from (sorted_items l) [])) names ≡ true
  all_among-dict_sorted l h =
      all_among-dict_from (sorted_items l) [] (all_among-sorted_items l h)
        (unfold all_among keys_of in refl)
