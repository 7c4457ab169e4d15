-- ===== src/RemoteCache/Shim/Storage/Updates.antt =====
-- What `batch_update` answers for each blob, and what `find_missing` leaves out.
use tine.Base.{◌≡◌, refl, inl, inr, Option, none, some, List, [], ◌∷◌, Bytes, Bool-cases}
use tine.Base.Text.{text_of}
use tine.RemoteCache.Outcome.{Raised, Result, ok, err, >>=-eq-ok}
use tine.RemoteCache.Bundle.Name.{same_digest}
use tine.RemoteCache.Bundle.Name.Order.{same_digest→eq}
use tine.RemoteCache.Reapi.Digest.{Digest, status_ok}
use tine.RemoteCache.Reapi.Blobs.{Blob}
use tine.RemoteCache.Store.Filed.{Filed, check_blob, check_blobs}
use tine.RemoteCache.Shim.State.{Setup}
use tine.RemoteCache.Shim.Storage.{status_invalid, keep_good, checked_as, check_entry, check_each}

module _ (u : Setup) where
  -- The answer for one blob of an update: what it hashes to and weighs is what its digest says, or
  -- why it is not kept.
  pub data IsChecked (entry : Blob) : Blob → Type 0 where
    good :
        (d : Digest)
        → entry.digest ≡ some d
        → check_blob u.platform d entry.content ≡ ok tt
        → IsChecked entry (record { digest = some d; content = []; status = some status_ok })
    bad :
        (d : Digest) (e : Raised)
        → entry.digest ≡ some d
        → check_blob u.platform d entry.content ≡ err e
        → IsChecked entry
            (record { digest = some d; content = []; status = some (status_invalid (u.say e)) })
    unnamed :
        entry.digest ≡ none
        → IsChecked entry (record {
          digest = none;
          content = [];
          status = some (status_invalid (text_of "no digest"));
        })

  abbrev pub AreChecked : List Blob → List Blob → Type 0
  AreChecked [] [] = Unit
  AreChecked (entry ∷ entries) (one ∷ answers) = IsChecked entry one × AreChecked entries answers
  AreChecked entries answers = ⊥

  checked_as-IsChecked :
      (entry : Blob) (d : Digest) (r : Result (Unit {0})) (kept : Filed)
      → entry.digest ≡ some d
      → check_blob u.platform d entry.content ≡ r
      → IsChecked entry (checked_as u d entry.content r kept).0
  checked_as-IsChecked entry d (ok tt) kept e f = good d e f
  checked_as-IsChecked entry d (err why) kept e f = bad d why e f

  check_entry-IsChecked :
      (entry : Blob) (asked : Option Digest) (kept : Filed)
      → entry.digest ≡ asked
      → IsChecked entry (check_entry u asked entry.content kept).0
  check_entry-IsChecked entry none kept e = unnamed e
  check_entry-IsChecked entry (some d) kept e =
      checked_as-IsChecked entry d (check_blob u.platform d entry.content) kept e refl

  check_each-AreChecked :
      (entries : List Blob) (kept : Filed) → AreChecked entries (check_each u entries kept).0
  unfolding check_each
  check_each-AreChecked [] kept = tt
  check_each-AreChecked (entry ∷ entries) kept = (
    check_entry-IsChecked entry entry.digest kept refl,
    check_each-AreChecked entries (check_entry u entry.digest entry.content kept).1,
  )

  keep_good-passes :
      (d : Digest) (content : Bytes) (kept : Filed)
      → check_blob u.platform d content ≡ ok tt
      → check_blobs u.platform kept ≡ ok tt
      → check_blobs u.platform (keep_good d content kept) ≡ ok tt
  unfolding keep_good check_blobs
  keep_good-passes d content [] e f = rw e refl
  keep_good-passes d content ((one, old) ∷ kept) e f =
      let (fine, g, k) = >>=-eq-ok (check_blob u.platform one old) _ f in
      elim (Bool-cases (same_digest one d)) [
        | inl h ↦ let same : one ≡ d = same_digest→eq one d h in rw (h, same, e) k
        | inr h ↦ rw (h, g) (keep_good-passes d content kept e k)
      ]

  checked_as-passes :
      (d : Digest) (content : Bytes) (r : Result (Unit {0})) (kept : Filed)
      → check_blob u.platform d content ≡ r
      → check_blobs u.platform kept ≡ ok tt
      → check_blobs u.platform (checked_as u d content r kept).1 ≡ ok tt
  checked_as-passes d content (ok tt) kept e f = keep_good-passes d content kept e f
  checked_as-passes d content (err why) kept e f = f

  check_entry-passes :
      (asked : Option Digest) (content : Bytes) (kept : Filed)
      → check_blobs u.platform kept ≡ ok tt
      → check_blobs u.platform (check_entry u asked content kept).1 ≡ ok tt
  check_entry-passes none content kept f = f
  check_entry-passes (some d) content kept f = checked_as-passes d content _ kept refl f

  check_each-passes :
      (entries : List Blob) (kept : Filed)
      → check_blobs u.platform kept ≡ ok tt
      → check_blobs u.platform (check_each u entries kept).1 ≡ ok tt
  unfolding check_each
  check_each-passes [] kept f = f
  check_each-passes (entry ∷ entries) kept f =
      check_each-passes entries (check_entry u entry.digest entry.content kept).1
        (check_entry-passes entry.digest entry.content kept f)

  -- Each blob of a batch is answered for alone: in their order, by whether it is what its digest says;
  -- and what is kept of the batch passes the check of `put_blobs`, which one bad blob would fail.
  pub check_each-AreChecked_passes :
      (entries : List Blob)
      → AreChecked entries (check_each u entries []).0
        × (check_blobs u.platform (check_each u entries []).1 ≡ ok tt)
  unfolding check_blobs
  check_each-AreChecked_passes entries =
      (check_each-AreChecked entries [], check_each-passes entries [] refl)
