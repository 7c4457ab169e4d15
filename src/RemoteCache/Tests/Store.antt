-- ===== src/RemoteCache/Tests/Store.antt =====
-- remote_cache/store.py with two small blobs, under a stand-in for sha256 of its width.
use tine.RemoteCache.Store.Evict
use tine.RemoteCache.Store.Choose
use tine.RemoteCache.Store.Evict.{drop_row}
use tine.RemoteCache.Store.Evict.{forget_one}
use tine.RemoteCache.Store.Choose.{hashes_of}
use tine.RemoteCache.Store.Evict.{forget_each}
use tine.RemoteCache.Store.Choose.{insert_aged}
use tine.RemoteCache.Store.Choose.{sort_aged}
use tine.RemoteCache.Signing.Envelope
use tine.RemoteCache.Store.State
use tine.RemoteCache.Store.Choose.{among_texts}
use tine.RemoteCache.Store.Choose.{candidates}
use tine.RemoteCache.Store.State.{now}
use tine.RemoteCache.Signing.Envelope.{is_sha256_hex}
use tine.RemoteCache.Store.State.{path}
use tine.Base.{
  ℕ, zero, suc, ◌+◌, ◌*◌, ◌/◌, ◌≡◌, refl, true, false, none, some, List, [], ◌∷◌, Bytes,
}
use tine.Base.Text.{Text, text_of}
use tine.RemoteCache.Outcome.{ok}
use tine.RemoteCache.Reapi.Digest.{Digest}
use tine.RemoteCache.Store.Filed.{check_blobs}
use tine.RemoteCache.Store.Filed.{check_blob}
use tine.RemoteCache.Store.Filed.{arriving_bytes}
use tine.RemoteCache.Store.Filed.{hashes}
use tine.RemoteCache.Store.Filed.{store_rows}
use tine.RemoteCache.Store.State.{present}
use tine.RemoteCache.Store.Blobs.{file_rows}
use tine.RemoteCache.Store.Blobs.{write_files}
use tine.RemoteCache.Store.Rows.{absent_rows}
use tine.RemoteCache.Store.Rows.{delete_row}
use tine.RemoteCache.Store.Rows.{delete_rows}
use tine.RemoteCache.Store.Rows.{insert_seen}
use tine.RemoteCache.Store.Rows.{result_rows}
use tine.RemoteCache.Store.Rows.{sort_seen}
use tine.RemoteCache.Signing.Envelope.{among}
use tine.RemoteCache.Signing.Envelope.{left_strip}
use tine.RemoteCache.Signing.Envelope.{right_strip}
use tine.RemoteCache.Signing.Envelope.{strip}
use tine.RemoteCache.Store.Table.{upsert}
use tine.RemoteCache.Store.Table.{remove}
use tine.RemoteCache.Store.Table.{change}
use tine.RemoteCache.Store.Table.{IsKeyed, find}
use tine.RemoteCache.Store.State.{Platform, BlobRow, ResultRow, File, Store, is_here, total}
use tine.RemoteCache.Store.Choose.{Candidate, choose}
use tine.RemoteCache.Store.Evict.{forget, evict}
use tine.RemoteCache.Store.Rows.{evict_rows}
use tine.RemoteCache.Store.Blobs.{blob, put_blobs, bundle_of, drop_blob}
use tine.RemoteCache.Store.Start.{reconcile, is_there, reconcile_lem}
use tine.RemoteCache.Store.Reads.{blob-eq-ok}
use tine.RemoteCache.Store.Held.{IsCounted, evict-IsCounted}
use tine.RemoteCache.Store.RowBound.{evict_rows-find}
use tine.RemoteCache.Store.Filed.{Filed}
use tine.RemoteCache.Store.Filing.{IsFileable, file_rows-IsCounted}
use tine.RemoteCache.Store.Provenance.{bundle_of-kept}

abbrev zeros : ℕ → Text
zeros zero = []
zeros (suc n) = b'0' ∷ zeros n

abbrev hash : Bytes → Text
hash [] = zeros 64
hash (b ∷ bs) = b ∷ zeros 63

abbrev platform : Platform
platform = record { sha256 = hash; ninety_percent = λ n. n * 9 / 10; time = λ n. n + 100 }

abbrev blob_a : Bytes
blob_a = b'a' ∷ []

abbrev blob_b : Bytes
blob_b = b'b' ∷ 1 ∷ []

abbrev digest_a : Digest
digest_a = record { hash = hash blob_a; size_bytes = 1 }

abbrev digest_b : Digest
digest_b = record { hash = hash blob_b; size_bytes = 2 }

-- Two blobs are here and one is only known of; the store is over both of its bounds.
abbrev full : Store
full = record {
  max_bytes = 2;
  max_rows = 3;
  held = 3;
  readings = 0;
  blobs =
      (hash blob_a, record { size = 1; bundle = some (text_of "one"); present = true; seen = 1 })
      ∷ (hash blob_b, record { size = 2; bundle = none; present = true; seen = 2 })
      ∷ (zeros 64, record { size = 5; bundle = some (text_of "two"); present = false; seen = 9 })
      ∷ [];
  results = (zeros 64, record { pointer = 1 ∷ []; seen = 3 }) ∷ [];
  certificates = [];
  files =
      (hash blob_a, record { content = blob_a; used = 5 })
      ∷ (hash blob_b, record { content = blob_b; used = 4 })
      ∷ [];
}

reconcile_lem_example :
    ((key : Text)
      → is_here (find key (reconcile full).blobs) ≡ is_there (find key (reconcile full).files))
    × ((reconcile full).held ≡ total (reconcile full).blobs)
reconcile_lem_example = reconcile_lem full

reads_a : (blob platform digest_a full).0 ≡ ok (some blob_a)
unfolding blob path is_sha256_hex find now
reads_a = refl

blob-eq-ok_example : hash blob_a ≡ digest_a.hash
blob-eq-ok_example = blob-eq-ok platform digest_a full reads_a

puts_b : (put_blobs platform ((digest_b, blob_b) ∷ []) none full).0 ≡ ok tt
unfolding put_blobs evict find choose forget evict_rows check_blobs check_blob arriving_bytes hashes
    store_rows present path now candidates among_texts sort_aged insert_aged hashes_of forget_each
    drop_row forget_one file_rows write_files absent_rows delete_row delete_rows insert_seen
    result_rows sort_seen change remove upsert among left_strip right_strip strip is_sha256_hex
puts_b = refl

abbrev two : List Candidate
two =
    record { used = 4; hash = hash blob_b; size = 2 }
    ∷ record { used = 5; hash = hash blob_a; size = 1 }
    ∷ []

full-IsCounted : IsCounted full
unfolding total
full-IsCounted = refl

evicts : (evict platform 0 [] full).0 ≡ ok tt
unfolding evict candidates among_texts State.path Envelope.is_sha256_hex choose sort_aged find
    insert_aged forget forget_each hashes_of forget_one drop_row State.now
evicts = refl

evict-IsCounted_example : IsCounted (evict platform 0 [] full).1
evict-IsCounted_example = evict-IsCounted platform 0 [] full full-IsCounted evicts

evicts_b : (evict platform 0 [] full).1.held ≡ 1
unfolding evict Choose.candidates Choose.among_texts State.path Envelope.is_sha256_hex choose
    Choose.sort_aged find Choose.insert_aged forget Evict.forget_each Choose.hashes_of
    Evict.forget_one Evict.drop_row State.now
evicts_b = refl

forgets : (forget platform (hash blob_a ∷ []) full).0 ≡ ok tt
unfolding forget Evict.forget_each Evict.forget_one State.path Envelope.is_sha256_hex find
    Evict.drop_row State.now
forgets = refl

a_is_here : is_here (find (hash blob_a) full.blobs) ≡ true
unfolding find
a_is_here = refl

full-IsKeyed : IsKeyed full.blobs
unfolding find
full-IsKeyed = (refl, (refl, (refl, tt)))

evict_rows-find_example : find (hash blob_a) (evict_rows full).blobs ≡ find (hash blob_a) full.blobs
evict_rows-find_example = evict_rows-find full (hash blob_a) full-IsKeyed a_is_here

bundle_of-kept_example :
    (bundle_of digest_a (evict platform 0 [] full).1 ≡ bundle_of digest_a full)
    × (bundle_of digest_a (drop_blob platform digest_b full).1 ≡ bundle_of digest_a full)
    × (bundle_of digest_a (blob platform digest_b full).1 ≡ bundle_of digest_a full)
bundle_of-kept_example = bundle_of-kept platform digest_a 0 [] digest_b full

abbrev blob_0 : Bytes
blob_0 = b'0' ∷ 1 ∷ 2 ∷ 3 ∷ 4 ∷ []

abbrev filing : Filed
filing =
    (record { hash = zeros 64; size_bytes = 5 }, blob_0)
    ∷ (record { hash = hash (b'c' ∷ []); size_bytes = 1 }, b'c' ∷ [])
    ∷ (digest_b, blob_b)
    ∷ []

filing-IsFileable : IsFileable full.blobs filing
unfolding find
filing-IsFileable = (refl, (refl, (refl, tt)), (tt, (refl, tt), (refl, tt, tt)))

file_rows-IsCounted_example :
    ((file_rows platform filing none full).0 ≡ ok tt)
    × IsCounted (file_rows platform filing none full).1
file_rows-IsCounted_example =
    file_rows-IsCounted platform filing none full filing-IsFileable full-IsCounted
