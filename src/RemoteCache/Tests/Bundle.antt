-- ===== src/RemoteCache/Tests/Bundle.antt =====
-- remote_cache/bundle.py on two small blobs, under a stand-in for sha256 of its width.
use tine.Base.{ℕ, zero, suc, ◌≡◌, refl, List, [], ◌∷◌, ◌++◌, Bytes, All, arith}
use tine.Base.Struct.{AreBytes}
use tine.Base.Text.{Text, encode}
use tine.RemoteCache.Outcome.{ok, err, bundle_tail}
use tine.RemoteCache.Bundle.{pack, pack_in_order, sorted_items, unpack}
use tine.RemoteCache.Bundle.RoundTrip.{IsMember, IsHashed, unpack-pack, unpack-eq-ok}

abbrev zeros : ℕ → Text
zeros zero = []
zeros (suc n) = b'0' ∷ zeros n

abbrev hash : Bytes → Text
hash [] = zeros 64
hash (b ∷ bs) = b ∷ zeros 63

abbrev blob_b : Bytes
blob_b = b'b' ∷ 1 ∷ []

abbrev blob_a : Bytes
blob_a = b'a' ∷ []

abbrev two_blobs : List (Text × Bytes)
two_blobs = (hash blob_b, blob_b) ∷ (hash blob_a, blob_a) ∷ []

two_blobs-IsMember : All (IsMember hash) two_blobs
unfolding encode
two_blobs-IsMember = (
  record { hashes = refl; width = refl; fits = omega arith },
  (record { hashes = refl; width = refl; fits = omega arith }, tt),
)

unpack-pack_example : unpack hash (pack two_blobs) ≡ ok (sorted_items two_blobs)
unpack-pack_example = unpack-pack hash two_blobs two_blobs-IsMember

sorted : sorted_items two_blobs ≡ (hash blob_a, blob_a) ∷ (hash blob_b, blob_b) ∷ []
unfolding sorted_items
sorted = refl

short_tail : unpack hash (1 ∷ []) ≡ err bundle_tail
unfolding unpack
short_tail = refl

abbrev size_and_blob : Bytes
size_and_blob = 0 ∷ 0 ∷ 0 ∷ 0 ∷ 0 ∷ 0 ∷ 0 ∷ 1 ∷ b'a' ∷ []

abbrev one_packed : Bytes
one_packed = (b'a' ∷ zeros 63) ++ (0 ∷ 0 ∷ 0 ∷ 0 ∷ 0 ∷ 0 ∷ 0 ∷ 1 ∷ b'a' ∷ [])

one_unpacks : unpack hash one_packed ≡ ok ((hash blob_a, blob_a) ∷ [])
unfolding unpack encode
one_unpacks = refl

zeros-AreBytes : (n : ℕ) (bs : Bytes) → AreBytes bs → AreBytes (zeros n ++ bs)
zeros-AreBytes zero bs h = h
zeros-AreBytes (suc n) bs h = (omega arith, zeros-AreBytes n bs h)

one_packed-AreBytes : AreBytes one_packed
one_packed-AreBytes =
    let tail : AreBytes size_and_blob = (
      omega arith,
      (
        omega arith,
        (
          omega arith,
          (
            omega arith,
            (omega arith, (omega arith, (omega arith, (omega arith, (omega arith, tt))))),
          ),
        ),
      ),
    ) in
    (omega arith, zeros-AreBytes 63 size_and_blob tail)

unpack-eq-ok_example :
    (one_packed ≡ pack_in_order ((hash blob_a, blob_a) ∷ []))
    × All (IsHashed hash) ((hash blob_a, blob_a) ∷ [])
unpack-eq-ok_example =
    unpack-eq-ok hash one_packed ((hash blob_a, blob_a) ∷ []) one_packed-AreBytes one_unpacks
