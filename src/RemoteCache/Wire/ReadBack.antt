-- ===== src/RemoteCache/Wire/ReadBack.antt =====
-- The accessors of a message at what the writers wrote.
use tine.Base.{
  ℕ, ◌^◌, ◌<◌, ◌≡◌, refl, ◌∙◌, ap, not, List, [], ◌∷◌, Bytes, length, last_or, is_nil, All, none,
  some, ◌==◌, if◌then◌else◌, arith,
}
use tine.Base.Text.{Text, encode, decode, decode-encode, IsScalar}
use tine.RemoteCache.Outcome.{ok, Result, ◌>>=◌, each}
use tine.RemoteCache.Wire.Fields.{blob, Field}
use tine.RemoteCache.Wire.Message
use tine.RemoteCache.Wire.Message.{Message, message, ints_of, blobs_of, values_at}
use tine.RemoteCache.Wire.Message.Lookup.{under, holding, message-holding, values_at-holding}
use tine.RemoteCache.Wire.RoundTrip.{Writes, Writes-fields, Writes-blob, blob_fields, IsNumber}
use tine.RemoteCache.Wire.Writer

-- What `Message(data)` is of bytes that were written.
pub message-Writes : {bs : Bytes} {fs : List Field} → Writes bs fs → message bs ≡ ok (holding bs fs)
message-Writes {bs} {fs} w = message-holding bs fs (Writes-fields w)

module _ (bs : Bytes) (fs : List Field) (number : ℕ) where
  pub blobs-holding : Message.blobs (holding bs fs) number ≡ blobs_of (under number fs)
  unfolding Message.blobs
  blobs-holding = unfold Message.blobs in ap blobs_of (values_at-holding number bs fs)

  pub ints-holding : Message.ints (holding bs fs) number ≡ ints_of (under number fs)
  unfolding Message.ints
  ints-holding = ap ints_of (values_at-holding number bs fs)

  pub integer-holding :
      Message.integer (holding bs fs) number ≡ last_or 0 (ints_of (under number fs))
  unfolding Message.integer
  integer-holding = ap (last_or 0) ints-holding

  pub flag-holding :
      Message.flag (holding bs fs) number ≡ not (last_or 0 (ints_of (under number fs)) == 0)
  unfolding Message.flag
  flag-holding = ap (λ n. not (n == 0)) integer-holding

  pub last_blob-holding :
      Message.last_blob (holding bs fs) number ≡ last_or [] (blobs_of (under number fs))
  unfolding Message.last_blob
  last_blob-holding = ap (last_or []) blobs-holding

-- `decode` of what is found, or "" of nothing.
abbrev pub text_found : Bytes → Text
text_found found = if is_nil found then [] else decode found

pub text-holding :
    (bs : Bytes) (fs : List Field) (number : ℕ)
    → Message.text (holding bs fs) number ≡ text_found (last_or [] (blobs_of (under number fs)))
unfolding Message.text
text-holding bs fs number = ap text_found (last_blob-holding bs fs number)

text_found-decode : (bs : Bytes) → text_found bs ≡ decode bs
unfolding decode
text_found-decode [] = refl
text_found-decode (b ∷ bs) = refl

pub text_found-encode : (t : Text) → All IsScalar t → text_found (encode t) ≡ t
text_found-encode t h = text_found-decode (encode t) ∙ decode-encode t h

-- What a text must be to be written and read back.
pub record IsWritable (t : Text) : Type 0 where
  pub scalars : All IsScalar t
  pub short : length (encode t) < 2 ^ 70

pub Writes-text :
    (n : ℕ) (t : Text)
    → IsNumber n
    → IsWritable t
    → Writes (Writer.text n t) (blob_fields n (encode t))
unfolding Writer.text
Writes-text n t fits w = Writes-blob n (encode t) fits w.short

-- A list of nested messages, all under one number.
abbrev pub nested_fields : ℕ → List Bytes → List Field
nested_fields n [] = []
nested_fields n (body ∷ bodies) = (n, blob body) ∷ nested_fields n bodies

pub blobs_of-nested_fields :
    (n : ℕ) (bodies : List Bytes) → blobs_of (under n (nested_fields n bodies)) ≡ bodies
unfolding blobs_of
blobs_of-nested_fields n [] = refl
blobs_of-nested_fields n (body ∷ bodies) = ground (arith, blobs_of-nested_fields n bodies)

pub child-holding :
    (bs body : Bytes) (fs : List Field) (number : ℕ) {inner : Message}
    → blobs_of (under number fs) ≡ body ∷ []
    → message body ≡ ok inner
    → Message.child (holding bs fs) number ≡ ok (some inner)
unfolding Message.child
child-holding bs body fs number h k = rw (blobs-holding bs fs number, h, Message.child) (rw k)

pub child-holding-none :
    (bs : Bytes) (fs : List Field) (number : ℕ)
    → blobs_of (under number fs) ≡ []
    → Message.child (holding bs fs) number ≡ ok none
unfolding Message.child
child-holding-none bs fs number h = rw (blobs-holding bs fs number, h, Message.child)

-- Nested messages of one kind, each written by `body` and read back by `read` as `norm` says.
module _ {A : Type 0} (body : A → Bytes) (read : Message → Result A) (norm : A → A) where
  abbrev pub bodies : List A → List Bytes
  bodies [] = []
  bodies (x ∷ xs) = body x ∷ bodies xs

  abbrev pub normed : List A → List A
  normed [] = []
  normed (x ∷ xs) = norm x ∷ normed xs

  abbrev pub ReadsBack : A → Type 0
  ReadsBack x = (m : Message) × (message (body x) ≡ ok m) × (read m ≡ ok (norm x))

  each_nested :
      (xs : List A)
      → All ReadsBack xs
      → (ms : List Message) × (each message (bodies xs) ≡ ok ms) × (each read ms ≡ ok (normed xs))
  each_nested [] h = ([], refl, refl)
  each_nested (x ∷ xs) h =
      let (m, e, k) = h.0 in
      let (ms, es, ks) = each_nested xs h.1 in (m ∷ ms, rw (e, es), rw (k, ks))

  pub children-nested :
      (bs : Bytes) (n : ℕ) (xs : List A)
      → All ReadsBack xs
      → (do parts ← Message.children (holding bs (nested_fields n (bodies xs))) n; each read parts)
        ≡ ok (normed xs)
  unfolding Message.children
  children-nested bs n xs h =
      let (ms, es, ks) = each_nested xs h in
      rw (blobs-holding bs _ n, blobs_of-nested_fields n (bodies xs), es) ks
