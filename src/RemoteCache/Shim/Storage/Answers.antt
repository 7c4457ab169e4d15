-- ===== src/RemoteCache/Shim/Storage/Answers.antt =====
-- What the handlers of `ContentAddressableStorage` answer: blob by blob, each for itself.
use tine.Base.{
  ◌≡◌, refl, ap, subst, ◌∙◌, inl, inr, true, Option, none, some, List, [], ◌∷◌, Bytes, Bool-cases,
}
use tine.RemoteCache.Outcome.{Raised, Result, ok, err, is_value_error}
use tine.RemoteCache.Exec.{continue, continue-eq-ok, handled, handled-eq-ok, pure}
use tine.RemoteCache.Reapi.Digest.{Digest}
use tine.RemoteCache.Reapi.Blobs.{Blob, BatchReadBlobsRequest}
use tine.RemoteCache.Shim.State.{Setup, Shim}
use tine.RemoteCache.Shim.Local.{blob}
use tine.RemoteCache.Shim.Local.Presence.{blob-hashes}
use tine.RemoteCache.Shim.Storage.{status_invalid, read_as, unread, read_one, read_each, batch_read}

module _ (u : Setup) where
  -- What a read of one digest answers in a state: the bytes found, which have its hash, with the code
  -- of success; that none are found, without bytes and with the code of a missing blob; or why the
  -- digest is refused, with the code of an invalid argument.
  pub data IsAnswer (s : Shim u.world.State) (d : Digest) : Blob → Type 0 where
    given :
        (content : Bytes)
        → (blob u d s).0 ≡ ok (some content)
        → u.platform.sha256 content ≡ d.hash
        → IsAnswer s d (record {
          digest = some d;
          content = content;
          status = some (record { code = 0; reason = [] });
        })
    missing :
        (blob u d s).0 ≡ ok none
        → IsAnswer s d (record {
          digest = some d;
          content = [];
          status = some (record { code = 5; reason = [] });
        })
    refused :
        (e : Raised)
        → (blob u d s).0 ≡ err e
        → is_value_error e ≡ true
        → IsAnswer s d (record {
          digest = some d;
          content = [];
          status = some (record { code = 3; reason = u.say e });
        })

  -- One answer for each digest, in their order, each in the state that the one before left.
  abbrev pub AreAnswers : Shim u.world.State → List Digest → List Blob → Type 0
  AreAnswers s [] [] = Unit
  AreAnswers s (d ∷ ds) (one ∷ answers) = IsAnswer s d one × AreAnswers (blob u d s).1 ds answers
  AreAnswers s ds answers = ⊥

  read_as-IsAnswer :
      (s : Shim u.world.State) (d : Digest) (found : Option Bytes)
      → (blob u d s).0 ≡ ok found
      → IsAnswer s d (read_as u d found)
  read_as-IsAnswer s d none e = missing e
  read_as-IsAnswer s d (some content) e = given content e (blob-hashes u d s e)

  unread-IsAnswer :
      (s : Shim u.world.State) (d : Digest) (e : Raised) (left : Shim u.world.State) {one : Blob}
      → (blob u d s).0 ≡ err e
      → (unread u d e left).0 ≡ ok one
      → IsAnswer s d one
  unread-IsAnswer s d e left {one} raised h = elim (Bool-cases (is_value_error e)) [
    | inl v ↦
        let h' = rw v at h in
        let same : record {
          digest = some d;
          content = [];
          status = some (status_invalid (u.say e));
        }
            ≡ one =
          cc in
        subst (IsAnswer s d) same (refused e raised v)
    | inr v ↦ absurd (let h' = rw v at h in cc)
  ]

  continue-eq-err :
      {A B : Type 0} (r : Result A) (f : A → B) (s : Shim u.world.State) {e : Raised}
      → (continue r (λ a. pure (f a)) s).0 ≡ err e
      → r ≡ err e
  continue-eq-err (ok a) f s h = absurd (cc)
  continue-eq-err (err x) f s h = cc

  read_one-IsAnswer :
      (d : Digest) (s : Shim u.world.State) {one : Blob}
      → (read_one u d s).0 ≡ ok one
      → IsAnswer s d one
  read_one-IsAnswer d s {one} h = elim (handled-eq-ok _ (unread u d) _ h) [
    | inl e ↦
        let got = blob u d s in
        let (found, f, k) = continue-eq-ok got.0 (λ c. pure (read_as u d c)) got.1 e in
        let same : read_as u d found ≡ one = cc in
        subst (IsAnswer s d) same (read_as-IsAnswer s d found f)
    | inr (why, f, k) ↦
        unread-IsAnswer s d why _ (continue-eq-err (blob u d s).0 (read_as u d) (blob u d s).1 f) k
  ]

  answered-left :
      (d : Digest) (r : Result (Option Bytes)) (s : Shim u.world.State)
      → let tried = continue r (λ c. pure (read_as u d c)) s in
        (handled tried.0 (unread u d) tried.1).1 ≡ s
  answered-left d (ok found) s = refl
  answered-left d (err e) s = elim (Bool-cases (is_value_error e)) [
    | inl v ↦ rw v refl
    | inr v ↦ rw v refl
  ]

  read_each-AreAnswers :
      (ds : List Digest) (s : Shim u.world.State) {answers : List Blob}
      → (read_each u ds s).0 ≡ ok answers
      → AreAnswers s ds answers
  unfolding read_each
  read_each-AreAnswers [] s {answers} h =
      let same : ◌≡◌ {A = List Blob} [] answers = cc in subst (AreAnswers s []) same tt
  read_each-AreAnswers (d ∷ ds) s {answers} h =
      let first = read_one u d s in
      let (one, e, k) = continue-eq-ok first.0 _ first.1 h in
      let others = read_each u ds first.1 in
      let (more, f, j) = continue-eq-ok others.0 (λ more. pure (one ∷ more)) others.1 k in
      let same : (one ∷ more) ≡ answers = cc in
      let left : first.1 ≡ (blob u d s).1 = answered-left d (blob u d s).0 (blob u d s).1 in
      subst (AreAnswers s (d ∷ ds)) same (
        read_one-IsAnswer d s e,
        subst (λ (t : Shim u.world.State). AreAnswers t ds more) left
            (read_each-AreAnswers ds first.1 f),
      )

  -- `batch_read` answers once for each digest, in their order, by what is found for it in the state that
  -- the digests before left: with the bytes, which have its hash, and code 0; without bytes and with
  -- code 5, where there are none; or with code 3 and why the digest is refused.
  pub batch_read-AreAnswers :
      (request : BatchReadBlobsRequest) (s : Shim u.world.State) {answers : List Blob}
      → (batch_read u request s).0 ≡ ok (record { blobs = answers })
      → AreAnswers s request.digests answers
  unfolding batch_read
  batch_read-AreAnswers request s {answers} h =
      let got = read_each u request.digests s in
      let (found, e, k) = continue-eq-ok got.0 (λ l. pure (record { blobs = l })) got.1 h in
      let same : found ≡ answers = cc in
      read_each-AreAnswers request.digests s (e ∙ ap (λ (l : List Blob). ok l) same)
