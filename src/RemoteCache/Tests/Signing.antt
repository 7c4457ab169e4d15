-- ===== src/RemoteCache/Tests/Signing.antt =====
-- remote_cache/signing.py with one key, whose signature of a message is the message's length.
use tine.RemoteCache.Signing.Signer.{id}
use tine.RemoteCache.Signing.Signer.{check_window}
use tine.RemoteCache.Signing.Signer.{check_current}
use tine.Base.Text
use tine.RemoteCache.Signing.Authority
use tine.Base.Text.{decode}
use tine.RemoteCache.Signing.Authority.{verify}
use tine.RemoteCache.Signing.Authority.{check_at}
use tine.RemoteCache.Signing.Authority.{check}
use tine.RemoteCache.Signing.Authority.{load_certificate}
use tine.RemoteCache.Signing.Authority.{check_pem}
use tine.RemoteCache.Signing.Authority.{key_from_bucket}
use tine.Base.{
  ℕ, ◌≡◌, refl, true, none, some, List, [], ◌∷◌, ◌++◌, Bytes, length, same_bytes, same_bytes_refl,
  ltb, ◌+◌, ◌==◌, arith,
}
use tine.Base.Text.{Text, encode, text_of}
use tine.RemoteCache.Outcome.{ok}
use tine.RemoteCache.Signing.Envelope.{envelope, split, signed, domain}
use tine.RemoteCache.Signing.Envelope.Hashes.{signed_injective}
use tine.RemoteCache.Signing.Authority.{Crypto, Host, key_for, unwrap}
use tine.RemoteCache.Signing.Signer.{Keys, Signer, wrap}
use tine.RemoteCache.Signing.Signer.Admitted.{IsSigning, IsAdmitted, unwrap-wrap}
use tine.RemoteCache.Signing.Authority.Trust.{IsVouchedFor, unwrap-IsVouchedFor}

abbrev pub action : Text
action = text_of "00112233445566778899aabbccddeeff00112233445566778899aabbccddeeff"

abbrev payload : Bytes
payload = text_of "result"

abbrev pub key_name : Bytes
key_name = text_of "key-name"

-- The certificate reads as the number of its key; one accepted until time 5.
abbrev pub crypto : Crypto
crypto = record {
  Key = ℕ;
  Certificate = ℕ;
  Time = ℕ;
  is_ed25519 = λ _. true;
  verifies = λ key signature message. same_bytes signature (length message ∷ key ∷ []);
  key_digest = λ key. key_name ++ (key ∷ []);
  load_pem = λ pem. some (length pem);
  public_key = λ leaf. leaf;
  chain_accepts = λ leaf now. now == 5;
}

-- Nothing is remembered; the bucket has one certificate, and the clock stands still.
abbrev host : Host ℕ (List Text)
host = record {
  certificate = λ kept named. none;
  put_certificate = λ kept named pem. pem ∷ kept;
  fetch = λ name kept. (ok (some (text_of "pem")), kept);
  now = λ kept. (5, kept);
}

abbrev stored : Bytes
stored = text_of "TINE" ++ (1 ∷ 1 ∷ (key_name ++ (0 ∷ 2 ∷ 87 ∷ 3 ∷ payload)))

unwraps : (unwrap crypto host action stored []).0 ≡ ok payload
unfolding unwrap split key_for key_from_bucket check_pem load_certificate check check_at signed
    verify decode
unwraps = refl

unwrap-IsVouchedFor_example : IsVouchedFor crypto host action stored payload
unwrap-IsVouchedFor_example = unwrap-IsVouchedFor crypto host action stored [] unwraps

finds_key : (key_for crypto host key_name []).0 ≡ ok (some 3)
unfolding key_for Authority.key_from_bucket Authority.check_pem Authority.load_certificate
    Authority.check Authority.check_at Text.decode
finds_key = refl

abbrev message : Bytes
message = domain ++ (action ++ payload)

signs : signed action payload ≡ ok message
unfolding signed
signs = refl

signed_injective_example : (action ≡ action) × (payload ≡ payload)
signed_injective_example = signed_injective action action payload payload signs signs

-- A key that signs with a message's length, and its certificate, which is remembered.
abbrev pub keys : Keys crypto
keys = record {
  PrivateKey = ℕ;
  Lifetime = ℕ;
  public = λ key. key;
  sign = λ key message. length message ∷ key ∷ [];
  not_before = λ leaf. 0;
  not_after = λ leaf. 100;
  plus = λ now lifetime. now + lifetime;
  is_before = λ earlier later. ltb earlier later;
}

abbrev keeper : Host ℕ (List Text)
keeper = record {
  certificate = λ kept named. some (text_of "pem");
  put_certificate = λ kept named pem. pem ∷ kept;
  fetch = λ name kept. (ok none, kept);
  now = λ kept. (5, kept);
}

abbrev signer : Signer crypto keys
signer = record {
  object_lifetime = 9;
  key = 3;
  certificate_pem = some (text_of "pem");
  certificate = some 3;
}

signer-IsSigning : IsSigning crypto keys keeper 3
unfolding Authority.key_id
signer-IsSigning = record {
  kind = refl;
  verifies = λ message. same_bytes_refl (length message ∷ 3 ∷ []);
  short = λ message. omega arith;
  width = refl;
}

signer-IsAdmitted : IsAdmitted crypto keys keeper signer []
signer-IsAdmitted = record {
  pem = text_of "pem";
  leaf = 3;
  remembered = refl;
  loads = refl;
  holds = refl;
  chain = refl;
}

wraps : (wrap crypto keys keeper signer action payload []).0 ≡ ok stored
unfolding wrap check_current check_window signed envelope id
wraps = refl

unwrap-wrap_example : (unwrap crypto keeper action stored []).0 ≡ ok payload
unwrap-wrap_example =
    unwrap-wrap crypto keys keeper signer action payload [] [] signer-IsSigning wraps
      signer-IsAdmitted
