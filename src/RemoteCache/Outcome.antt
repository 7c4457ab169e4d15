-- ===== src/RemoteCache/Outcome.antt =====
-- What a Python function of remote_cache/ returns or raises. Bytes are numbers below 256.
use tine.Base.{ℕ, ◌≡◌, refl, ◌⊎◌, inl, inr, Bool, true, false, List, [], ◌∷◌, if◌then◌else◌}

-- The status of a gRPC call that a handler aborts.
pub data StatusCode : Type 0 where
  invalid_argument not_found permission_denied unimplemented : StatusCode

-- Each `raise ValueError(...)`, by its place. `no_fuel` is raised nowhere: it marks a loop that the
-- model gave too few rounds.
pub data Raised : Type 0 where
  varint_past_end varint_too_long field_zero length_past_end field_past_end : Raised
  bad_wire_type : ℕ → ℕ → Raised
  not_a_hash not_signed bad_version bad_algorithm short_object short_signature : Raised
  bad_certificate chain_refused wrong_key_kind wrong_key_name untrusted bad_signature : Raised
  bundle_tail bundle_size member_hash blob_mismatch no_bundle_name keyless_signed : Raised
  not_yet_valid expired expires_early no_certificate too_large bad_number bad_resource : Raised
  foreign_members wrong_members wrong_bundle : Raised
  -- urllib's `URLError`, a `RuntimeError` and gRPC's abort, which no `except ValueError` catches.
  url_error blob_gone : Raised
  aborted : StatusCode → Raised
  no_fuel : Raised

abbrev pub is_value_error : Raised → Bool
is_value_error url_error = false
is_value_error blob_gone = false
is_value_error (aborted code) = false
is_value_error _ = true

-- `except urllib.error.URLError`
abbrev pub is_url_error : Raised → Bool
is_url_error url_error = true
is_url_error _ = false

pub data Result {ℓ} (A : Type ℓ) : Type ℓ where
  ok : A → Result A
  err : Raised → Result A

module _ {ℓ κ} {A : Type ℓ} {B : Type κ} where
  infixl 5 ◌>>=◌
  -- What follows a call is not run once the call raised.
  abbrev pub ◌>>=◌ : Result A → (A → Result B) → Result B
  ok found >>= next = next found
  err raised >>= next = err raised

-- A list comprehension over a call that may raise.
module _ {ℓ κ} {A : Type ℓ} {B : Type κ} where
  abbrev pub each : (A → Result B) → List A → Result (List B)
  each f [] = ok []
  each f (x ∷ xs) = do y ← f x; ys ← each f xs; ok (y ∷ ys)

module _ {ℓ κ} {A : Type ℓ} {B : Type κ} where
  pub >>=-eq-ok :
      (first : Result A) (next : A → Result B) {last : B}
      → first >>= next ≡ ok last
      → (found : A) × (first ≡ ok found) × (next found ≡ ok last)
  >>=-eq-ok (ok found) next returned = (found, refl, returned)
  >>=-eq-ok (err raised) next returned = cc

pub Result-cases {ℓ} :
    {A : Type ℓ} (m : Result A) → ((a : A) × (m ≡ ok a)) ⊎ ((e : Raised) × (m ≡ err e))
Result-cases (ok a) = inl (a, refl)
Result-cases (err e) = inr (e, refl)

-- A result behind a test that raises.
module _ {ℓ} {A : Type ℓ} (e : Raised) {x : A} where
  pub then_raise-eq-ok :
      (b : Bool) (m : Result A) → (if b then err e else m) ≡ ok x → (b ≡ false) × (m ≡ ok x)
  then_raise-eq-ok true m h = cc
  then_raise-eq-ok false m h = (refl, h)

  pub else_raise-eq-ok :
      (b : Bool) (m : Result A) → (if b then m else err e) ≡ ok x → (b ≡ true) × (m ≡ ok x)
  else_raise-eq-ok true m h = (refl, h)
  else_raise-eq-ok false m h = cc
