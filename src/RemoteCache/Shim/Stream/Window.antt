-- ===== src/RemoteCache/Shim/Stream/Window.antt =====
-- The part of a blob that a `ReadRequest` asks for.
use tine.Base.{
  ℕ, suc, ◌-◌, ◌≡◌, refl, ap, inl, inr, true, false, [], ◌∷◌, Bytes, length, take, drop,
  length-drop, ◌==◌, arith, Bool-cases,
}
use tine.RemoteCache.Reapi.Stream.{ReadRequest}
use tine.RemoteCache.Shim.Stream.{window_of}

-- What stands behind the offset: all of it without a limit, and else no more than the limit.
pub data IsWindow (request : ReadRequest) (content : Bytes) : Bytes → Type 0 where
  unlimited : request.read_limit ≡ 0 → IsWindow request content (drop request.read_offset content)
  limited :
      (more : ℕ)
      → request.read_limit ≡ suc more
      → IsWindow request content (take request.read_limit (drop request.read_offset content))

take-length : (xs : Bytes) → take (length xs) xs ≡ xs
take-length [] = refl
take-length (x ∷ xs) = ap (◌∷◌ x) (take-length xs)

window_of-unlimited :
    (request : ReadRequest) (content : Bytes)
    → (request.read_limit == 0) ≡ true
    → window_of request content ≡ drop request.read_offset content
unfolding window_of
window_of-unlimited request content e = rw e (
    rw (← (length-drop request.read_offset content))
      (take-length (drop request.read_offset content)))

window_of-limited :
    (request : ReadRequest) (content : Bytes)
    → (request.read_limit == 0) ≡ false
    → window_of request content ≡ take request.read_limit (drop request.read_offset content)
unfolding window_of
window_of-limited request content e =
    rw e (ap (λ (n : ℕ). take n (drop request.read_offset content)) (omega arith))

pub window_of-IsWindow :
    (request : ReadRequest) (content : Bytes) → IsWindow request content (window_of request content)
window_of-IsWindow request content = elim (Bool-cases (request.read_limit == 0)) [
  | inl e ↦ rw (window_of-unlimited request content e) (unlimited (ground (arith, e)))
  | inr e ↦
      rw (window_of-limited request content e)
        (limited (request.read_limit - 1) (ground (arith, e)))
]
