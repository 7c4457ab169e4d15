-- ===== src/RemoteCache/Bundle/Name/Order.antt =====
-- The order of digests by hash and size is strict and total.
use tine.Base.{
  ◌≡◌, sym, ap, ◌∙◌, true, false, same_bytes→eq, same_bytes_refl, arith, inl, inr, Bool-cases,
}
use tine.Base.Order.{text_lt_irrefl, text_lt_trans, text_lt_connex}
use tine.RemoteCache.Reapi.Digest.{Digest}
use tine.RemoteCache.Bundle.Name.{same_digest, digest_lt}

pub same_digest→eq : (a b : Digest) → same_digest a b ≡ true → a ≡ b
same_digest→eq a b h = ground (arith, same_bytes→eq a.hash b.hash)

pub same_digest_refl : (a : Digest) → same_digest a a ≡ true
same_digest_refl a = rw (same_bytes_refl a.hash) (ground arith)

pub digest_lt_irrefl : (a : Digest) → digest_lt a a ≡ false
digest_lt_irrefl a = rw (text_lt_irrefl a.hash, same_bytes_refl a.hash) (ground arith)

pub digest_lt_trans :
    (a b d : Digest) → digest_lt a b ≡ true → digest_lt b d ≡ true → digest_lt a d ≡ true
digest_lt_trans a b d h k = ground (
  arith,
  text_lt_trans a.hash b.hash d.hash,
  same_bytes→eq a.hash b.hash,
  same_bytes→eq b.hash d.hash,
  same_bytes_refl a.hash,
)

pub digest_lt_connex : (a b : Digest) → digest_lt a b ≡ false → digest_lt b a ≡ false → a ≡ b
digest_lt_connex a b h k = ground (arith, text_lt_connex a.hash b.hash, same_bytes_refl a.hash)

pub digest_lt_flip :
    (a b : Digest) → digest_lt a b ≡ false → same_digest a b ≡ false → digest_lt b a ≡ true
digest_lt_flip a b h k = elim (Bool-cases (digest_lt b a)) [
  | inl e ↦ e
  | inr e ↦
      let same = digest_lt_connex a b h e in
      let found : same_digest a b ≡ true = ap (same_digest a) (sym same) ∙ same_digest_refl a in
      absurd (let clash : false ≡ true = sym k ∙ found in cc)
]
