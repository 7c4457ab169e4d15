-- ===== src/Base/Order.antt =====
-- Python's order of texts, by their code points.
use tine.Base.Tests.{ltb, ◌==◌}
use tine.Base.Text.{Text}
use mathlib.Core.Path.{◌≡◌, refl}
use mathlib.Core.Bool.{Bool, true, false, ◌&&◌, ◌||◌}
use mathlib.Core.List.{[], ◌∷◌}
use native.Mathlib.Omega.{arith}

abbrev pub text_lt : Text → Text → Bool
text_lt xs [] = false
text_lt [] (y ∷ ys) = true
text_lt (x ∷ xs) (y ∷ ys) = ltb x y || (x == y && text_lt xs ys)

pub text_lt_irrefl : (xs : Text) → text_lt xs xs ≡ false
text_lt_irrefl [] = refl
text_lt_irrefl (x ∷ xs) = ground (arith, text_lt_irrefl xs)

pub text_lt_trans :
    (xs ys zs : Text) → text_lt xs ys ≡ true → text_lt ys zs ≡ true → text_lt xs zs ≡ true
text_lt_trans xs ys [] h k = cc
text_lt_trans xs [] (z ∷ zs) h k = cc
text_lt_trans [] (y ∷ ys) (z ∷ zs) h k = refl
text_lt_trans (x ∷ xs) (y ∷ ys) (z ∷ zs) h k = ground (arith, text_lt_trans xs ys zs)

pub text_lt_connex : (xs ys : Text) → text_lt xs ys ≡ false → text_lt ys xs ≡ false → xs ≡ ys
text_lt_connex [] [] h k = refl
text_lt_connex [] (y ∷ ys) h k = cc
text_lt_connex (x ∷ xs) [] h k = cc
text_lt_connex (x ∷ xs) (y ∷ ys) h k = ground (arith, text_lt_connex xs ys)
