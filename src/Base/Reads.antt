-- ===== src/Base/Reads.antt =====
-- Reads with a default value, and what a write changes for them.
use Prim.Native.Nat.{ℕ, zero, suc, ◌<◌}
use mathlib.Core.Path.{◌≡◌, refl, ◌∙◌}
use mathlib.Core.List.{List, [], ◌∷◌, ◌++◌}
use mathlib.Core.Option.{Option, none, some}
use native.Mathlib.Omega.{arith}
use protocache.Base.Lists.{length, get_elem?, get_or, set, replicate, take}
use protocache.Base.Tests.{◌==◌, if◌then◌else◌}

module _ {ℓ} {A : Type ℓ} where
  pub get_elem?-get_or :
      (xs : List A) (i : ℕ) (d : A) → i < length xs → get_elem? xs i ≡ some (get_or xs i d)
  get_elem?-get_or [] i d h = absurd (omega arith)
  get_elem?-get_or (x ∷ xs) zero d h = refl
  get_elem?-get_or (x ∷ xs) (suc i) d h = get_elem?-get_or xs i d (omega arith)

  pub get_or-some : (xs : List A) (i : ℕ) (x d : A) → get_elem? xs i ≡ some x → get_or xs i d ≡ x
  get_or-some [] i x d h = let clash : ◌≡◌ {A = Option A} none (some x) = h in cc
  get_or-some (y ∷ xs) zero x d h = cc
  get_or-some (y ∷ xs) (suc i) x d h = get_or-some xs i x d h

  pub get_or-set :
      (xs : List A) (i j : ℕ) (v d : A)
      → i < length xs
      → get_or (set xs i v) j d ≡ (if j == i then v else get_or xs j d)
  get_or-set [] i j v d h = absurd (omega arith)
  get_or-set (x ∷ xs) zero zero v d h = ground arith
  get_or-set (x ∷ xs) zero (suc j) v d h = ground arith
  get_or-set (x ∷ xs) (suc i) zero v d h = ground arith
  get_or-set (x ∷ xs) (suc i) (suc j) v d h = get_or-set xs i j v d (omega arith) ∙ ground arith

  pub get_or-replicate :
      (n : ℕ) (v : A) (i : ℕ) (rest : List A) (d : A)
      → i < n
      → get_or (replicate n v ++ rest) i d ≡ v
  get_or-replicate zero v i rest d h = absurd (omega arith)
  get_or-replicate (suc n) v zero rest d h = refl
  get_or-replicate (suc n) v (suc i) rest d h = get_or-replicate n v i rest d (omega arith)

  pub get_or-take :
      (k : ℕ) (xs : List A) (i : ℕ) (d : A) → i < k → get_or (take k xs) i d ≡ get_or xs i d
  get_or-take zero xs i d h = absurd (omega arith)
  get_or-take (suc k) [] i d h = refl
  get_or-take (suc k) (x ∷ xs) zero d h = refl
  get_or-take (suc k) (x ∷ xs) (suc i) d h = get_or-take k xs i d (omega arith)
