-- ===== src/Prelude/Searches.antt =====
-- What a test finds and counts in a list that is joined, filtered or tested in another way.
use mathlib.Core.Path.{◌≡◌, refl}
use mathlib.Core.Bool.{Bool, true, false, ◌||◌, ◌&&◌}
use Prim.Native.Nat.{◌+◌}
use mathlib.Core.List.{List, [], ◌∷◌, ◌++◌}
use native.Mathlib.Omega.{arith}
use sports_erp.Prelude.Tables.{count, select, exists, All}

module _ {ℓ} {A : Type ℓ} where
  pub exists-append :
      (p : A → Bool) (xs ys : List A) → exists p (xs ++ ys) ≡ (exists p xs || exists p ys)
  exists-append p [] ys = refl
  exists-append p (x ∷ xs) ys = ground (arith, exists-append p xs ys)

  pub exists-select :
      (p q : A → Bool) (xs : List A) → exists p (select q xs) ≡ exists (λ x. q x && p x) xs
  exists-select p q [] = refl
  exists-select p q (x ∷ xs) = ground (arith, exists-select p q xs)

  pub exists_cong :
      (p q : A → Bool) (xs : List A) → All (λ x. p x ≡ q x) xs → exists p xs ≡ exists q xs
  exists_cong p q [] a = refl
  exists_cong p q (x ∷ xs) a = ground (arith, a.0, exists_cong p q xs a.1)

  pub All_of {κ} : (P : A → Type κ) (xs : List A) → ((x : A) → P x) → All P xs
  All_of P [] h = tt
  All_of P (x ∷ xs) h = (h x, All_of P xs h)

module _ {ℓ} {A : Type ℓ} where
  pub count_or :
      (p q : A → Bool) (xs : List A)
      → ((x : A) → p x ≡ true → q x ≡ false)
      → count (λ x. p x || q x) xs ≡ count p xs + count q xs
  count_or p q [] h = refl
  count_or p q (x ∷ xs) h = ground (arith, h x, count_or p q xs h)

  pub count_cong : (p q : A → Bool) (xs : List A) → ((x : A) → p x ≡ q x) → count p xs ≡ count q xs
  count_cong p q [] h = refl
  count_cong p q (x ∷ xs) h = ground (arith, h x, count_cong p q xs h)

  pub count-select :
      (p q : A → Bool) (xs : List A) → count p (select q xs) ≡ count (λ x. q x && p x) xs
  count-select p q [] = refl
  count-select p q (x ∷ xs) = ground (arith, count-select p q xs)

  pub count_none : (p : A → Bool) (xs : List A) → ((x : A) → p x ≡ false) → count p xs ≡ 0
  count_none p [] h = refl
  count_none p (x ∷ xs) h = ground (arith, h x, count_none p xs h)
