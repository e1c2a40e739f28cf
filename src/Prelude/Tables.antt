-- ===== src/Prelude/Tables.antt =====
-- A table is the list of its rows, oldest first. Each function stands for one kind of query:
-- `findFirst`, `count`, `findMany` and `updateMany` under a `where` test.
use Prim.Native.Nat.{ℕ, suc, ◌+◌, ◌≤◌, ◌<◌}
use mathlib.Core.Path.{◌≡◌, refl, ap, subst}
use mathlib.Core.Bool.{Bool, true, false, ◌||◌}
use mathlib.Core.Option.{Option, none, some}
use mathlib.Core.List.{List, [], ◌∷◌, ◌++◌}
use native.Mathlib.Omega.{arith}
use sports_erp.Prelude.Tests.{◌==◌, if◌then◌else◌, Bool-cases, Option-cases}
use mathlib.Core.Logic.{inl, inr}

module _ {ℓ} {A : Type ℓ} where
  abbrev pub length : List A → ℕ
  length [] = 0
  length (x ∷ xs) = suc (length xs)

  abbrev pub find : (A → Bool) → List A → Option A
  find p [] = none
  find p (x ∷ xs) = if p x then some x else find p xs

  abbrev pub count : (A → Bool) → List A → ℕ
  count p [] = 0
  count p (x ∷ xs) = (if p x then 1 else 0) + count p xs

  abbrev pub select : (A → Bool) → List A → List A
  select p [] = []
  select p (x ∷ xs) = if p x then x ∷ select p xs else select p xs

  -- The rows after an update of those that pass the test.
  abbrev pub update : (A → Bool) → (A → A) → List A → List A
  update p f [] = []
  update p f (x ∷ xs) = (if p x then f x else x) ∷ update p f xs

  abbrev pub exists : (A → Bool) → List A → Bool
  exists p [] = false
  exists p (x ∷ xs) = p x || exists p xs

  abbrev pub All {κ} : (A → Type κ) → List A → Type κ
  All P [] = Unit
  All P (x ∷ xs) = P x × All P xs

-- `{ in: ids }`
abbrev pub is_in : ℕ → List ℕ → Bool
is_in id = exists (λ i. i == id)

module _ {ℓ} {A : Type ℓ} where
  pub find-passes : (p : A → Bool) (xs : List A) (x : A) → find p xs ≡ some x → p x ≡ true
  find-passes p [] x h = absurd (ground arith)
  find-passes p (y ∷ xs) x h = elim (Bool-cases (p y)) [
    | inl t ↦ ground (arith, t)
    | inr f ↦ find-passes p xs x (ground arith)
  ]

  pub All-find {κ} :
      (P : A → Type κ) (p : A → Bool) (xs : List A) (x : A) → All P xs → find p xs ≡ some x → P x
  All-find P p [] x a h = absurd (ground arith)
  All-find P p (y ∷ xs) x a h = elim (Bool-cases (p y)) [
    | inl t ↦ let e : y ≡ x = ground (arith, t) in subst P e a.0
    | inr f ↦ All-find P p xs x a.1 (rw f at h)
  ]

  pub All-append {κ} : (P : A → Type κ) (xs ys : List A) → All P xs → All P ys → All P (xs ++ ys)
  All-append P [] ys a b = b
  All-append P (x ∷ xs) ys a b = (a.0, All-append P xs ys a.1 b)

  pub All-take {κ} :
      (P : A → Type κ) (xs ys : List A) (x : A) → All P (xs ++ x ∷ ys) → P x × All P (xs ++ ys)
  All-take P [] ys x a = a
  All-take P (z ∷ xs) ys x a = let (p, rest) = All-take P xs ys x a.1 in (p, (a.0, rest))

  -- What an update does to a property of the rows: the rows that pass have to get it, the others
  -- to keep it.
  pub All-update {κ η} :
      (P : A → Type κ) (Q : A → Type η) (p : A → Bool) (f : A → A) (xs : List A)
      → ((x : A) → p x ≡ true → P x → Q (f x))
      → ((x : A) → p x ≡ false → P x → Q x)
      → All P xs
      → All Q (update p f xs)
  All-update P Q p f [] hit miss a = tt
  All-update P Q p f (x ∷ xs) hit miss a = elim (Bool-cases (p x)) [
    | inl t ↦ rw t (hit x t a.0, All-update P Q p f xs hit miss a.1)
    | inr e ↦ rw e (miss x e a.0, All-update P Q p f xs hit miss a.1)
  ]

  pub All-map {κ η} :
      (P : A → Type κ) (Q : A → Type η) (xs : List A) → ((x : A) → P x → Q x) → All P xs → All Q xs
  All-map P Q [] h a = tt
  All-map P Q (x ∷ xs) h a = (h x a.0, All-map P Q xs h a.1)

  pub All-zip {κ η} :
      (P : A → Type κ) (Q : A → Type η) (xs : List A)
      → All P xs
      → All Q xs
      → All (λ x. P x × Q x) xs
  All-zip P Q [] a b = tt
  All-zip P Q (x ∷ xs) a b = ((a.0, b.0), All-zip P Q xs a.1 b.1)

  pub exists-eq-false : (p : A → Bool) (xs : List A) → find p xs ≡ none → exists p xs ≡ false
  exists-eq-false p [] h = refl
  exists-eq-false p (x ∷ xs) h = ground (arith, exists-eq-false p xs)

  -- `findFirst` finds a row exactly if `count` is not 0.
  pub count-eq-zero : (p : A → Bool) (xs : List A) → find p xs ≡ none → count p xs ≡ 0
  count-eq-zero p [] h = refl
  count-eq-zero p (x ∷ xs) h = elim (Bool-cases (p x)) [
    | inl t ↦ absurd (ground (arith, t))
    | inr f ↦ rw f (omega (arith, count-eq-zero p xs (rw f at h)))
  ]

  pub count-pos : (p : A → Bool) (xs : List A) (x : A) → find p xs ≡ some x → 0 < count p xs
  count-pos p [] x h = absurd (ground arith)
  count-pos p (y ∷ xs) x h = elim (Bool-cases (p y)) [
    | inl t ↦ rw t (omega arith)
    | inr f ↦ rw f (omega (arith, count-pos p xs x (rw f at h)))
  ]

  pub find_of_count : (p : A → Bool) (xs : List A) → 0 < count p xs → (x : A) × (find p xs ≡ some x)
  find_of_count p xs h = elim (Option-cases (find p xs)) [
    | inl e ↦ absurd (omega (arith, count-eq-zero p xs e))
    | inr (x, e) ↦ (x, e)
  ]

  pub count-append : (p : A → Bool) (xs ys : List A) → count p (xs ++ ys) ≡ count p xs + count p ys
  count-append p [] ys = omega arith
  count-append p (x ∷ xs) ys = omega (arith, count-append p xs ys)

  pub All-trivial : (xs : List A) → All (λ _. Unit {0}) xs
  All-trivial [] = tt
  All-trivial (x ∷ xs) = (tt, All-trivial xs)

  -- If no updated row passes `q` that did not before, the number of rows that pass does not grow.
  pub count-update-le {κ} :
      (P : A → Type κ) (q p : A → Bool) (f : A → A) (xs : List A)
      → ((x : A) → P x → p x ≡ true → q (f x) ≡ true → q x ≡ true)
      → All P xs
      → count q (update p f xs) ≤ count q xs
  count-update-le P q p f [] h a = omega arith
  count-update-le P q p f (x ∷ xs) h a = elim (Bool-cases (p x)) [
    | inl t ↦ rw t (ground (arith, h x a.0 t, count-update-le P q p f xs h a.1))
    | inr e ↦ rw e (omega (arith, count-update-le P q p f xs h a.1))
  ]

  -- After an update that makes every row fail its test, no row passes.
  pub count-update_gone :
      (p : A → Bool) (f : A → A) (xs : List A)
      → ((x : A) → p x ≡ true → p (f x) ≡ false)
      → count p (update p f xs) ≡ 0
  count-update_gone p f [] h = refl
  count-update_gone p f (x ∷ xs) h = ground (arith, h x, count-update_gone p f xs h)

  -- An update that no row passes changes nothing.
  pub update_none : (p : A → Bool) (f : A → A) (xs : List A) → count p xs ≡ 0 → update p f xs ≡ xs
  update_none p f [] h = refl
  update_none p f (x ∷ xs) h = ground (arith, update_none p f xs)

  pub length-update : (p : A → Bool) (f : A → A) (xs : List A) → length (update p f xs) ≡ length xs
  length-update p f [] = refl
  length-update p f (x ∷ xs) = ap suc (length-update p f xs)
