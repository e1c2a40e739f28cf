-- ===== src/Prelude/Keys.antt =====
-- Lookups in a table that has grown or been updated, and tables with a primary key.
use Prim.Native.Nat.{ℕ}
use mathlib.Core.Path.{subst, ◌≡◌, refl, ap, sym, ◌∙◌}
use mathlib.Core.Logic.{◌≢◌, inl, inr}
use mathlib.Core.Bool.{Bool, true, false, not}
use mathlib.Core.Option.{Option, none, some}
use mathlib.Core.List.{List, [], ◌∷◌, ◌++◌}
use native.Mathlib.Omega.{arith}
use sports_erp.Prelude.Tests.{◌==◌, if◌then◌else◌, Bool-cases}
use sports_erp.Prelude.Tables.{All, All-map, All-append, All-find, find, update, select}

module _ {ℓ} {A : Type ℓ} where
  pub find-append_none :
      (t : A → Bool) (xs ys : List A) → find t xs ≡ none → find t (xs ++ ys) ≡ find t ys
  find-append_none t [] ys h = refl
  find-append_none t (x ∷ xs) ys h = ground (arith, find-append_none t xs ys)

  pub find-append_skip :
      (t : A → Bool) (xs ys : List A) → find t ys ≡ none → find t (xs ++ ys) ≡ find t xs
  find-append_skip t [] ys h = h
  find-append_skip t (x ∷ xs) ys h = ground (arith, find-append_skip t xs ys)

  pub find-append_some :
      (t : A → Bool) (xs ys : List A) (x : A) → find t xs ≡ some x → find t (xs ++ ys) ≡ some x
  find-append_some t [] ys x h = absurd (ground arith)
  find-append_some t (z ∷ xs) ys x h = ground (arith, find-append_some t xs ys x)

  -- The first row that passes a test is the first that passes a narrower one, if it passes that.
  pub find_narrow :
      (p q : A → Bool) (xs : List A) (r : A)
      → ((x : A) → q x ≡ true → p x ≡ true)
      → find p xs ≡ some r
      → q r ≡ true
      → find q xs ≡ some r
  find_narrow p q [] r i h t = absurd (ground (arith, h))
  find_narrow p q (x ∷ xs) r i h t = elim (Bool-cases (p x)) [
    | inl hit ↦
        let e : x ≡ r = ground (arith, hit, h) in
        let tx : q x ≡ true = subst (λ y. q y ≡ true) (sym e) t in ground (arith, tx, e)
    | inr miss ↦ ground (arith, miss, i x, find_narrow p q xs r i (ground (arith, miss, h)) t)
  ]

  -- What an update makes of the row that a lookup finds.
  abbrev pub updated : (A → Bool) → (A → A) → Option A → Option A
  updated p f none = none
  updated p f (some x) = some (if p x then f x else x)

  pub find-update :
      (t p : A → Bool) (f : A → A) (xs : List A)
      → ((x : A) → t (f x) ≡ t x)
      → find t (update p f xs) ≡ updated p f (find t xs)
  find-update t p f [] h = refl
  find-update t p f (x ∷ xs) h = ground (arith, h x, find-update t p f xs h)

-- A deletion is the selection of the rows that stay.
module _ {ℓ} {A : Type ℓ} where
  abbrev pub remove : (A → Bool) → List A → List A
  remove p = select (λ x. not (p x))

  pub find-remove_same : (p : A → Bool) (xs : List A) → find p (remove p xs) ≡ none
  find-remove_same p [] = refl
  find-remove_same p (x ∷ xs) = ground (arith, find-remove_same p xs)

  pub find-remove_other :
      (q p : A → Bool) (xs : List A)
      → ((x : A) → p x ≡ true → q x ≡ false)
      → find q (remove p xs) ≡ find q xs
  find-remove_other q p [] h = refl
  find-remove_other q p (x ∷ xs) h = ground (arith, h x, find-remove_other q p xs h)

  pub All-remove {κ} :
      (P : A → Type κ) (p : A → Bool) (xs : List A) → All P xs → All P (remove p xs)
  All-remove P p [] a = tt
  All-remove P p (x ∷ xs) a = elim (Bool-cases (p x)) [
    | inl t ↦ rw t (All-remove P p xs a.1)
    | inr e ↦ rw e (a.0, All-remove P p xs a.1)
  ]

module _ {ℓ κ} {A : Type ℓ} {K : Type κ} (key : A → K) where
  -- No two rows have the same key.
  abbrev pub Distinct : List A → Type (ℓ ⊔ κ)
  Distinct [] = Unit
  Distinct (x ∷ xs) = All (λ y. key y ≢ key x) xs × Distinct xs

  pub Distinct-append :
      (xs : List A) (x : A) → Distinct xs → All (λ y. key y ≢ key x) xs → Distinct (xs ++ x ∷ [])
  Distinct-append [] x d new = (tt, tt)
  Distinct-append (y ∷ xs) x d new = (
    All-append (λ z. key z ≢ key y) xs (x ∷ []) d.0 ((λ e. new.0 (sym e)), tt),
    Distinct-append xs x d.1 new.1,
  )

  All-key-update {η} :
      (P : K → Type η) (p : A → Bool) (f : A → A) (xs : List A)
      → ((x : A) → key (f x) ≡ key x)
      → All (λ y. P (key y)) xs
      → All (λ y. P (key y)) (update p f xs)
  All-key-update P p f [] h a = tt
  All-key-update P p f (x ∷ xs) h a = elim (Bool-cases (p x)) [
    | inl t ↦ rw (t, h x) (a.0, All-key-update P p f xs h a.1)
    | inr e ↦ rw e (a.0, All-key-update P p f xs h a.1)
  ]

  pub Distinct-update :
      (p : A → Bool) (f : A → A) (xs : List A)
      → ((x : A) → key (f x) ≡ key x)
      → Distinct xs
      → Distinct (update p f xs)
  Distinct-update p f [] h d = tt
  Distinct-update p f (x ∷ xs) h d = elim (Bool-cases (p x)) [
    | inl t ↦
        rw (t, h x) (All-key-update (λ k. k ≢ key x) p f xs h d.0, Distinct-update p f xs h d.1)
    | inr e ↦ rw e (All-key-update (λ k. k ≢ key x) p f xs h d.0, Distinct-update p f xs h d.1)
  ]

  -- The row that a lookup finds is the only one with its key.
  pub Distinct-find :
      (t : A → Bool) (xs : List A) (x : A)
      → Distinct xs
      → find t xs ≡ some x
      → All (λ y. key y ≡ key x → y ≡ x) xs
  Distinct-find t [] x d h = tt
  Distinct-find t (y ∷ xs) x d h = elim (Bool-cases (t y)) [
    | inl hit ↦
        let e : y ≡ x = ground (arith, hit) in
        (
          λ _. e,
          All-map (λ z. key z ≢ key y) (λ z. key z ≡ key x → z ≡ x) xs
              (λ z ne same. absurd (ne (same ∙ sym (ap key e)))) d.0,
        )
    | inr miss ↦
        let h' : find t xs ≡ some x = ground (arith, miss) in
        (
          λ same. absurd (All-find (λ z. key z ≢ key y) t xs x d.0 h' (sym same)),
          Distinct-find t xs x d.1 h',
        )
  ]

-- Rows under a key that is a number.
module _ {ℓ} {A : Type ℓ} (key : A → ℕ) where
  -- An update of the rows with one key changes no lookup of another.
  pub find-update_other :
      (s id : ℕ) (f : A → A) (xs : List A)
      → ((x : A) → key (f x) ≡ key x)
      → s ≢ id
      → find (λ x. key x == s) (update (λ x. key x == id) f xs) ≡ find (λ x. key x == s) xs
  find-update_other s id f [] h ne = refl
  find-update_other s id f (x ∷ xs) h ne = ground (arith, h x, find-update_other s id f xs h ne)

  -- It changes the row that is found under its own.
  pub find-update_same :
      (id : ℕ) (f : A → A) (xs : List A) (x : A)
      → ((x : A) → key (f x) ≡ key x)
      → find (λ x. key x == id) xs ≡ some x
      → find (λ x. key x == id) (update (λ x. key x == id) f xs) ≡ some (f x)
  find-update_same id f [] y h e = absurd (ground arith)
  find-update_same id f (x ∷ xs) y h e = ground (arith, h x, find-update_same id f xs y h)
