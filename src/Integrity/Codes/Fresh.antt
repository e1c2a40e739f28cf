-- ===== src/Integrity/Codes/Fresh.antt =====
-- No code is handed out twice.
use sports_erp.Prelude.{
  find-append_some, ℕ, zero, suc, ◌+◌, ◌-◌, ◌*◌, ◌/◌, ◌%◌, ◌≤◌, ◌≡◌, ◌≢◌, refl, ap, ◌∙◌, sym, subst,
  inl, inr, Option, none, some, List, [], ◌∷◌, ◌++◌, Bool, true, ltb, arith, find, length,
  Bool-cases, Option-cases, find-passes, ==_refl, find-update, find-append_none, updated,
}
use sports_erp.Store.{Db, Action, pure, ◌>>=◌}
use sports_erp.Dates.Kst.{to_kst_date_string}
use sports_erp.Store.Errors.{ok, err}
use sports_erp.Store.Branches.{Text, Branch, CodeSequence, CodeSequenceKind}
use sports_erp.Integrity.Codes.{
  text_eq, kind_eq, is_sequence, next_value, allocate_sequence, decimal_from, decimal, zeros,
  pad_start, code_of, code_prefix, allocate_branch_code,
}

-- The number that decimal digits stand for, read on from an accumulator.
abbrev pub read_from : ℕ → Text → ℕ
read_from acc [] = acc
read_from acc (c ∷ t) = read_from (acc * 10 + (c - 48)) t

read_from-append : (acc : ℕ) (s t : Text) → read_from acc (s ++ t) ≡ read_from (read_from acc s) t
read_from-append acc [] t = refl
read_from-append acc (c ∷ s) t = read_from-append (acc * 10 + (c - 48)) s t

read_from-decimal_from : (fuel n : ℕ) → n ≤ fuel → read_from 0 (decimal_from fuel n) ≡ n
unfolding decimal_from
read_from-decimal_from zero n h = omega arith
read_from-decimal_from (suc fuel) n h = elim (Bool-cases (ltb n 10)) [
  | inl short ↦ rw short (omega arith)
  | inr long ↦
      rw
        (
          long,
          read_from-append 0 (decimal_from fuel (n / 10)) ((48 + n % 10) ∷ []),
          read_from-decimal_from fuel (n / 10) (ground (arith, long)),
        )
        (omega arith)
]

read_from-zeros : (k : ℕ) (t : Text) → read_from 0 (zeros k ++ t) ≡ read_from 0 t
read_from-zeros zero t = refl
read_from-zeros (suc k) t = read_from-zeros k t

-- Padding and printing lose nothing.
pub read_from-pad_start : (w n : ℕ) → read_from 0 (pad_start w (decimal n)) ≡ n
unfolding decimal
read_from-pad_start w n =
    read_from-zeros (w - length (decimal n)) (decimal n) ∙ read_from-decimal_from n n (omega arith)

abbrev drop_prefix : Text → Text → Text
drop_prefix [] t = t
drop_prefix (_ ∷ s) [] = []
drop_prefix (_ ∷ s) (_ ∷ t) = drop_prefix s t

drop_prefix-append : (s t : Text) → drop_prefix s (s ++ t) ≡ t
drop_prefix-append [] t = refl
drop_prefix-append (_ ∷ s) t = drop_prefix-append s t

append_cancel : (s t u : Text) → s ++ t ≡ s ++ u → t ≡ u
append_cancel s t u h = sym (drop_prefix-append s t) ∙ ap (drop_prefix s) h ∙ drop_prefix-append s u

-- Codes of one prefix are told apart by their numbers.
code_of-injective :
    (kind : CodeSequenceKind) (prefix : Text) (m n : ℕ)
    → code_of kind prefix m ≡ code_of kind prefix n
    → m ≡ n
code_of-injective kind prefix m n h =
    sym (read_from-pad_start 3 m) ∙ ap (read_from 0) (same kind h) ∙ read_from-pad_start 3 n
  where
    same :
        (k : CodeSequenceKind)
        → code_of k prefix m ≡ code_of k prefix n
        → pad_start 3 (decimal m) ≡ pad_start 3 (decimal n)
    same CodeSequenceKind.member e = append_cancel (45 ∷ []) _ _ (append_cancel prefix _ _ e)
    same CodeSequenceKind.staff e = append_cancel prefix _ _ e
    same CodeSequenceKind.asset e = append_cancel prefix _ _ e

abbrev value_of : Option CodeSequence → ℕ
value_of none = 0
value_of (some s) = s.last_value

-- The last number that a sequence has handed out, 0 if it has none yet.
abbrev pub last_of : ℕ → CodeSequenceKind → Text → Db → ℕ
last_of branch kind prefix db = value_of (find (is_sequence branch kind prefix) db.sequences)

text_eq_refl : (t : Text) → text_eq t t ≡ true
text_eq_refl [] = refl
text_eq_refl (c ∷ t) = ground (arith, ==_refl c, text_eq_refl t)

kind_eq_refl : (k : CodeSequenceKind) → kind_eq k k ≡ true
kind_eq_refl CodeSequenceKind.staff = refl
kind_eq_refl CodeSequenceKind.member = refl
kind_eq_refl CodeSequenceKind.asset = refl

is_sequence_self :
    (b : ℕ) (k : CodeSequenceKind) (p : Text) (n : ℕ)
    → is_sequence b k p (record { branch_id = b; kind = k; prefix = p; last_value = n }) ≡ true
is_sequence_self b k p n = rw (==_refl b, kind_eq_refl k, text_eq_refl p) refl

abbrev first : ℕ → CodeSequenceKind → Text → CodeSequence
first b k p = record { branch_id = b; kind = k; prefix = p; last_value = 1 }

-- An allocation hands out the next number of its sequence.
allocate_sequence_lem :
    (b : ℕ) (k : CodeSequenceKind) (p : Text) (db : Db)
    → ((allocate_sequence b k p db).0 ≡ ok (last_of b k p db + 1))
      × (last_of b k p (allocate_sequence b k p db).1 ≡ last_of b k p db + 1)
unfolding allocate_sequence
allocate_sequence_lem b k p db = elim (Option-cases (find (is_sequence b k p) db.sequences)) [
  | inl e ↦
      rw
        (
          allocate_sequence,
          e,
          find-append_none (is_sequence b k p) db.sequences (first b k p ∷ []) e,
          is_sequence_self b k p 1,
        )
        (refl, refl)
  | inr (s, e) ↦
      rw
        (
          allocate_sequence,
          e,
          find-update (is_sequence b k p) (is_sequence b k p) next_value db.sequences (λ x. refl),
          e,
          find-passes (is_sequence b k p) db.sequences s e,
        )
        (refl, refl)
]

value_of-append :
    (t : CodeSequence → Bool) (xs ys : List CodeSequence)
    → value_of (find t xs) ≤ value_of (find t (xs ++ ys))
value_of-append t xs ys = elim (Option-cases (find t xs)) [
  | inl e ↦ rw e (omega arith)
  | inr (s, e) ↦ rw (e, find-append_some t xs ys s e) (omega arith)
]

value_of-updated :
    (p : CodeSequence → Bool) (o : Option CodeSequence)
    → value_of o ≤ value_of (updated p next_value o)
value_of-updated p none = omega arith
value_of-updated p (some s) = elim (Bool-cases (p s)) [
  | inl t ↦ rw t (omega arith)
  | inr f ↦ rw f (omega arith)
]

-- No allocation takes a number of any sequence back.
last_of_mono :
    (b : ℕ) (k : CodeSequenceKind) (p : Text) (b' : ℕ) (k' : CodeSequenceKind) (p' : Text) (db : Db)
    → last_of b k p db ≤ last_of b k p (allocate_sequence b' k' p' db).1
unfolding allocate_sequence
last_of_mono b k p b' k' p' db = elim (Option-cases (find (is_sequence b' k' p') db.sequences)) [
  | inl e ↦
      rw (allocate_sequence, e)
        (value_of-append (is_sequence b k p) db.sequences (first b' k' p' ∷ []))
  | inr (s, e) ↦
      rw
        (
          allocate_sequence,
          e,
          find-update (is_sequence b k p) (is_sequence b' k' p') next_value db.sequences
              (λ x. refl),
        )
        (value_of-updated (is_sequence b' k' p') (find (is_sequence b k p) db.sequences))
]

-- What other calls allocate in the meantime: branch, kind and prefix of each.
abbrev pub Allocations : Type 0
Allocations = List (ℕ × (CodeSequenceKind × Text))

abbrev pub run : Allocations → Db → Db
run [] db = db
run (a ∷ more) db = run more (allocate_sequence a.0 a.1.0 a.1.1 db).1

last_of-run :
    (b : ℕ) (k : CodeSequenceKind) (p : Text) (others : Allocations) (db : Db)
    → last_of b k p db ≤ last_of b k p (run others db)
last_of-run b k p [] db = omega arith
last_of-run b k p (a ∷ more) db = omega (
  arith,
  last_of_mono b k p a.0 a.1.0 a.1.1 db,
  last_of-run b k p more (allocate_sequence a.0 a.1.0 a.1.1 db).1,
)

abbrev prefix_at : ℕ → Branch → CodeSequenceKind → Text
prefix_at now branch kind = code_prefix kind branch.code (to_kst_date_string now).year

bind-ok :
    {A B : Type 0} (m : Action A) (f : A → Action B) (db : Db) (a : A)
    → (m db).0 ≡ ok a
    → (m >>= f) db ≡ f a (m db).1
bind-ok m f db a h = ap (λ r. elim r [ ok x ↦ f x (m db).1 | err c ↦ (err c, (m db).1) ]) h

allocate_branch_code_lem :
    (now : ℕ) (branch : Branch) (kind : CodeSequenceKind) (db : Db)
    → ((allocate_branch_code now branch kind db).0
        ≡ ok (
            code_of kind
              (prefix_at now branch kind)
              (last_of branch.id kind (prefix_at now branch kind) db + 1)))
      × ((allocate_branch_code now branch kind db).1
          ≡ (allocate_sequence branch.id kind (prefix_at now branch kind) db).1)
unfolding allocate_branch_code
allocate_branch_code_lem now branch kind db =
    let p = prefix_at now branch kind in
    let h = (allocate_sequence_lem branch.id kind p db).0 in
    let e =
      bind-ok (allocate_sequence branch.id kind p) (λ seq. pure (code_of kind p seq)) db
        (last_of branch.id kind p db + 1) h in
    (ap (λ x. x.0) e, ap (λ x. x.1) e)

ok-injective : {A : Type 0} (a b : A) → ok a ≡ ok b → a ≡ b
ok-injective a b h = ap (λ r. elim r [ ok x ↦ x | err c ↦ a ]) h

-- Two codes that a branch is given for the same kind are different, whatever is allocated in
-- between, while the prefix of the kind is the same (for a member number: in the same Korean
-- year).
pub allocate_branch_code_fresh :
    (now later : ℕ) (branch : Branch) (kind : CodeSequenceKind) (others : Allocations) (db : Db)
    → code_prefix kind branch.code (to_kst_date_string now).year
      ≡ code_prefix kind branch.code (to_kst_date_string later).year
    → (allocate_branch_code now branch kind db).0
      ≢ (allocate_branch_code later branch kind
          (run others (allocate_branch_code now branch kind db).1)).0
allocate_branch_code_fresh now later branch kind others db same h =
    let p = prefix_at now branch kind in
    let one = allocate_branch_code_lem now branch kind db in
    let after = run others (allocate_sequence branch.id kind p db).1 in
    let two = allocate_branch_code_lem later branch kind after in
    let codes : ok (code_of kind p (last_of branch.id kind p db + 1))
        ≡ ok (code_of kind p (last_of branch.id kind p after + 1)) =
      sym one.0
      ∙ subst
          (λ q.
            (allocate_branch_code now branch kind db).0
            ≡ ok (code_of kind q (last_of branch.id kind q after + 1)))
          (sym same)
          (subst
              (λ d.
                (allocate_branch_code now branch kind db).0
                ≡ (allocate_branch_code later branch kind (run others d)).0)
              one.1 h
            ∙ two.0) in
    let e =
      code_of-injective kind p (last_of branch.id kind p db + 1)
        (last_of branch.id kind p after + 1) (ok-injective _ _ codes) in
    omega (
      arith,
      e,
      (allocate_sequence_lem branch.id kind p db).1,
      last_of-run branch.id kind p others (allocate_sequence branch.id kind p db).1,
    )
