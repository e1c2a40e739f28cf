-- ===== src/Members/Linking.antt =====
-- How often the phone number of a member can be guessed.
use sports_erp.Prelude.{
  ℕ, ◌+◌, ◌<◌, ◌≤◌, ◌≡◌, ◌⊎◌, inl, inr, refl, ap, subst, ◌∙◌, Option, none, some, List, [], ◌∷◌,
  ◌++◌, true, count, arith, Bool-cases, count-append,
}
use sports_erp.Store.{Db}
use sports_erp.Store.Errors.{ok}
use sports_erp.Store.Branches.{Text}
use sports_erp.Store.Members.{Member, MemberLinkAttempt}
use sports_erp.Integrity.Codes.{text_eq}
use sports_erp.Members.{Env, check_attempts, link_rest, link_found, matching, is_recent}

text_eq→≡ : (s t : Text) → text_eq s t ≡ true → s ≡ t
text_eq→≡ [] [] h = refl
text_eq→≡ [] (b ∷ t) h = absurd (ground (arith, h))
text_eq→≡ (a ∷ s) [] h = absurd (ground (arith, h))
text_eq→≡ (a ∷ s) (b ∷ t) h =
    let e : a ≡ b = ground (arith, h) in
    ap (λ x. x ∷ s) e ∙ ap (λ x. b ∷ x) (text_eq→≡ s t (ground (arith, h)))

abbrev attempt : Env → Text → MemberLinkAttempt
attempt e number = record { member_no = number; attempted_at = e.now }

link_found_frame :
    (e : Env) (number phone : Text) (email hash : ℕ) (m : Option Member) (db : Db)
    → ((link_found e number phone email hash m db).1.link_attempts ≡ db.link_attempts)
      ⊎ ((link_found e number phone email hash m db).1.link_attempts
          ≡ db.link_attempts ++ attempt e number ∷ [])
unfolding link_found
link_found_frame e number phone email hash none db = inr refl
link_found_frame e number phone email hash (some m) db = inl (ground arith)

checked_few :
    (now : ℕ) (number : Text) (db : Db)
    → check_attempts now number db ≡ (ok tt, db)
    → count (is_recent number now) db.link_attempts ≤ 4
unfolding check_attempts
checked_few now number db h = ground (arith, h)

-- The recent attempts get fewer as time goes on.
count-is_recent :
    (number : Text) (t t' : ℕ) (xs : List MemberLinkAttempt)
    → t ≤ t'
    → count (is_recent number t') xs ≤ count (is_recent number t) xs
count-is_recent number t t' [] h = omega arith
count-is_recent number t t' (x ∷ xs) h = ground (arith, count-is_recent number t t' xs h)

-- Calls of `link` on one database, whose clock never goes back. A call that has passed its check
-- is open, under the number that it asks for, until it goes on; at most `w` are open under one
-- number. The member may have been found at any time, and what else is done leaves the attempts.
pub data Calls (w : ℕ) (start : Db) : ℕ → List Text → Db → Type 0 where
  begin : Calls w start 0 [] start
  checks :
      (last now : ℕ) (number : Text) (open_calls : List Text) (db : Db)
      → Calls w start last open_calls db
      → last ≤ now
      → check_attempts now number db ≡ (ok tt, db)
      → count (text_eq number) open_calls < w
      → Calls w start now (number ∷ open_calls) db
  goes_on :
      (last : ℕ) (e : Env) (number phone : Text) (email hash : ℕ) (found : Option Member)
      (before after : List Text) (db : Db)
      → Calls w start last (before ++ number ∷ after) db
      → last ≤ e.now
      → Calls w start e.now (before ++ after) (link_rest e number phone email hash found db).1
  elsewhere :
      (last : ℕ) (open_calls : List Text) (db db' : Db)
      → Calls w start last open_calls db
      → db'.link_attempts ≡ db.link_attempts
      → Calls w start last open_calls db'

text_eq_sym : (s t : Text) → text_eq s t ≡ text_eq t s
text_eq_sym [] [] = refl
text_eq_sym [] (b ∷ t) = refl
text_eq_sym (a ∷ s) [] = refl
text_eq_sym (a ∷ s) (b ∷ t) = ground (arith, text_eq_sym s t)

-- Let calls of `link` come between one another, on a clock that never goes back, with other work
-- that leaves the attempts alone, and let at most `w` of them under one number be past their
-- check and not yet at their end. If at most 4 + w attempts on any number are recorded for an
-- hour at first, then at the time of the last step and at any later one the attempts recorded for
-- the hour before and the calls that may still record one are together at most 4 + w: at most
-- five attempts if calls come one by one, and one more for each rival that was checked in time.
pub Calls-IsLimited :
    (w : ℕ) (start : Db) (last : ℕ) (open_calls : List Text) (db : Db)
    → ((n : Text) (t : ℕ) → count (is_recent n t) start.link_attempts ≤ 4 + w)
    → Calls w start last open_calls db
    → (n : Text) (t : ℕ) → last ≤ t
    → count (is_recent n t) db.link_attempts + count (text_eq n) open_calls ≤ 4 + w
Calls-IsLimited w start _ _ _ i begin n t h = omega (arith, i n t)
Calls-IsLimited w start _ _ _ i (checks last now number open_calls db c later passed room) n t h =
    elim (Bool-cases (text_eq number n)) [
      | inl hit ↦
          let same = text_eq→≡ number n hit in
          let few =
            subst (λ k. count (is_recent k now) db.link_attempts ≤ 4) same
              (checked_few now number db passed) in
          let room' = subst (λ k. count (text_eq k) open_calls < w) same room in
          ground (
            arith,
            hit,
            text_eq_sym n number,
            few,
            room',
            count-is_recent n now t db.link_attempts h,
          )
      | inr miss ↦ ground (
        arith,
        miss,
        text_eq_sym n number,
        Calls-IsLimited w start last open_calls db i c n t (omega (arith, later, h)),
      )
    ]
Calls-IsLimited w start _ _ _ i
      (goes_on last e number phone email hash found before after db c later) n t h =
    let was =
      Calls-IsLimited w start last (before ++ number ∷ after) db i c n t
        (omega (arith, later, h)) in
    let split = count-append (text_eq n) before (number ∷ after) in
    let joined = count-append (text_eq n) before after in
    elim (link_found_frame e number phone email hash (matching phone found) db) [
      | inl same ↦ rw same (ground (arith, was, split, joined))
      | inr new ↦
          rw (new, count-append (is_recent n t) db.link_attempts (attempt e number ∷ []))
            (ground (arith, was, split, joined, text_eq_sym n number))
    ]
Calls-IsLimited w start _ _ _ i (elsewhere last open_calls db db' c same) n t h =
    rw same (Calls-IsLimited w start last open_calls db i c n t h)
