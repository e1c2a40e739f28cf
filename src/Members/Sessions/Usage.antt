-- ===== src/Members/Sessions/Usage.antt =====
-- What is used of a PT package, against the log of its sessions.
use sports_erp.Prelude.{
  ℕ, ◌≤◌, ◌≡◌, ◌≢◌, ◌⊎◌, inl, inr, refl, sym, subst, ◌∙◌, find_of_count, find-passes, Distinct-find,
  Option, List, [], ◌∷◌, ◌++◌, String, Bool, true, ◌==◌, count, update, arith, All, All-map,
  All-append, All-update, All-zip, count-append, Distinct, Distinct-append, Distinct-update,
}
use sports_erp.Store.{Db}
use sports_erp.Store.Members.{PtSession, PtSessionLog}
use sports_erp.Members.Sessions.{
  create_pt_session, use_pt_session, has_left, use_one, new_log, new_pt_session,
}

abbrev pub is_log_of : ℕ → PtSessionLog → Bool
is_log_of id l = l.pt_session_id == id

-- No package is used beyond its total, and each use has its entry in the log.
abbrev pub IsUsed : List PtSessionLog → PtSession → Type 0
IsUsed logs s =
    (s.used_sessions ≤ s.total_sessions) × (count (is_log_of s.id) logs ≡ s.used_sessions)

pub record IsSound (sessions : List PtSession) (logs : List PtSessionLog) : Type 0 where
  pub ids : Distinct (λ s. s.id) sessions
  pub used : All (IsUsed logs) sessions

create_frame :
    (new member program total at_day : ℕ) (db : Db)
    → ((create_pt_session new member program total at_day db).1 ≡ db)
      ⊎ (((create_pt_session new member program total at_day db).1.pt_sessions
            ≡ db.pt_sessions ++ new_pt_session new member program total at_day ∷ [])
          × ((create_pt_session new member program total at_day db).1.pt_logs ≡ db.pt_logs))
unfolding create_pt_session
create_frame new member program total at_day db = ground arith

use_frame :
    (new now id : ℕ) (remark : Option String) (db : Db)
    → ((use_pt_session new now id remark db).1 ≡ db)
      ⊎ (((use_pt_session new now id remark db).1.pt_sessions
            ≡ update (has_left id) use_one db.pt_sessions)
          × ((use_pt_session new now id remark db).1.pt_logs
              ≡ db.pt_logs ++ new_log new id now remark ∷ [])
          × (count (has_left id) db.pt_sessions ≢ 0))
unfolding use_pt_session
use_frame new now id remark db = ground arith

created-IsSound :
    (new member program total at_day : ℕ) (sessions : List PtSession) (logs : List PtSessionLog)
    → All (λ s. s.id ≢ new) sessions
    → count (is_log_of new) logs ≡ 0
    → IsSound sessions logs
    → IsSound (sessions ++ new_pt_session new member program total at_day ∷ []) logs
created-IsSound new member program total at_day sessions logs fresh unlogged i = record {
  ids =
      Distinct-append (λ s. s.id) sessions (new_pt_session new member program total at_day) i.ids
        fresh;
  used =
      All-append (IsUsed logs) sessions (new_pt_session new member program total at_day ∷ []) i.used
        ((omega arith, unlogged), tt);
}

-- A row of the package that has a session left is the only one with its id.
only :
    (id : ℕ) (xs : List PtSession)
    → Distinct (λ s. s.id) xs
    → count (has_left id) xs ≢ 0
    → All (λ s. s.id ≡ id → has_left id s ≡ true) xs
only id xs d h =
    let (x, found) = find_of_count (has_left id) xs (omega (arith, h)) in
    let hit = find-passes (has_left id) xs x found in
    let own : x.id ≡ id = ground (arith, hit) in
    All-map (λ y. y.id ≡ x.id → y ≡ x) (λ y. y.id ≡ id → has_left id y ≡ true) xs
      (λ y same e. subst (λ z. has_left id z ≡ true) (sym (same (e ∙ sym own))) hit)
      (Distinct-find (λ s. s.id) (has_left id) xs x d found)

used-IsSound :
    (new now id : ℕ) (remark : Option String) (sessions : List PtSession) (logs : List PtSessionLog)
    → count (has_left id) sessions ≢ 0
    → IsSound sessions logs
    → IsSound (update (has_left id) use_one sessions) (logs ++ new_log new id now remark ∷ [])
used-IsSound new now id remark sessions logs left i = record {
  ids = Distinct-update (λ s. s.id) (has_left id) use_one sessions (λ x. refl) i.ids;
  used =
      All-update (λ s. IsUsed logs s × (s.id ≡ id → has_left id s ≡ true))
        (IsUsed (logs ++ new_log new id now remark ∷ [])) (has_left id) use_one sessions
        (λ s t u.
          ground (arith, t, u, count-append (is_log_of s.id) logs (new_log new id now remark ∷ [])))
        (λ s f u.
          ground (arith, f, u, count-append (is_log_of s.id) logs (new_log new id now remark ∷ [])))
        (All-zip (IsUsed logs) (λ s. s.id ≡ id → has_left id s ≡ true) sessions i.used
          (only id sessions i.ids left));
}

-- A package that is bought, with a new id, or a session of one that is used.
pub data Step : Db → Db → Type 0 where
  buys :
      (new member program total at_day : ℕ) (db : Db)
      → All (λ s. s.id ≢ new) db.pt_sessions
      → count (is_log_of new) db.pt_logs ≡ 0
      → Step db (create_pt_session new member program total at_day db).1
  uses :
      (new now id : ℕ) (remark : Option String) (db : Db)
      → Step db (use_pt_session new now id remark db).1

pub data Reach (start : Db) : Db → Type 0 where
  begin : Reach start start
  step : (db db' : Db) → Reach start db → Step db db' → Reach start db'

Step-IsSound :
    {db db' : Db}
    → Step db db'
    → IsSound db.pt_sessions db.pt_logs
    → IsSound db'.pt_sessions db'.pt_logs
Step-IsSound (buys new member program total at_day db fresh unlogged) i =
    elim (create_frame new member program total at_day db) [
      | inl same ↦ subst (λ d. IsSound d.pt_sessions d.pt_logs) (sym same) i
      | inr (a, b) ↦
          rw (a, b) (created-IsSound new member program total at_day _ _ fresh unlogged i)
    ]
Step-IsSound (uses new now id remark db) i = elim (use_frame new now id remark db) [
  | inl same ↦ subst (λ d. IsSound d.pt_sessions d.pt_logs) (sym same) i
  | inr (a, b, left) ↦ rw (a, b) (used-IsSound new now id remark _ _ left i)
]

-- If the packages of PT sessions have distinct ids, none is used beyond its total, and each has
-- as many entries in the log as sessions used, then that is so after any sequence of purchases
-- (with a new id that no entry names) and uses, failed ones included.
pub Reach-IsUsed :
    (start db : Db)
    → IsSound start.pt_sessions start.pt_logs
    → Reach start db
    → IsSound db.pt_sessions db.pt_logs
Reach-IsUsed start _ i begin = i
Reach-IsUsed start _ i (step db db' r s) = Step-IsSound s (Reach-IsUsed start db i r)
