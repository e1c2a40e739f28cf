-- ===== src/Members/Status.antt =====
-- A member's status, and the account that goes with it.
use sports_erp.Prelude.{
  ℕ, ◌≡◌, inl, inr, refl, Option, none, some, Bool, true, not, ◌&&◌, ◌||◌, ◌==◌, find, exists,
  passes, arith, Option-cases, find-update_same,
}
use sports_erp.Store.{Db}
use sports_erp.Store.Errors.{ok, is_ok}
use sports_erp.Store.Members.{Member, MemberStatus}
use sports_erp.Store.Staffing.{Account}
use sports_erp.Staffing.{is_active_email}
use sports_erp.Members.{Env, update_status, is_withdrawn, set_active}

abbrev pub account_of : ℕ → Db → Option Account
account_of id db = find (λ a. a.id == id) db.accounts

-- The account can be set as the status wants it.
abbrev pub may_set : MemberStatus → Db → Option ℕ → Bool
may_set status db none = true
may_set status db (some id) =
    passes
      (λ a.
        is_withdrawn status
        || not (exists (λ b. is_active_email a.email b && not (b.id == id)) db.accounts))
      (account_of id db)

-- A change of a member's status succeeds exactly if the member has a row and, where the member is
-- linked to an account, the account has one and either the new status is withdrawn or no other
-- active account has its email.
pub update_status_iff :
    (e : Env) (id : ℕ) (status : MemberStatus) (db : Db)
    → is_ok (update_status e id status db).0
      ≡ passes (λ m. may_set status db m.account_id) (find (λ m. m.id == id) db.members)
unfolding update_status
update_status_iff e id status db = ground arith

-- After a change of status that goes through, the account that the member is linked to is active
-- exactly if the new status is not withdrawn.
pub update_status-active :
    (e : Env) (id account : ℕ) (status : MemberStatus) (db db' : Db) (m : Member)
    → find (λ m. m.id == id) db.members ≡ some m
    → m.account_id ≡ some account
    → update_status e id status db ≡ (ok tt, db')
    → passes (λ a. a.is_active) (account_of account db') ≡ not (is_withdrawn status)
unfolding update_status
update_status-active e id account status db db' m hm ha h =
    elim (Option-cases (account_of account db)) [
      | inl n ↦ absurd (ground (arith, hm, ha, h, n))
      | inr (a, f) ↦ ground (
        arith,
        hm,
        ha,
        h,
        f,
        find-update_same (λ a. a.id) account (set_active (not (is_withdrawn status))) db.accounts a
            (λ x. refl) f,
      )
    ]
